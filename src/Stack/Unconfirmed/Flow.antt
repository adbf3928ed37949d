-- ===== src/Stack/Unconfirmed/Flow.antt =====
-- Frames of unconfirmed user data on their way into a stack: what has arrived, what is still to come.
use go_dnp.Common.{
  ℕ, zero, suc, ◌+◌, ◌≤◌, ◌<◌, Bool, true, bool_ne, ltb, ltb→lt, ltb-false→le, lt→ltb, Bool-cases,
  Option, none, some, List, [], ◌∷◌, ◌++◌, append_assoc, append-nil, length, length-append, take,
  drop, take-append, take-length, take-append-drop, drop-length, All, ◌≡◌, refl, sym, ap, subst,
  inl, inr, ◌∙◌, arith,
}
use native.Mathlib.Numerals.{add-one}
use go_dnp.Common.Bits.{IsU16}
use go_dnp.Link.Address.{is_valid_source}
use go_dnp.Link.Frame.{frame_size}
use go_dnp.Link.Frame.RoundTrip.{frame_octets, length-frame_octets}
use go_dnp.Link.Parser
use go_dnp.Link.Parser.{Parser, need_more, got, next_loop, round}
use go_dnp.Link.Parser.Arrival.{found, frame_size-ge}
use go_dnp.Link.Parser.Capacity.{IsWithin}
use go_dnp.Link.Parser.Whole.{next-whole, next-part}
use go_dnp.Transport.Reassembler.{accept}
use go_dnp.Transport.Reassembler.RoundTrip.{feed, delivered}
use go_dnp.Transport.Segmenter.Spec.{IsSegment}
use go_dnp.Stack.{Stack, Error, Received}
use go_dnp.Stack.Receiving.{drain_loop, drain_on}
use go_dnp.Stack.Unconfirmed.{World, line, note, data_header, data_header-IsWire, stream}
use go_dnp.Stack.Unconfirmed.Receiver.{heard, reports, on_frame-line}

-- A block at the front of what is held and what comes, when as much is held.
front_held :
    (held future block rest : List ℕ)
    → held ++ future ≡ block ++ rest
    → length block ≤ length held
    → (held ≡ block ++ drop (length block) held) × (drop (length block) held ++ future ≡ rest)
front_held held future block rest e long = (whole, behind)
  where
    whole : held ≡ block ++ drop (length block) held
    whole =
        sym (take-append-drop (length block) held)
        ∙ ap (λ t. t ++ drop (length block) held)
            (sym (take-append (length block) held future long)
              ∙ ap (take (length block)) e
              ∙ take-length block rest)

    behind : drop (length block) held ++ future ≡ rest
    behind =
        sym (drop-length block (drop (length block) held ++ future))
        ∙ ap (drop (length block)) (
            sym (append_assoc block (drop (length block) held) future)
            ∙ ap (λ t. t ++ future) (sym whole)
            ∙ e)
        ∙ drop-length block rest

next-short : (p : Parser) → length p.held < 10 → Parser.next p ≡ (p, need_more)
unfolding Parser.next next_loop round
next-short p h = rw (add-one, lt→ltb (length p.held) 10 h) refl

told-delivered :
    (before : List Received) (dest src : ℕ) (res : Option (List ℕ)) (rest : List (List ℕ))
    → (before ++ heard dest src (delivered res [])) ++ heard dest src rest
      ≡ before ++ heard dest src (delivered res rest)
told-delivered before dest src none rest = ap (λ t. t ++ heard dest src rest) (append-nil before)
told-delivered before dest src (some f) rest = append_assoc before _ _

-- A stack and its world while the frames of `payloads` come in from a station of the other role, and
-- the reports will be `total`.
pub record Flow (is_master : Bool) (dest src : ℕ) (total : List Received) (wire future : List ℕ)
    (payloads : List (List ℕ)) (r : Stack) (w : World) : Type 0 where
  pub segments : All IsSegment payloads
  pub octets : r.parser.held ++ future ≡ stream is_master dest src payloads
  pub told : w.reported ++ heard dest src (feed r.reasm payloads) ≡ total
  pub within : IsWithin r.parser
  pub here : r.cfg.local_addr ≡ dest
  pub other : bool_ne is_master r.cfg.is_master ≡ true
  pub silent : w.wire ≡ wire

-- As many octets as the parser waits for.
abbrev pub needed : List (List ℕ) → ℕ
needed [] = 1
needed (p ∷ ps) = frame_size (length p)

module _ (is_master : Bool) (dest src : ℕ) (total : List Received) (wire : List ℕ)
    (dest_fits : IsU16 dest) (src_fits : IsU16 src) (valid : is_valid_source src ≡ true) where
  -- The frames that are held have been taken.
  pub record Drained (future : List ℕ) (run : (Stack × World) × Option Error) : Type 0 where
    pub fine : run.1 ≡ none
    pub payloads : List (List ℕ)
    pub flow : Flow is_master dest src total wire future payloads run.0.0 run.0.1
    pub waits : length run.0.0.parser.held < needed payloads

  -- The stack when a frame has been taken.
  abbrev after : Stack → List ℕ → List ℕ → Stack
  after r payload rest =
      let r' = record r {
        parser = record r.parser {
          read = r.parser.read + frame_size (length payload);
          held = rest;
          stats = record r.parser.stats { frames_decoded = r.parser.stats.frames_decoded + 1 };
        };
        reasm = (accept r.reasm payload).0;
      } in
      r'

  abbrev told_on : Stack → World → List ℕ → World
  told_on r w payload = reports dest src w (accept r.reasm payload).1.fragment

  drain_loop-frame :
      (fuel : ℕ) (r : Stack) (w : World) (payload rest : List ℕ)
      → IsSegment payload
      → r.cfg.local_addr ≡ dest
      → bool_ne is_master r.cfg.is_master ≡ true
      → r.parser.held
        ≡ frame_octets (data_header is_master dest src (length payload)) payload ++ rest
      → drain_loop line note (suc fuel) (r, w)
        ≡ drain_loop line note fuel (after r payload rest, told_on r w payload)
  unfolding drain_loop
  drain_loop-frame fuel r w payload rest seg here other e =
      let h = data_header is_master dest src (length payload) in
      let wires = data_header-IsWire is_master dest src (length payload) dest_fits src_fits in
      let taken = record r { parser = found h payload rest wires seg.1 r.parser } in
      rw (next-whole h payload wires seg.1 rest r.parser e) (
        ap (drain_on line note (drain_loop line note fuel))
          (on_frame-line taken w is_master dest src payload seg.0 here other valid))

  drain_loop-wait :
      (fuel : ℕ) (r : Stack) (w : World)
      → Parser.next r.parser ≡ (r.parser, need_more)
      → drain_loop line note (suc fuel) (r, w) ≡ ((r, w), none)
  unfolding drain_loop
  drain_loop-wait fuel r w e = rw e refl

  -- A frame that has arrived whole is taken out of what flows in.
  after-Flow :
      (future : List ℕ) (payload rest : List ℕ) (ps : List (List ℕ)) (r : Stack) (w : World)
      → Flow is_master dest src total wire future (payload ∷ ps) r w
      → r.parser.held
        ≡ frame_octets (data_header is_master dest src (length payload)) payload ++ rest
      → rest ++ future ≡ stream is_master dest src ps
      → Flow is_master dest src total wire future ps (after r payload rest) (told_on r w payload)
  unfolding feed
  after-Flow future payload rest ps r w f e left = record {
    segments = f.segments.1;
    octets = left;
    told = told-delivered w.reported dest src (accept r.reasm payload).1.fragment _ ∙ f.told;
    within = omega (
      arith,
      f.within,
      ap length e,
      length-append (frame_octets (data_header is_master dest src (length payload)) payload) rest,
      length-frame_octets (data_header is_master dest src (length payload)) payload,
    );
    here = f.here;
    other = f.other;
    silent = f.silent;
  }

  drain_loop-wait_end :
      (fuel : ℕ) (future : List ℕ) (r : Stack) (w : World)
      → Flow is_master dest src total wire future [] r w
      → Drained future (drain_loop line note (suc fuel) (r, w))
  drain_loop-wait_end fuel future r w f =
      let empty : length r.parser.held ≡ 0 =
        omega (arith, ap length f.octets, length-append r.parser.held future) in
      rw (drain_loop-wait fuel r w (next-short r.parser (omega (arith, empty))))
        (record { fine = refl; payloads = []; flow = f; waits = omega (arith, empty) })

  drain_loop-wait_frame :
      (fuel : ℕ) (future : List ℕ) (payload : List ℕ) (ps : List (List ℕ)) (r : Stack) (w : World)
      → Flow is_master dest src total wire future (payload ∷ ps) r w
      → length r.parser.held < frame_size (length payload)
      → Drained future (drain_loop line note (suc fuel) (r, w))
  drain_loop-wait_frame fuel future payload ps r w f short =
      let h = data_header is_master dest src (length payload) in
      let wires = data_header-IsWire is_master dest src (length payload) dest_fits src_fits in
      let seg = f.segments.0 in
      rw
        (drain_loop-wait fuel r w (
          next-part h payload wires seg.1 r.parser future (stream is_master dest src ps) f.octets
            short))
        (record { fine = refl; payloads = payload ∷ ps; flow = f; waits = short })

  -- Fuel for each octet held and one more drains all that has arrived.
  pub drain_loop-Drained :
      (fuel : ℕ) (future : List ℕ) (ps : List (List ℕ)) (r : Stack) (w : World)
      → Flow is_master dest src total wire future ps r w
      → length r.parser.held < fuel
      → Drained future (drain_loop line note fuel (r, w))
  drain_loop-Drained zero future ps r w f h = absurd (omega arith)
  drain_loop-Drained (suc fuel) future [] r w f h = drain_loop-wait_end fuel future r w f
  drain_loop-Drained (suc fuel) future (p ∷ ps) r w f h =
      let header = data_header is_master dest src (length p) in
      let block = frame_octets header p in
      elim (Bool-cases (ltb (length r.parser.held) (frame_size (length p)))) [
        | inl e ↦
            drain_loop-wait_frame fuel future p ps r w f
              (ltb→lt (length r.parser.held) (frame_size (length p)) e)
        | inr e ↦
            let long : length block ≤ length r.parser.held = omega (
              arith,
              ltb-false→le (length r.parser.held) (frame_size (length p)) e,
              length-frame_octets header p,
            ) in
            let parts =
              front_held r.parser.held future block (stream is_master dest src ps) f.octets long in
            let rest = drop (length block) r.parser.held in
            let fewer : length rest < fuel = omega (
              arith,
              h,
              ap length parts.0,
              length-append block rest,
              length-frame_octets header p,
              frame_size-ge (length p),
            ) in
            subst (Drained future)
              (sym (drain_loop-frame fuel r w p rest f.segments.0 f.here f.other parts.0))
              (drain_loop-Drained fuel future ps (after r p rest) (told_on r w p)
                (after-Flow future p rest ps r w f parts.0 parts.1) fewer)
      ]
