-- ===== src/Stack/Unconfirmed/Delivery.antt =====
-- From one stack to the other: the octets of a fragment that is sent, cut anyhow, are heard as that
-- fragment.
use go_dnp.Common.{
  ℕ, zero, suc, ◌+◌, ◌≤◌, ◌<◌, Bool, true, false, bool_ne, ◌&&◌, ◌==◌, if◌then◌else◌, Option, none,
  some, List, [], ◌∷◌, ◌++◌, append_assoc, append-nil, length, length-append, length-drop, take,
  drop, take-append-drop, All, ◌≡◌, refl, sym, ap, ap₂, subst, ◌∙◌, arith,
}
use go_dnp.Common.Bits.{IsU16}
use go_dnp.Link.Address.{is_broadcast, is_valid_source}
use go_dnp.Link.Frame.{frame_size}
use go_dnp.Link.Frame.RoundTrip.{frame_octets, length-frame_octets}
use go_dnp.Link.Parser
use go_dnp.Link.Parser.{Parser}
use go_dnp.Link.Parser.Capacity.{IsWithin, write_lem}
use go_dnp.Transport.Segmenter.{segment_all}
use go_dnp.Transport.Segmenter.Spec.{IsSegment, segment_all_lem}
use go_dnp.Transport.Reassembler.{limit}
use go_dnp.Transport.Reassembler.RoundTrip.{feed, feed-segment_all}
use go_dnp.Stack.{Stack, busy, Error, Received, parser_full}
use go_dnp.Stack.Sending.{send_to}
use go_dnp.Stack.Receiving.{drain, drain_on, receive_loop, receive}
use go_dnp.Stack.Unconfirmed.{World, line, note, data_header, stream}
use go_dnp.Stack.Unconfirmed.Sender.{IsQuiet, send_to-line}
use go_dnp.Stack.Unconfirmed.Receiver.{heard}
use go_dnp.Stack.Unconfirmed.Flow.{Flow, needed, Drained, drain_loop-Drained}

-- What is heard of chunks, one call for each, up to the first error.
abbrev pub hear : List (List ℕ) → Stack × World → (Stack × World) × Option Error
hear [] sw = (sw, none)
hear (c ∷ cs) (s, w) = drain_on line note (hear cs) (receive line note s w c)

abbrev pub joined : List (List ℕ) → List ℕ
joined [] = []
joined (c ∷ cs) = c ++ joined cs

needed-le : (ps : List (List ℕ)) → All IsSegment ps → needed ps ≤ 292
unfolding frame_size
needed-le [] a = omega arith
needed-le (p ∷ ps) a = let fits = a.0.1 in ground (arith, fits)

module _ (is_master : Bool) (dest src : ℕ) (total : List Received) (wire : List ℕ)
    (dest_fits : IsU16 dest) (src_fits : IsU16 src) (valid : is_valid_source src ≡ true) where
  abbrev Rests : List ℕ → (Stack × World) × Option Error → Type 0
  Rests future run = Drained is_master dest src total wire dest_fits src_fits valid future run

  -- Writing moves octets from what is to come to what is held.
  write-Flow :
      (octets future : List ℕ) (ps : List (List ℕ)) (r : Stack) (w : World)
      → Flow is_master dest src total wire (octets ++ future) ps r w
      → (let (p, n, full) = Parser.write r.parser octets in
          Flow is_master dest src total wire
            (drop n octets ++ future)
            ps
            (record r { parser = p })
            w)
  write-Flow octets future ps r w f =
      let (p, n, full) = Parser.write r.parser octets in
      let facts = write_lem r.parser octets f.within in
      record {
        segments = f.segments;
        octets =
            ap (λ t. t ++ (drop n octets ++ future)) facts.0
            ∙ append_assoc r.parser.held (take n octets) (drop n octets ++ future)
            ∙ ap (λ t. r.parser.held ++ t)
                (sym (append_assoc (take n octets) (drop n octets) future)
                  ∙ ap (λ t. t ++ future) (take-append-drop n octets))
            ∙ f.octets;
        told = f.told;
        within = facts.4;
        here = f.here;
        other = f.other;
        silent = f.silent;
      }

  not_full : (full : Bool) (n : ℕ) → 0 < n → (full && (n == 0)) ≡ false
  not_full full n h = ground arith

  -- A pass of the loop that accepted octets goes on with the others.
  receive_loop-step :
      (fuel : ℕ) (r : Stack) (w : World) (b : ℕ) (bs : List ℕ)
      → (let (p, n, full) = Parser.write r.parser (b ∷ bs) in
          0 < n
          → (drain line note (record r { parser = p }) w).1 ≡ none
          → receive_loop line note (suc fuel) (r, w) (b ∷ bs)
            ≡ receive_loop line note fuel
                (drain line note (record r { parser = p }) w).0
                (drop n (b ∷ bs)))
  unfolding receive_loop
  receive_loop-step fuel r w b bs some_taken fine =
      let (p, n, full) = Parser.write r.parser (b ∷ bs) in
      goes_on (λ sw. (sw, some parser_full))
        (λ sw. receive_loop line note fuel sw (drop n (b ∷ bs)))
        (drain line note (record r { parser = p }) w) fine (not_full full n some_taken)
    where
      goes_on :
          {blocked : Bool} (k l : Stack × World → (Stack × World) × Option Error)
          (run : (Stack × World) × Option Error)
          → run.1 ≡ none
          → blocked ≡ false
          → drain_on line note (λ sw. if blocked then k sw else l sw) run ≡ l run.0
      goes_on k l (sw, e) g h = rw (g, h) refl

  -- The loop of `receive` hears all that it is given.
  receive_loop-Rests :
      (fuel : ℕ) (octets future : List ℕ) (ps : List (List ℕ)) (r : Stack) (w : World)
      → Flow is_master dest src total wire (octets ++ future) ps r w
      → length r.parser.held < needed ps
      → length octets ≤ fuel
      → Rests future (receive_loop line note fuel (r, w) octets)
  unfolding receive_loop drain
  receive_loop-Rests zero [] future ps r w f waits h = record {
    fine = refl;
    payloads = ps;
    flow = f;
    waits = waits;
  }
  receive_loop-Rests (suc fuel) [] future ps r w f waits h = record {
    fine = refl;
    payloads = ps;
    flow = f;
    waits = waits;
  }
  receive_loop-Rests zero (b ∷ bs) future ps r w f waits h = absurd (omega arith)
  receive_loop-Rests (suc fuel) (b ∷ bs) future ps r w f waits h =
      let (p, n, full) = Parser.write r.parser (b ∷ bs) in
      let facts = write_lem r.parser (b ∷ bs) f.within in
      let taken : 0 < n = omega (arith, facts.2, waits, needed-le ps f.segments) in
      let d : Rests (drop n (b ∷ bs) ++ future) (drain line note (record r { parser = p }) w) =
        drain_loop-Drained is_master dest src total wire dest_fits src_fits valid
          (length p.held + 1) (drop n (b ∷ bs) ++ future) ps (record r { parser = p }) w
          (write-Flow (b ∷ bs) future ps r w f) (omega arith) in
      let run = drain line note (record r { parser = p }) w in
      subst (Rests future) (sym (receive_loop-step fuel r w b bs taken d.fine)) (
        receive_loop-Rests fuel (drop n (b ∷ bs)) future d.payloads run.0.0 run.0.1 d.flow d.waits
          (omega (arith, h, taken, length-drop n (b ∷ bs))))

  hear-Rests :
      (chunks : List (List ℕ)) (ps : List (List ℕ)) (r : Stack) (w : World)
      → Flow is_master dest src total wire (joined chunks) ps r w
      → length r.parser.held < needed ps
      → Rests [] (hear chunks (r, w))
  unfolding receive
  hear-Rests [] ps r w f waits = record { fine = refl; payloads = ps; flow = f; waits = waits }
  hear-Rests (c ∷ cs) ps r w f waits =
      let d = receive_loop-Rests (length c) c (joined cs) ps r w f waits (omega arith) in
      goes_on (hear cs) (receive line note r w c) d.fine (
        hear-Rests cs d.payloads (receive line note r w c).0.0 (receive line note r w c).0.1 d.flow
          d.waits)
    where
      goes_on :
          (k : Stack × World → (Stack × World) × Option Error)
          (run : (Stack × World) × Option Error)
          → run.1 ≡ none
          → Rests [] (k run.0)
          → Rests [] (drain_on line note k run)
      goes_on k (sw, e) g x = rw g x

-- A station that can send to another: it is at rest, the addresses fit the wire, its own is valid, the
-- other has the other role, and what has come to that one has been taken.
pub record IsPair (s r : Stack) : Type 0 where
  pub quiet : IsQuiet s
  pub free : busy s ≡ false
  pub seq_fits : s.seg.seq < 64
  pub dest_fits : IsU16 r.cfg.local_addr
  pub src_fits : IsU16 s.pri.local_addr
  pub valid : is_valid_source s.pri.local_addr ≡ true
  pub other : bool_ne s.pri.is_master r.cfg.is_master ≡ true
  pub empty : r.parser.held ≡ []
  pub within : IsWithin r.parser

abbrev pub silence : World
silence = record { wire = []; reported = [] }

needed_some : (ps : List (List ℕ)) → 0 < needed ps
unfolding frame_size
needed_some [] = omega arith
needed_some (p ∷ ps) = omega arith

no_stream :
    (is_master : Bool) (dest src : ℕ) (ps : List (List ℕ)) (held : List ℕ)
    → held ++ [] ≡ stream is_master dest src ps
    → length held < needed ps
    → ps ≡ []
no_stream is_master dest src [] held e h = refl
no_stream is_master dest src (p ∷ ps) held e h =
    let header = data_header is_master dest src (length p) in
    absurd (
      omega (
        arith,
        h,
        ap length (sym (append-nil held) ∙ e),
        length-append (frame_octets header p) (stream is_master dest src ps),
        length-frame_octets header p,
      ))

-- A fragment that is not empty and no longer than the receiver's limit is sent without an error; its
-- octets, however they are cut into chunks, are received without an error, and what the receiver then
-- has reported is that fragment, once, with the addresses of the two stations, and it has written
-- nothing.
pub send_to-receive :
    (s r : Stack) (fragment : List ℕ) (chunks : List (List ℕ))
    → IsPair s r
    → 0 < length fragment
    → length fragment ≤ limit r.reasm
    → joined chunks ≡ (send_to line s silence r.cfg.local_addr fragment).0.1.wire
    → ((send_to line s silence r.cfg.local_addr fragment).1 ≡ none)
      × ((hear chunks (r, silence)).1 ≡ none)
      × ((hear chunks (r, silence)).0.1 ≡ record silence {
        reported =
            record {
              fragment = fragment;
              source = s.pri.local_addr;
              dest = r.cfg.local_addr;
              broadcast = is_broadcast r.cfg.local_addr;
            }
            ∷ [];
      })
unfolding feed
send_to-receive s r fragment chunks pair long short cut =
    let dest = r.cfg.local_addr in
    let src = s.pri.local_addr in
    let (s', w', run, sent) = send_to-line s silence dest fragment pair.quiet pair.free long in
    let segments = (segment_all s.seg fragment).1 in
    let total = heard dest src (fragment ∷ []) in
    let start : Flow s.pri.is_master dest src total [] (joined chunks) segments r silence = record {
      segments = (segment_all_lem s.seg fragment).0;
      octets =
          ap (λ t. t ++ joined chunks) pair.empty
          ∙ cut
          ∙ ap (λ x. x.0.1.wire) run
          ∙ ap (λ x. x.wire) sent.wire;
      told = ap (heard dest src) (feed-segment_all r.reasm s.seg fragment pair.seq_fits short);
      within = pair.within;
      here = refl;
      other = pair.other;
      silent = refl;
    } in
    let d =
      hear-Rests s.pri.is_master dest src total [] pair.dest_fits pair.src_fits pair.valid chunks
        segments r silence start (waits_first segments) in
    let over = no_stream s.pri.is_master dest src d.payloads _ d.flow.octets d.waits in
    let told =
      sym (append-nil (hear chunks (r, silence)).0.1.reported)
      ∙ subst
          (λ ps.
            (hear chunks (r, silence)).0.1.reported
              ++ heard dest src (feed (hear chunks (r, silence)).0.0.reasm ps)
            ≡ total)
          over d.flow.told in
    (ap (λ x. x.1) run, d.fine, same_world d.flow.silent told)
  where
    waits_first : (ps : List (List ℕ)) → length r.parser.held < needed ps
    waits_first ps = omega (arith, ap length pair.empty, needed_some ps)

    same_world : {w v : World} → w.wire ≡ v.wire → w.reported ≡ v.reported → w ≡ v
    same_world e g = ap₂ (λ a b. record { wire = a; reported = b }) e g
