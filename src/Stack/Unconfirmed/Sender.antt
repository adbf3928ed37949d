-- ===== src/Stack/Unconfirmed/Sender.antt =====
-- What a stack that rests writes for a fragment: the frames of its segments, in order.
use go_dnp.Common.{
  ℕ, zero, suc, ◌+◌, ◌≤◌, Bool, true, false, not, if◌then◌else◌, none, List, [], ◌∷◌, ◌++◌,
  append_assoc, append-nil, length, All, subst, ◌<◌, ◌≡◌, refl, sym, ap, ◌∙◌, arith, Bool-cases,
  inl, inr,
}
use go_dnp.Link.Frame.{Frame}
use go_dnp.Link.Frame.RoundTrip.{frame_octets, encode-frame_octets}
use go_dnp.Link.Primary
use go_dnp.Link.Primary.{Primary, Action}
use go_dnp.Transport.Segmenter
use go_dnp.Transport.Segmenter.{Segmenter, segments_for, segment_loop, segment_all}
use go_dnp.Transport.Segmenter.Spec.{IsSegment, segment_all_lem}
use go_dnp.Stack.{Stack, busy}
use go_dnp.Stack.Sending.{more, stopped, write, after_send, pump_round, pump_loop, pump, send_to}
use go_dnp.Stack.Unconfirmed.{World, line, data_header, data_frame, stream, send-unconfirmed}

-- The primary rests, does not confirm and is not held up.
pub record IsQuiet (s : Stack) : Type 0 where
  pub unconfirmed : s.pri.use_confirms ≡ false
  pub rests : s.pri.state ≡ Primary.idle
  pub flows : s.pri.flow_control ≡ false

-- What a run has sent: the frames of the payloads and nothing else.
pub record Sent (s : Stack) (w : World) (payloads : List (List ℕ)) (seg : Segmenter) (s' : Stack)
    (w' : World) : Type 0 where
  pub wire :
      w' ≡ record w { wire = w.wire ++ stream s.pri.is_master s.dest s.pri.local_addr payloads }
  pub quiet : IsQuiet s'
  pub done : s'.seg ≡ seg
  pub rested : s'.awaiting ≡ false

abbrev written : World → Stack → List ℕ → World
written w s payload = record w {
  wire =
      w.wire
      ++ frame_octets (data_header s.pri.is_master s.dest s.pri.local_addr (length payload))
          payload;
}

write-line :
    (w : World) (f : Frame)
    → length f.payload ≤ 250
    → write line w f ≡ (record w { wire = w.wire ++ frame_octets f.header f.payload }, none)
unfolding write
write-line w f fits = rw (encode-frame_octets [] f.header f.payload fits, write) refl

-- The stack behind a round that emitted a segment.
abbrev behind : Stack → Segmenter → List ℕ → Stack
behind s seg payload = record s {
  seg = seg;
  pri = record s.pri {
    retries = 0;
    last_sent = data_frame (record s.pri { remote_addr = s.dest }) payload;
  };
}

after_send-line :
    (s : Stack) (w : World) (f : Frame)
    → length f.payload ≤ 250
    → after_send line s w ((f, Action.complete), Primary.nil)
      ≡ ((s, record w { wire = w.wire ++ frame_octets f.header f.payload }), more)
unfolding after_send
after_send-line s w f fits =
    rw (ap (λ r. r.1) (write-line w f fits), ap (λ r. r.0) (write-line w f fits)) refl

both_pass :
    {A : Type 0} {a b : Bool} (x y z : A)
    → a ≡ true
    → b ≡ false
    → (if not a then x else if b then y else z) ≡ z
both_pass x y z e f = rw (e, f) refl

pump_round-live :
    (s : Stack) (w : World) (seg : Segmenter) (payload : List ℕ)
    → IsQuiet s
    → s.seg.live ≡ true
    → Segmenter.next s.seg [] ≡ (seg, payload, true)
    → length payload ≤ 250
    → pump_round line s w ≡ ((behind s seg payload, written w s payload), more)
unfolding pump_round
pump_round-live s w seg payload q live e fits =
    both_pass _ _ _ live q.flows
    ∙ rw
        (
          e,
          send-unconfirmed (record s.pri { remote_addr = s.dest }) payload q.unconfirmed q.rests
              q.flows fits,
        )
        (after_send-line (behind s seg payload) w
          (data_frame (record s.pri { remote_addr = s.dest }) payload) fits)

pump_round-over :
    (s : Stack) (w : World)
    → s.seg.live ≡ false
    → pump_round line s w ≡ ((record s { awaiting = false }, w), stopped none)
unfolding pump_round
pump_round-over s w over = rw over refl

next-over : (s : Segmenter) → s.live ≡ false → Segmenter.next s [] ≡ (s, [], false)
unfolding Segmenter.next
next-over s e = ground (arith, e)

next-live : (s : Segmenter) → s.live ≡ true → (Segmenter.next s []).2 ≡ true
unfolding Segmenter.next
next-live s e = ground (arith, e)

-- The run of the loop that sends what the segmenter yields, with a pass more than there are.
Ran : ℕ → Stack → World → Type 0
Ran fuel s w =
    (s' : Stack) × (w' : World) × (pump_loop line (suc fuel) (s, w) ≡ ((s', w'), stopped none))
    × Sent s w (segment_loop fuel s.seg).1 (segment_loop fuel s.seg).0 s' w'

pump_loop-over : (fuel : ℕ) (s : Stack) (w : World) → IsQuiet s → s.seg.live ≡ false → Ran fuel s w
unfolding Ran pump_loop segment_loop
pump_loop-over zero s w q e = (
  record s { awaiting = false },
  w,
  rw (pump_round-over s w e) refl,
  record {
    wire = nothing;
    quiet = record { unconfirmed = q.unconfirmed; rests = q.rests; flows = q.flows };
    done = refl;
    rested = refl;
  },
)
  where
    nothing : w ≡ record w { wire = w.wire ++ [] }
    nothing = ap (λ t. record w { wire = t }) (sym (append-nil w.wire))
pump_loop-over (suc fuel) s w q e = (
  record s { awaiting = false },
  w,
  rw (pump_round-over s w e) refl,
  rw (next-over s.seg e) (record {
    wire = nothing;
    quiet = record { unconfirmed = q.unconfirmed; rests = q.rests; flows = q.flows };
    done = refl;
    rested = refl;
  }),
)
  where
    nothing : w ≡ record w { wire = w.wire ++ [] }
    nothing = ap (λ t. record w { wire = t }) (sym (append-nil w.wire))

segment_loop-step :
    (fuel : ℕ) (s seg : Segmenter) (payload : List ℕ)
    → Segmenter.next s [] ≡ (seg, payload, true)
    → segment_loop (suc fuel) s ≡ ((segment_loop fuel seg).0, payload ∷ (segment_loop fuel seg).1)
unfolding segment_loop
segment_loop-step fuel s seg payload e = rw e refl

pump_loop-step :
    (fuel : ℕ) (s : Stack) (w : World) (seg : Segmenter) (payload : List ℕ)
    → IsQuiet s
    → s.seg.live ≡ true
    → Segmenter.next s.seg [] ≡ (seg, payload, true)
    → length payload ≤ 250
    → Ran fuel (behind s seg payload) (written w s payload)
    → Ran (suc fuel) s w
unfolding Ran pump_loop
pump_loop-step fuel s w seg payload q live e fits (s', w', run, sent) = (
  s',
  w',
  rw (pump_round-live s w seg payload q live e fits) run,
  rw (segment_loop-step fuel s.seg seg payload e) (record {
    wire = sent.wire ∙ ap (λ t. record w { wire = t }) (append_assoc w.wire _ _);
    quiet = sent.quiet;
    done = sent.done;
    rested = sent.rested;
  }),
)

-- Enough passes send whatever the segmenter yields in one pass less.
pump_loop-line :
    (fuel : ℕ) (s : Stack) (w : World)
    → IsQuiet s
    → All IsSegment (segment_loop fuel s.seg).1
    → (segment_loop fuel s.seg).0.live ≡ false
    → Ran fuel s w
unfolding segment_loop
pump_loop-line zero s w q fits over = pump_loop-over zero s w q over
pump_loop-line (suc fuel) s w q fits over = elim (Bool-cases s.seg.live) [
  | inl live ↦
      emit (triple (Segmenter.next s.seg []) (next-live s.seg live)) live
        (pump_loop-line fuel (behind s seg payload) (written w s payload))
  | inr e ↦ pump_loop-over (suc fuel) s w q e
]
  where
    seg : Segmenter
    seg = (Segmenter.next s.seg []).0

    payload : List ℕ
    payload = (Segmenter.next s.seg []).1

    triple : (r : Segmenter × List ℕ × Bool) → r.2 ≡ true → r ≡ (r.0, r.1, true)
    triple r e = ap (λ b. (r.0, r.1, b)) e

    emit :
        Segmenter.next s.seg [] ≡ (seg, payload, true)
        → s.seg.live ≡ true
        → (IsQuiet (behind s seg payload)
            → All IsSegment (segment_loop fuel seg).1
            → (segment_loop fuel seg).0.live ≡ false
            → Ran fuel (behind s seg payload) (written w s payload))
        → Ran (suc fuel) s w
    emit e live later =
        let step = segment_loop-step fuel s.seg seg payload e in
        let all : All IsSegment (payload ∷ (segment_loop fuel seg).1) =
          subst (λ r. All IsSegment r.1) step fits in
        pump_loop-step fuel s w seg payload q live e all.0.1 (
          later (record { unconfirmed = q.unconfirmed; rests = q.rests; flows = q.flows }) all.1
            (sym (ap (λ r. r.0.live) step) ∙ over))

-- A fragment that is sent: the frames of its segments.
pub send_to-line :
    (s : Stack) (w : World) (dest : ℕ) (fragment : List ℕ)
    → IsQuiet s
    → busy s ≡ false
    → 0 < length fragment
    → (s' : Stack) × (w' : World) × (send_to line s w dest fragment ≡ ((s', w'), none))
      × Sent
          (record s { dest = dest })
          w
          (segment_all s.seg fragment).1
          (segment_all s.seg fragment).0
          s'
          w'
unfolding send_to pump segment_all Ran
send_to-line s w dest [] q free long = absurd (omega arith)
send_to-line s w dest (b ∷ bs) q free long =
    let lem = segment_all_lem s.seg (b ∷ bs) in
    let n = segments_for (length (b ∷ bs)) in
    let (s', w', run, sent) =
      subst (λ k. Ran k (record s { dest = dest; seg = Segmenter.reset s.seg (b ∷ bs) }) w) refl
        (pump_loop-line (n + 1) (record s { dest = dest; seg = Segmenter.reset s.seg (b ∷ bs) }) w
          (record { unconfirmed = q.unconfirmed; rests = q.rests; flows = q.flows }) lem.0
          (ap (λ x. x.live) lem.1.1)) in
    let rounds : n + 2 ≡ suc (n + 1) = omega arith in
    (
      s',
      w',
      rw (free, rounds, run) refl,
      record { wire = sent.wire; quiet = sent.quiet; done = sent.done; rested = sent.rested },
    )
