-- ===== src/Transport/Reassembler/RoundTrip.antt =====
-- A segmenter's output put through a reassembler.
use go_dnp.Common.{
  ℕ, zero, suc, ◌+◌, ◌-◌, ◌*◌, ◌%◌, ◌≤◌, ◌<◌, true, false, ◌==◌, Option, some, none, List, [], ◌∷◌,
  ◌≡◌, refl, subst, length, take, take-add, drop, length-take, length-drop, ltb, ltb→lt,
  ltb-false→le, Bool-cases, inl, inr, take-append-drop, arith,
}
use go_dnp.Transport.Segmenter.{Segmenter, segments_for, segment_loop, segment_all}
use go_dnp.Transport.Segmenter.Spec.{
  running, segment, loop-last, loop-more, segment_all-loop, count-upper,
}
use go_dnp.Transport.Reassembler.Accepts.{
  Carries, Continues, append-more, append-last, counted, counted-Carries, accept-append,
  accept-more, begun, begun-Carries, accept-start, accept-start-state,
}
use go_dnp.Transport.Reassembler.{Reassembler, limit, accept}

-- Prefixes a delivered fragment, if there is one.
abbrev pub delivered : Option (List ℕ) → List (List ℕ) → List (List ℕ)
delivered none rest = rest
delivered (some fragment) rest = fragment ∷ rest

-- The fragments that a reassembler delivers, over the segments in order.
unfoldable pub feed : Reassembler → List (List ℕ) → List (List ℕ)
feed r [] = []
feed r (s ∷ rest) = delivered (accept r s).1.fragment (feed (accept r s).0 rest)

==_positive : (n : ℕ) → 0 < n → (n == 0) ≡ false
==_positive n h = ground arith

-- What a non-final segment leads to, and a final one.
feed-more :
    (r : Reassembler) (segment : List ℕ) (rest : List (List ℕ)) (part : List ℕ) (seq bound : ℕ)
    → Continues (accept r segment) part seq bound
    → feed r (segment ∷ rest) ≡ feed (accept r segment).0 rest
unfolding feed
feed-more r segment rest part seq bound c = rw c.0 refl

feed-last :
    (r : Reassembler) (segment fragment : List ℕ)
    → (accept r segment).1.fragment ≡ some fragment
    → feed r (segment ∷ []) ≡ fragment ∷ []
unfolding feed
feed-last r segment fragment e = rw e refl

-- The last segment of a fragment whose part before `off` is held.
feed-end :
    (fuel : ℕ) (r : Reassembler) (fragment : List ℕ) (off seq bound : ℕ)
    → seq < 64
    → 0 < off
    → off ≤ length fragment
    → length fragment ≤ off + 249
    → length fragment ≤ bound
    → Carries r (take off fragment) seq bound
    → feed r (segment_loop (suc fuel) (running fragment off seq)).1 ≡ fragment ∷ []
feed-end fuel r fragment off seq bound s p l h b c =
    let part = take off fragment in
    let rest = drop off fragment in
    let fits : length part + length rest ≤ bound =
      omega (arith, length-take off fragment, length-drop off fragment) in
    rw (loop-last fuel fragment off seq l h, ==_positive off p)
      (feed-last r (segment false true seq rest) fragment (
        rw
          (
            accept-append r part rest true seq bound s c,
            append-last (counted r) false seq bound part rest (counted-Carries r part seq bound c)
                fits,
            take-append-drop off fragment,
          )
          refl))

-- The rest of a fragment, the part before `off` being held.
feed-rest :
    (n : ℕ) (r : Reassembler) (fragment : List ℕ) (off seq bound : ℕ)
    → seq < 64
    → 0 < off
    → off ≤ length fragment
    → length fragment ≤ off + 249 * (n + 1)
    → length fragment ≤ bound
    → Carries r (take off fragment) seq bound
    → feed r (segment_loop (suc (suc n)) (running fragment off seq)).1 ≡ fragment ∷ []
feed-rest zero r fragment off seq bound s p l h b c =
    feed-end 1 r fragment off seq bound s p l (omega arith) b c
feed-rest (suc n) r fragment off seq bound s p l h b c =
    elim (Bool-cases (ltb (off + 249) (length fragment))) [
      | inl e ↦
          let more = ltb→lt (off + 249) (length fragment) e in
          let part = take off fragment in
          let cut = take 249 (drop off fragment) in
          let fits : length part + length cut ≤ bound = omega (
            arith,
            length-take off fragment,
            length-take 249 (drop off fragment),
            length-drop off fragment,
          ) in
          let next = accept-more r part cut seq bound s c fits in
          let carried =
            subst (λ q. Carries (accept r (segment false false seq cut)).0 q ((seq + 1) % 64) bound)
              (take-add off 249 fragment) next.1 in
          rw
            (
              loop-more (suc (suc n)) fragment off seq more,
              ==_positive off p,
              feed-more r (segment false false seq cut) _ _ _ _ next,
            )
            (feed-rest n _ fragment (off + 249) ((seq + 1) % 64) bound (omega arith) (omega arith)
              (omega arith) (omega arith) b carried)
      | inr e ↦ feed-end (suc (suc n)) r fragment off seq bound s p l (ltb-false→le _ _ e) b c
    ]

-- A fragment of a single segment, at a reassembler in any state.
feed-only :
    (fuel : ℕ) (r : Reassembler) (fragment : List ℕ) (seq : ℕ)
    → seq < 64
    → length fragment ≤ 249
    → length fragment ≤ limit r
    → feed r (segment_loop (suc fuel) (running fragment 0 seq)).1 ≡ fragment ∷ []
unfolding limit
feed-only fuel r fragment seq s h b =
    let q = begun (counted r) seq in
    let start = begun-Carries (counted r) seq in
    let fits : 0 + length fragment ≤ limit r = omega arith in
    rw (loop-last fuel fragment 0 seq (omega arith) h) (
      feed-last r (segment true true seq fragment) fragment (
        rw
          (
            accept-start r fragment true seq s,
            append-last q true seq (limit (counted r)) [] fragment start fits,
          )
          refl))

-- The first segment of a fragment, at a reassembler in any state.
feed-first :
    (n : ℕ) (r : Reassembler) (fragment : List ℕ) (seq : ℕ)
    → seq < 64
    → length fragment ≤ 0 + 249 * (n + 1)
    → length fragment ≤ limit r
    → feed r (segment_loop (suc (suc n)) (running fragment 0 seq)).1 ≡ fragment ∷ []
unfolding limit
feed-first zero r fragment seq s h b = feed-only 1 r fragment seq s (omega arith) b
feed-first (suc n) r fragment seq s h b = elim (Bool-cases (ltb 249 (length fragment))) [
  | inl e ↦
      let more = ltb→lt 249 (length fragment) e in
      let cut = take 249 fragment in
      let start = begun-Carries (counted r) seq in
      let fits : 0 + length cut ≤ limit (counted r) = omega (arith, length-take 249 fragment) in
      let next : Continues (accept r (segment true false seq cut)) cut ((seq + 1) % 64) (limit r) =
        rw (accept-start r cut false seq s, accept-start-state r cut false seq s)
          (append-more (begun (counted r) seq) true seq (limit (counted r)) [] cut start fits) in
      rw
        (
          loop-more (suc (suc n)) fragment 0 seq more,
          feed-more r (segment true false seq cut) _ _ _ _ next,
        )
        (feed-rest n _ fragment 249 ((seq + 1) % 64) (limit r) (omega arith) (omega arith)
          (omega arith) (omega arith) b next.1)
  | inr e ↦ feed-only (suc (suc n)) r fragment seq s (ltb-false→le _ _ e) b
]

-- Round trip: the segments of a fragment no longer than the reassembler's limit, cut at any sequence
-- number below 64 and given in order to a reassembler in any state, deliver exactly that fragment,
-- once.
pub feed-segment_all :
    (r : Reassembler) (s : Segmenter) (fragment : List ℕ)
    → s.seq < 64
    → length fragment ≤ limit r
    → feed r (segment_all s fragment).1 ≡ fragment ∷ []
feed-segment_all r s fragment h b =
    let n = segments_for (length fragment) - 1 in
    rw (segment_all-loop s fragment)
      (feed-first n r fragment s.seq h (count-upper (length fragment)) b)
