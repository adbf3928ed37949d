-- ===== src/Transport/Segmenter/Spec.antt =====
-- What one call of the segmenter emits, and how many calls a fragment takes.
use go_dnp.Common.{
  ℕ, zero, suc, ◌+◌, ◌-◌, ◌*◌, ◌%◌, ◌≤◌, ◌<◌, Bool, true, false, ◌==◌, List, [], ◌∷◌, ◌≡◌, refl, ap,
  length, ltb, ltb→lt, Bool-cases, ◌⊎◌, inl, inr, ltb-false→le, sym, subst, take, drop, length-take,
  length-drop, take-all, All, arith,
}
use go_dnp.Transport.Header.{header_byte}
use go_dnp.Transport.Segmenter.{Segmenter, segments_for, next, segment_loop, segment_all, reset}

abbrev pub running : List ℕ → ℕ → ℕ → Segmenter
running fragment off seq = record { frag = fragment; off = off; seq = seq; live = true }

abbrev pub finished : ℕ → ℕ → Segmenter
finished off seq = record { frag = []; off = off; seq = seq; live = false }

abbrev pub segment : Bool → Bool → ℕ → List ℕ → List ℕ
segment fir fin seq payload = header_byte (record { fir = fir; fin = fin; seq = seq }) ∷ payload

plus-sub : (n : ℕ) → n + 249 - n ≡ 249
plus-sub n = omega arith

pub next-last :
    (fragment : List ℕ) (off seq : ℕ)
    → off ≤ length fragment
    → length fragment ≤ off + 249
    → next (running fragment off seq) [] ≡ (
      finished (length fragment) ((seq + 1) % 64),
      segment (off == 0) true seq (drop off fragment),
      true,
    )
unfolding next
next-last fragment off seq l h =
    ground (arith, take-all (length fragment - off) (drop off fragment), length-drop off fragment)

pub next-more :
    (fragment : List ℕ) (off seq : ℕ)
    → off + 249 < length fragment
    → next (running fragment off seq) [] ≡ (
      running fragment (off + 249) ((seq + 1) % 64),
      segment (off == 0) false seq (take 249 (drop off fragment)),
      true,
    )
unfolding next
next-more fragment off seq h = ground (arith, ap (λ n. take n (drop off fragment)) (plus-sub off))

loop-finished : (fuel off seq : ℕ) → segment_loop fuel (finished off seq) ≡ (finished off seq, [])
unfolding segment_loop next
loop-finished zero off seq = refl
loop-finished (suc fuel) off seq = refl

-- The loop at a segmenter that has a fragment: the last segment, and one before it.
pub loop-last :
    (fuel : ℕ) (fragment : List ℕ) (off seq : ℕ)
    → off ≤ length fragment
    → length fragment ≤ off + 249
    → segment_loop (suc fuel) (running fragment off seq) ≡ (
      finished (length fragment) ((seq + 1) % 64),
      segment (off == 0) true seq (drop off fragment) ∷ [],
    )
unfolding segment_loop
loop-last fuel fragment off seq l h = rw (next-last fragment off seq l h, loop-finished fuel) refl

pub loop-more :
    (fuel : ℕ) (fragment : List ℕ) (off seq : ℕ)
    → off + 249 < length fragment
    → segment_loop (suc fuel) (running fragment off seq) ≡ (
        let rest = segment_loop fuel (running fragment (off + 249) ((seq + 1) % 64)) in
        (rest.0, segment (off == 0) false seq (take 249 (drop off fragment)) ∷ rest.1))
unfolding segment_loop
loop-more fuel fragment off seq h = rw (next-more fragment off seq h) refl

abbrev pub IsSegment : List ℕ → Type 0
IsSegment octets = 1 ≤ length octets × length octets ≤ 250

loop-All :
    (fuel : ℕ) (fragment : List ℕ) (off seq : ℕ)
    → off ≤ length fragment
    → All IsSegment (segment_loop fuel (running fragment off seq)).1
unfolding segment_loop
loop-All zero fragment off seq l = tt
loop-All (suc fuel) fragment off seq l = elim (Bool-cases (ltb (off + 249) (length fragment))) [
  | inl e ↦
      let h = ltb→lt (off + 249) (length fragment) e in
      rw (loop-more fuel fragment off seq h) (
        (omega arith, omega (arith, length-take 249 (drop off fragment))),
        loop-All fuel fragment (off + 249) ((seq + 1) % 64) (omega arith),
      )
  | inr e ↦
      let h = ltb-false→le (off + 249) (length fragment) e in
      rw (loop-last fuel fragment off seq l h)
        ((omega arith, omega (arith, length-drop off fragment)), tt)
]

-- How a run over `count` segments ends.
abbrev pub Ends : ℕ → List ℕ → ℕ → Segmenter × List (List ℕ) → Type 0
Ends count fragment seq run =
    length run.1 ≡ count × run.0 ≡ finished (length fragment) ((seq + count) % 64)

loop-Ends :
    (n : ℕ) (fragment : List ℕ) (off seq : ℕ)
    → off ≤ length fragment
    → length fragment ≤ off + 249 * (n + 1)
    → (off + 249 * n < length fragment) ⊎ (n ≡ 0)
    → Ends (suc n) fragment seq (segment_loop (suc (suc n)) (running fragment off seq))
loop-Ends zero fragment off seq l h m =
    rw (loop-last 1 fragment off seq l (omega arith)) (refl, refl)
loop-Ends (suc n) fragment off seq l h (inl m) =
    let rest =
      loop-Ends n fragment (off + 249) ((seq + 1) % 64) (omega arith) (omega arith)
        (inl (omega arith)) in
    rw (loop-more (suc (suc n)) fragment off seq (omega arith)) (ground (arith, rest))
loop-Ends (suc n) fragment off seq l h (inr m) = absurd (omega arith)

count : (len : ℕ) → segments_for len ≡ suc (segments_for len - 1)
unfolding segments_for
count len = ground arith

pub count-upper : (len : ℕ) → len ≤ 0 + 249 * (segments_for len - 1 + 1)
unfolding segments_for
count-upper len = ground arith

count-lower : (len : ℕ) → (0 + 249 * (segments_for len - 1) < len) ⊎ (segments_for len - 1 ≡ 0)
unfolding segments_for
count-lower len = ground arith

pub segment_all-loop :
    (s : Segmenter) (fragment : List ℕ)
    → (let rounds = segments_for (length fragment) - 1 in
        segment_all s fragment ≡ segment_loop (suc (suc rounds)) (running fragment 0 s.seq))
unfolding segment_all reset
segment_all-loop s fragment =
    let n = segments_for (length fragment) in
    let rounds : n + 1 ≡ suc (suc (n - 1)) = omega (arith, count (length fragment)) in
    ap (λ k. segment_loop k (running fragment 0 s.seq)) rounds

-- Segmenting a fragment of any length emits `segments_for` of its length segments, each of one to
-- 250 octets; the segmenter is then done, and its sequence number has moved on by that count modulo
-- 64.
pub segment_all_lem :
    (s : Segmenter) (fragment : List ℕ)
    → (let run = segment_all s fragment in
        All IsSegment run.1 × Ends (segments_for (length fragment)) fragment s.seq run)
segment_all_lem s fragment =
    let len = length fragment in
    let n = segments_for len - 1 in
    let ends = loop-Ends n fragment 0 s.seq (omega arith) (count-upper len) (count-lower len) in
    let run = segment_loop (suc (suc n)) (running fragment 0 s.seq) in
    rw (segment_all-loop s fragment) (
      loop-All (suc (suc n)) fragment 0 s.seq (omega arith),
      subst (λ c. Ends c fragment s.seq run) (sym (count len)) ends,
    )
