-- ===== src/Link/Frame/BlocksSound.antt =====
-- What the loop of `decode` over the blocks accepts.
use go_dnp.Common.{
  ℕ, zero, suc, ◌+◌, ◌-◌, ◌≤◌, ◌<◌, min, List, [], ◌∷◌, ◌++◌, length, take, drop, length-append,
  length-take, length-drop, append-nil, append_assoc, ltb, leb, true, Result, ok, ◌≡◌, refl, sym,
  ap, ◌∙◌, arith, take-all, drop-all, ap₂, ◌⊎◌, drop-drop, take-append-drop, Bool-cases, inl, inr,
  ltb→lt, leb→le,
}
use go_dnp.Link.Crc.{crc_valid}
use go_dnp.Link.Frame.{FrameError, body_size, decode_blocks}
use go_dnp.Link.Frame.Blocks.{crc_octets, body_octets, body_size_step, take-block, drop-block}

valid_tail :
    (block tail : List ℕ)
    → crc_valid block (take 2 tail) ≡ true
    → tail ≡ crc_octets block ++ drop 2 tail
unfolding crc_valid
valid_tail block [] e = cc
valid_tail block (c ∷ []) e = cc
valid_tail block (c ∷ d ∷ tail) e = ground arith

-- The rounds do not matter from the payload's length on.
body_octets_rounds :
    (k m : ℕ) (payload : List ℕ)
    → length payload ≤ k
    → length payload ≤ m
    → body_octets k payload ≡ body_octets m payload
unfolding body_octets
body_octets_rounds zero zero p h g = refl
body_octets_rounds zero (suc m) [] h g = refl
body_octets_rounds zero (suc m) (x ∷ xs) h g = absurd (omega arith)
body_octets_rounds (suc k) zero [] h g = refl
body_octets_rounds (suc k) zero (x ∷ xs) h g = absurd (omega arith)
body_octets_rounds (suc k) (suc m) [] h g = refl
body_octets_rounds (suc k) (suc m) (x ∷ xs) h g =
    let block = take 16 (x ∷ xs) in
    ap (λ t. block ++ (crc_octets block ++ t))
      (body_octets_rounds k m (drop 16 (x ∷ xs)) (omega (arith, length-drop 16 (x ∷ xs)))
        (omega (arith, length-drop 16 (x ∷ xs))))

empty_of_length : (xs : List ℕ) → length xs ≡ 0 → xs ≡ []
empty_of_length [] e = refl
empty_of_length (x ∷ xs) e = absurd (omega arith)

body_octets-block :
    (rounds : ℕ) (block rest : List ℕ)
    → 0 < length block
    → (length block ≡ 16) ⊎ ((rest ≡ []) × (length block ≤ 16))
    → body_octets (suc rounds) (block ++ rest)
      ≡ block ++ (crc_octets block ++ body_octets rounds rest)
unfolding body_octets
body_octets-block rounds [] rest h c = absurd (omega arith)
body_octets-block rounds (x ∷ xs) rest h (inl e) =
    ap₂ (λ s t. s ++ (crc_octets s ++ body_octets rounds t)) (take-block (x ∷ xs) rest {n = 16} e)
      (drop-block (x ∷ xs) rest {n = 16} e)
body_octets-block rounds (x ∷ xs) rest h (inr (e, le)) =
    rw (e, append-nil)
      (ap₂ (λ s t. s ++ (crc_octets s ++ body_octets rounds t)) (take-all 16 (x ∷ xs) le)
        (drop-all 16 (x ∷ xs) le))

decode_blocks-inv :
    (rounds total off : ℕ) (body out payload : List ℕ)
    → decode_blocks (suc rounds) total off body out ≡ ok payload
    → off < total
    → let n = min 16 (total - off) in
      (crc_valid (take n body) (take 2 (drop n body)) ≡ true)
      × (decode_blocks rounds total (off + 16) (drop (n + 2) body) (out ++ take n body)
          ≡ ok payload)
unfolding decode_blocks
decode_blocks-inv rounds total off body out payload e h = ground arith

decode_blocks-done :
    (rounds total off : ℕ) (body out payload : List ℕ)
    → decode_blocks (suc rounds) total off body out ≡ ok payload
    → total ≤ off
    → out ≡ payload
unfolding decode_blocks
decode_blocks-done rounds total off body out payload e h = ground arith

ok-injective : {a b : List ℕ} → ◌≡◌ {A = Result FrameError (List ℕ)} (ok a) (ok b) → a ≡ b
ok-injective e = cc

pub record Blocks (rounds left : ℕ) (body out payload : List ℕ) : Type 0 where
  pub tail : List ℕ
  pub joined : payload ≡ out ++ tail
  pub counted : length tail ≡ left
  pub written : body ≡ body_octets rounds tail

body_octets-nil : (rounds : ℕ) → body_octets rounds [] ≡ []
unfolding body_octets
body_octets-nil zero = refl
body_octets-nil (suc rounds) = refl

nothing_left :
    (rounds left : ℕ) (body out payload : List ℕ)
    → out ≡ payload
    → left ≡ 0
    → length body ≡ body_size left
    → Blocks rounds left body out payload
nothing_left rounds left body out payload e l h = record {
  tail = [];
  joined = sym e ∙ sym (append-nil out);
  counted = sym l;
  written =
      empty_of_length body (h ∙ ap body_size l ∙ unfold body_size in refl)
      ∙ sym (body_octets-nil rounds);
}

rounded : (total off : ℕ) → total - off - 16 ≡ total - (off + 16)
rounded total off = omega arith

one_block :
    (rounds total off : ℕ) (body out payload : List ℕ)
    → off < total
    → length body ≡ body_size (total - off)
    → let n = min 16 (total - off) in
      crc_valid (take n body) (take 2 (drop n body)) ≡ true
      → Blocks rounds (total - (off + 16)) (drop (n + 2) body) (out ++ take n body) payload
      → Blocks (suc rounds) (total - off) body out payload
one_block rounds total off body out payload lt size valid rest = record {
  tail = block ++ rest.tail;
  joined = rest.joined ∙ append_assoc out block rest.tail;
  counted = omega (arith, length-append block rest.tail, rest.counted, counted_block);
  written =
      sym (take-append-drop n body)
      ∙ ap (block ++◌) (valid_tail block (drop n body) valid)
      ∙ ap (λ t. block ++ (crc_octets block ++ t)) (drop-drop n 2 body ∙ rest.written)
      ∙ sym (body_octets-block rounds block rest.tail (omega (arith, counted_block)) last);
}
  where
    n : ℕ
    n = min 16 (total - off)

    block : List ℕ
    block = take (min 16 (total - off)) body

    counted_block : length block ≡ min 16 (total - off)
    counted_block =
        omega (
          arith,
          length-take (min 16 (total - off)) body,
          body_size_step (total - off) (omega arith),
        )

    last : (length block ≡ 16) ⊎ ((rest.tail ≡ []) × (length block ≤ 16))
    last = elim (Bool-cases (leb 16 (total - off))) [
      | inl e ↦ inl (omega (arith, counted_block, leb→le 16 (total - off) e))
      | inr e ↦
          inr
            (empty_of_length rest.tail (rest.counted ∙ ground arith), omega (arith, counted_block))
    ]

pub decode_blocks-Blocks :
    (rounds total off : ℕ) (body out payload : List ℕ)
    → decode_blocks rounds total off body out ≡ ok payload
    → total - off ≤ rounds
    → length body ≡ body_size (total - off)
    → Blocks rounds (total - off) body out payload
decode_blocks-Blocks zero total off body out payload e r h =
    nothing_left zero (total - off) body out payload (ok-injective (unfold decode_blocks in e))
      (omega arith) h
decode_blocks-Blocks (suc rounds) total off body out payload e r h =
    elim (Bool-cases (ltb off total)) [
      | inl more ↦
          let (valid, e') =
            decode_blocks-inv rounds total off body out payload e (ltb→lt off total more) in
          one_block rounds total off body out payload (ltb→lt off total more) h valid (
            decode_blocks-Blocks rounds total (off + 16) _ _ payload e' (omega arith) (
              omega (
                arith,
                length-drop (min 16 (total - off) + 2) body,
                body_size_step (total - off) (omega (arith, ltb→lt off total more)),
                ap body_size (rounded total off),
              )))
      | inr done ↦
          nothing_left (suc rounds) (total - off) body out payload
            (decode_blocks-done rounds total off body out payload e (ground arith)) (ground arith) h
    ]
