-- ===== src/Link/Frame/Blocks.antt =====
-- The body of a frame on the wire: each block of the payload with its CRC behind it.
use go_dnp.Common.{
  ℕ, zero, suc, ◌+◌, ◌-◌, ◌/◌, ◌%◌, ◌≤◌, ◌<◌, min, List, [], ◌∷◌, ◌++◌, length, take, drop,
  take-length, drop-length, length-append, length-take, length-drop, take-append-drop, append-nil,
  append_assoc, ==_refl, lt→ltb, le→ltb-false, true, ok, ◌≡◌, refl, sym, ap, ◌∙◌, arith,
}
use go_dnp.Link.Crc.{crc, crc_valid, append_crc}
use go_dnp.Link.Frame.{body_size, append_blocks, decode_blocks}

abbrev pub crc_octets : List ℕ → List ℕ
crc_octets octets = crc octets % 256 ∷ crc octets / 256 % 256 ∷ []

pub append_crc_lem : (dst octets : List ℕ) → append_crc dst octets ≡ dst ++ crc_octets octets
unfolding append_crc
append_crc_lem dst octets = refl

pub crc_valid-crc_octets :
    (octets rest : List ℕ) → crc_valid octets (crc_octets octets ++ rest) ≡ true
unfolding crc_valid
crc_valid-crc_octets octets rest = rw (==_refl (crc octets % 256), ==_refl (crc octets / 256 % 256))

unfoldable pub body_octets : ℕ → List ℕ → List ℕ
body_octets zero payload = []
body_octets (suc rounds) [] = []
body_octets (suc rounds) (x ∷ xs) =
    take 16 (x ∷ xs) ++ (crc_octets (take 16 (x ∷ xs)) ++ body_octets rounds (drop 16 (x ∷ xs)))

pub append_blocks-body :
    (rounds : ℕ) (dst payload : List ℕ)
    → append_blocks rounds dst payload ≡ dst ++ body_octets rounds payload
unfolding append_blocks body_octets
append_blocks-body zero dst payload = sym (append-nil dst)
append_blocks-body (suc rounds) dst [] = sym (append-nil dst)
append_blocks-body (suc rounds) dst (x ∷ xs) =
    let block = take 16 (x ∷ xs) in
    let rest = drop 16 (x ∷ xs) in
    append_blocks-body rounds (append_crc (dst ++ block) block) rest
    ∙ ap (λ t. t ++ body_octets rounds rest) (append_crc_lem (dst ++ block) block)
    ∙ append_assoc (dst ++ block) (crc_octets block) (body_octets rounds rest)
    ∙ append_assoc dst block (crc_octets block ++ body_octets rounds rest)

pub body_size_step : (n : ℕ) → 0 < n → body_size n ≡ min 16 n + 2 + body_size (n - 16)
unfolding body_size
body_size_step n h = ground arith

length_block :
    (payload rest : List ℕ)
    → length (take 16 payload ++ (crc_octets (take 16 payload) ++ rest))
      ≡ min 16 (length payload) + 2 + length rest
length_block payload rest = omega (
  arith,
  length-append (take 16 payload) (crc_octets (take 16 payload) ++ rest),
  length-take 16 payload,
)

-- With a round for each octet at least, the body takes the octets that `body_size` counts.
pub length-body_octets :
    (rounds : ℕ) (payload : List ℕ)
    → length payload ≤ rounds
    → length (body_octets rounds payload) ≡ body_size (length payload)
unfolding body_octets
length-body_octets zero [] h = unfold body_size in refl
length-body_octets zero (x ∷ xs) h = absurd (omega arith)
length-body_octets (suc rounds) [] h = unfold body_size in refl
length-body_octets (suc rounds) (x ∷ xs) h = omega (
  arith,
  length_block (x ∷ xs) (body_octets rounds (drop 16 (x ∷ xs))),
  length-body_octets rounds (drop 16 (x ∷ xs)) (omega (arith, length-drop 16 (x ∷ xs))),
  length-drop 16 (x ∷ xs),
  body_size_step (length (x ∷ xs)),
  ap body_size (length-drop 16 (x ∷ xs)),
)

-- A cut behind the first `n` octets.
module _ (block rest : List ℕ) {n : ℕ} (e : length block ≡ n) where
  pub take-block : take n (block ++ rest) ≡ block
  take-block = rw (← e) (take-length block rest)

  pub drop-block : drop n (block ++ rest) ≡ rest
  drop-block = rw (← e) (drop-length block rest)

-- One round of the loop, on a block with its CRC.
decode_blocks-block :
    (rounds total off : ℕ) (block rest out : List ℕ)
    → off < total
    → length block ≡ min 16 (total - off)
    → decode_blocks (suc rounds) total off (block ++ (crc_octets block ++ rest)) out
      ≡ decode_blocks rounds total (off + 16) rest (out ++ block)
unfolding decode_blocks
decode_blocks-block rounds total off block rest out h e =
    let tail = crc_octets block ++ rest in
    let whole : (block ++ crc_octets block) ++ rest ≡ block ++ tail =
      append_assoc block (crc_octets block) rest in
    rw (
      take-block block tail e,
      drop-block block tail e,
      lt→ltb off total h,
      crc_valid-crc_octets block [],
      ← whole,
      drop-block (block ++ crc_octets block) rest {n = min 16 (total - off) + 2}
          (omega (arith, length-append block (crc_octets block))),
    )

pub decode_blocks-body :
    (rounds total off : ℕ) (payload out : List ℕ)
    → total - off ≡ length payload
    → length payload ≤ rounds
    → decode_blocks rounds total off (body_octets rounds payload) out ≡ ok (out ++ payload)
unfolding body_octets
decode_blocks-body zero total off [] out e h = unfold decode_blocks in ap ok (sym (append-nil out))
decode_blocks-body zero total off (x ∷ xs) out e h = absurd (omega arith)
decode_blocks-body (suc rounds) total off [] out e h =
    unfold decode_blocks in rw (le→ltb-false off total (omega arith), append-nil)
decode_blocks-body (suc rounds) total off (x ∷ xs) out e h =
    let block = take 16 (x ∷ xs) in
    let rest = drop 16 (x ∷ xs) in
    decode_blocks-block rounds total off block (body_octets rounds rest) out (omega arith)
      (omega (arith, length-take 16 (x ∷ xs)))
    ∙ decode_blocks-body rounds total (off + 16) rest (out ++ block)
        (omega (arith, length-drop 16 (x ∷ xs))) (omega (arith, length-drop 16 (x ∷ xs)))
    ∙ ap ok (append_assoc out block rest ∙ ap (out ++◌) (take-append-drop 16 (x ∷ xs)))
