-- ===== src/App/Object/Walks.antt =====
-- A walk over objects that say their own size ends inside the buffer.
use go_dnp.Common.{
  ℕ, zero, suc, ◌+◌, ◌≤◌, List, length, get_or, drop, ok, Result-cases, ◌≡◌, inl, inr, arith,
}
use go_dnp.App.Object.{
  walk_attributes, walk_size_prefixed, walk_strings, walk_activations, read_uint_le, check_fits,
}

-- Where a walk that began at `off` may end.
abbrev pub Within : ℕ → List ℕ → ℕ → Type 0
Within off buf n = off ≤ n × n ≤ length buf

pub walk_attributes-Within :
    (count off : ℕ) (buf : List ℕ) (n : ℕ)
    → off ≤ length buf
    → walk_attributes count off buf ≡ ok n
    → Within off buf n
unfolding walk_attributes
walk_attributes-Within zero off buf n l e = ground arith
walk_attributes-Within (suc count) off buf n l e =
    ground (arith, walk_attributes-Within count (off + 2 + get_or (drop off buf) 1 0) buf n)

pub walk_size_prefixed-Within :
    (width count off : ℕ) (buf : List ℕ) (n : ℕ)
    → off ≤ length buf
    → walk_size_prefixed width count off buf ≡ ok n
    → Within off buf n
unfolding walk_size_prefixed
walk_size_prefixed-Within width zero off buf n l e = ground arith
walk_size_prefixed-Within width (suc count) off buf n l e = ground (
  arith,
  walk_size_prefixed-Within width count (off + width + read_uint_le (drop off buf) width) buf n,
)

walk_strings-Within :
    (count off : ℕ) (buf : List ℕ) (n : ℕ)
    → off ≤ length buf
    → walk_strings count off buf ≡ ok n
    → Within off buf n
unfolding walk_strings
walk_strings-Within zero off buf n l e = ground arith
walk_strings-Within (suc count) off buf n l e =
    ground (arith, walk_strings-Within count (off + (1 + get_or (drop off buf) 0 0)) buf n)

pub walk_activations-Within :
    (count off : ℕ) (buf : List ℕ) (n : ℕ)
    → off ≤ length buf
    → walk_activations count off buf ≡ ok n
    → Within off buf n
unfolding walk_activations
walk_activations-Within zero off buf n l e = ground arith
walk_activations-Within (suc count) off buf n l e =
    let strings = walk_strings (get_or (drop off buf) 4 0) (off + 5) buf in
    elim (Result-cases strings) [
      | inl (next, f) ↦ ground (
        arith,
        f,
        walk_strings-Within (get_or (drop off buf) 4 0) (off + 5) buf next,
        walk_activations-Within count next buf n,
      )
      | inr (x, f) ↦ ground (arith, f)
    ]

pub check_fits-le :
    (total : ℕ) (buf : List ℕ) (n : ℕ) → check_fits total buf ≡ ok n → n ≤ length buf
unfolding check_fits
check_fits-le total buf n e = ground arith
