-- ===== src/App/Sizes.antt =====
-- The lookup of internal/app/sizes.go. The three generated tables of zz_generated_sizes.go are
-- arguments.
use go_dnp.Common.{ℕ, ◌+◌, ◌*◌, Bool, Option, none, some, if◌then◌else◌}

unfoldable pub gv : ℕ → ℕ → ℕ
gv group variation = group * 256 + variation

pub record SpecSizer : Type 0 where
  pub length_is_variation_groups : ℕ → Bool
  pub generated_sizes : ℕ → Option ℕ
  pub variable_groups : ℕ → Bool

unfoldable pub size_bits : SpecSizer → ℕ → ℕ → Option ℕ
size_bits s group variation =
    if s.length_is_variation_groups group
    then some (variation * 8)
    else elim (s.generated_sizes (gv group variation)) [
      | some bits ↦ some bits
      | none ↦ if s.variable_groups group then none else s.generated_sizes (gv group variation)
    ]

unfoldable pub known : SpecSizer → ℕ → ℕ → Bool
known s group variation = elim (size_bits s group variation) [
  | none ↦ Bool.false
  | some bits ↦ Bool.true
]
