-- ===== src/App/Qualifier/RangeBounds.antt =====
-- What a parsed range is known to satisfy, and the fields of a qualifier.
use go_dnp.Common.{ℕ, ◌+◌, ◌-◌, ◌*◌, ◌/◌, ◌≤◌, ◌<◌, true, false, List, length, ok, ◌≡◌, ◌⊎◌, arith}
use go_dnp.Common.Bits.{and_0x07, and_0x0f, and_0x80, or_high_nibble}
use go_dnp.App.Qualifier.{
  index_prefix, range_spec, reserved, make_qualifier, Range, is_start_stop, range_valid,
  range_octets, range_fields, range_bounds, parse_range,
}

make_qualifier-sum : (p r : ℕ) → p < 8 → r < 16 → make_qualifier p r ≡ p * 16 + r
unfolding make_qualifier
make_qualifier-sum p r h k = ground (arith, and_0x07 p, and_0x0f r, or_high_nibble p r)

-- A qualifier made of a prefix below 8 and a range specifier below 16 gives both back, and its
-- reserved bit is clear.
pub make_qualifier_lem :
    (p r : ℕ)
    → p < 8
    → r < 16
    → (index_prefix (make_qualifier p r) ≡ p)
      × (range_spec (make_qualifier p r) ≡ r)
      × (reserved (make_qualifier p r) ≡ false)
unfolding index_prefix range_spec reserved make_qualifier
make_qualifier_lem p r h k =
    let q = make_qualifier p r in
    ground (arith, make_qualifier-sum p r h k, and_0x07 (q / 16), and_0x0f q, and_0x80 q)

-- What is known of a range that was parsed.
pub record IsParsed (spec : ℕ) (buf : List ℕ) (r : Range) (n : ℕ) : Type 0 where
  pub same_spec : r.spec ≡ spec
  pub valid : range_valid spec ≡ true
  pub width : n ≡ range_octets spec
  pub enough : n ≤ length buf
  pub bounds :
      ((is_start_stop spec ≡ true) × (r.low ≤ r.stop) × (r.count ≡ r.stop - r.low + 1))
      ⊎ ((is_start_stop spec ≡ false) × (r.low ≡ 0) × (r.stop ≡ 0))

-- A range that is parsed, from any octets, has a specifier that the standard defines, takes as many
-- octets as the specifier says, which are there, and is either a start-stop range, with the stop not
-- below the start and the count that they give, or one without bounds.
pub parse_range-IsParsed :
    (spec : ℕ) (buf : List ℕ) (r : Range) (n : ℕ)
    → parse_range spec buf ≡ ok (r, n)
    → IsParsed spec buf r n
unfolding parse_range range_fields range_bounds range_octets is_start_stop range_valid
parse_range-IsParsed spec buf r n e = ground arith
