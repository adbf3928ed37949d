-- ===== src/App/Qualifier/RoundTrip.antt =====
-- Ranges written and read back.
use go_dnp.Common.{
  ℕ, ◌+◌, ◌-◌, ◌≤◌, ◌<◌, true, ◌==◌, ◌||◌, if◌then◌else◌, zero, suc, List, [], ◌++◌, ok, ◌≡◌, ◌⊎◌,
  arith,
}
use go_dnp.App.Qualifier.{
  Range, is_start_stop, range_octets, range_fields, range_bounds, parse_range, append_range,
}

-- What the number of octets of a bound, or of the count, can hold.
abbrev pub field_limit : ℕ → ℕ
field_limit spec =
    if (spec == 0) || (spec == 3) || (spec == 7) || (spec == 11)
    then 256
    else if (spec == 1) || (spec == 4) || (spec == 8)
    then 65536
    else 4294967296

pub data IsRange (r : Range) : Type 0 where
  bounded :
      is_start_stop r.spec ≡ true
      → r.low ≤ r.stop
      → r.stop < field_limit r.spec
      → r.count ≡ r.stop - r.low + 1
      → r.count < 4294967296
      → IsRange r
  counted :
      (r.spec ≡ 7) ⊎ (r.spec ≡ 8) ⊎ (r.spec ≡ 9) ⊎ (r.spec ≡ 11)
      → r.low ≡ 0
      → r.stop ≡ 0
      → r.count < field_limit r.spec
      → IsRange r
  all : r.spec ≡ 6 → r.low ≡ 0 → r.stop ≡ 0 → r.count ≡ 0 → IsRange r

bounded_back :
    (spec low stop count : ℕ) (rest : List ℕ)
    → is_start_stop spec ≡ true
    → low ≤ stop
    → stop < field_limit spec
    → count ≡ stop - low + 1
    → count < 4294967296
    → (let r : Range = record { spec = spec; low = low; stop = stop; count = count } in
        parse_range spec (append_range [] r ++ rest) ≡ ok (r, range_octets spec))
unfolding parse_range append_range range_fields range_bounds range_octets is_start_stop
bounded_back zero low stop count rest s l b c m = ground arith
bounded_back (suc zero) low stop count rest s l b c m = ground arith
bounded_back (suc (suc zero)) low stop count rest s l b c m = ground arith
bounded_back (suc (suc (suc zero))) low stop count rest s l b c m = ground arith
bounded_back (suc (suc (suc (suc zero)))) low stop count rest s l b c m = ground arith
bounded_back (suc (suc (suc (suc (suc zero))))) low stop count rest s l b c m = ground arith
bounded_back (suc (suc (suc (suc (suc (suc n)))))) low stop count rest s l b c m =
    absurd (ground arith)

-- A range with bounds that fit its specifier and the count that they give, or a count that fits and no
-- bounds, or neither for all objects, is read back from the front of any buffer that starts with its
-- octets, with as many octets taken as the specifier says.
pub parse_range-append_range :
    (r : Range) (rest : List ℕ)
    → IsRange r
    → parse_range r.spec (append_range [] r ++ rest) ≡ ok (r, range_octets r.spec)
unfolding parse_range append_range range_fields range_bounds range_octets is_start_stop
parse_range-append_range r rest (bounded s l b c m) =
    bounded_back r.spec r.low r.stop r.count rest s l b c m
parse_range-append_range r rest (counted s l b c) = ground arith
parse_range-append_range r rest (all s l b c) = ground arith
