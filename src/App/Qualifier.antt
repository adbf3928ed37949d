-- ===== src/App/Qualifier.antt =====
-- Qualifiers and range fields, internal/app/qualifier.go. A prefix, a range specifier and a qualifier are
-- octets.
pub mod RangeBounds
pub mod RoundTrip
pub mod WriteBack
mod Tests
use go_dnp.Common.{
  ℕ, ◌+◌, ◌-◌, ◌*◌, ◌/◌, ◌%◌, bit_and, bit_or, Bool, true, false, not, ◌&&◌, ◌||◌, ltb, leb, ◌==◌,
  ◌!=◌, if◌then◌else◌, List, [], ◌∷◌, ◌++◌, length, get_or, drop, le16, le32, read_le16, read_le32,
  Result, ok, err, ◌>>=◌,
}
use go_dnp.App.Errors.{Error, truncated, bad_qualifier, stop_below_start, too_many}

abbrev pub prefix_none : ℕ
prefix_none = 0

abbrev pub prefix_index1 : ℕ
prefix_index1 = 1

abbrev pub prefix_index2 : ℕ
prefix_index2 = 2

abbrev pub prefix_index4 : ℕ
prefix_index4 = 3

abbrev pub prefix_size1 : ℕ
prefix_size1 = 4

abbrev pub prefix_size2 : ℕ
prefix_size2 = 5

abbrev pub prefix_size4 : ℕ
prefix_size4 = 6

abbrev pub prefix_reserved : ℕ
prefix_reserved = 7

abbrev pub range_start_stop8 : ℕ
range_start_stop8 = 0

abbrev pub range_start_stop16 : ℕ
range_start_stop16 = 1

abbrev pub range_start_stop32 : ℕ
range_start_stop32 = 2

abbrev pub range_virtual8 : ℕ
range_virtual8 = 3

abbrev pub range_virtual16 : ℕ
range_virtual16 = 4

abbrev pub range_virtual32 : ℕ
range_virtual32 = 5

abbrev pub range_all_objects : ℕ
range_all_objects = 6

abbrev pub range_count8 : ℕ
range_count8 = 7

abbrev pub range_count16 : ℕ
range_count16 = 8

abbrev pub range_count32 : ℕ
range_count32 = 9

abbrev pub range_reserved_a : ℕ
range_reserved_a = 10

abbrev pub range_variable : ℕ
range_variable = 11

unfoldable pub index_prefix : ℕ → ℕ
index_prefix q = bit_and (q / 16) 0x07

unfoldable pub range_spec : ℕ → ℕ
range_spec q = bit_and q 0x0f

unfoldable pub reserved : ℕ → Bool
reserved q = bit_and q 0x80 != 0

unfoldable pub make_qualifier : ℕ → ℕ → ℕ
make_qualifier p r = bit_or (bit_and p 0x07 * 16 % 256) (bit_and r 0x0f)

-- The methods of IndexPrefix.
unfoldable pub prefix_octets : ℕ → ℕ
prefix_octets p =
    if (p == prefix_index1) || (p == prefix_size1)
    then 1
    else if (p == prefix_index2) || (p == prefix_size2)
    then 2
    else if (p == prefix_index4) || (p == prefix_size4)
    then 4
    else 0

unfoldable pub is_index : ℕ → Bool
is_index p = (p == prefix_index1) || (p == prefix_index2) || (p == prefix_index4)

unfoldable pub is_size : ℕ → Bool
is_size p = (p == prefix_size1) || (p == prefix_size2) || (p == prefix_size4)

unfoldable pub prefix_valid : ℕ → Bool
prefix_valid p = leb p prefix_size4

-- The methods of RangeSpec.
unfoldable pub range_octets : ℕ → ℕ
range_octets r =
    if (r == range_start_stop8) || (r == range_virtual8)
    then 2
    else if (r == range_start_stop16) || (r == range_virtual16)
    then 4
    else if (r == range_start_stop32) || (r == range_virtual32)
    then 8
    else if r == range_all_objects
    then 0
    else if (r == range_count8) || (r == range_variable)
    then 1
    else if r == range_count16
    then 2
    else if r == range_count32
    then 4
    else 0

unfoldable pub is_start_stop : ℕ → Bool
is_start_stop r = leb r range_virtual32

unfoldable pub is_count : ℕ → Bool
is_count r =
    (r == range_count8) || (r == range_count16) || (r == range_count32) || (r == range_variable)

unfoldable pub range_valid : ℕ → Bool
range_valid r = leb r range_count32 || (r == range_variable)

unfoldable pub consistent : ℕ → Bool
unfolding reserved prefix_valid range_valid is_index is_size
consistent q =
    let p = index_prefix q in
    let r = range_spec q in
    if reserved q || not (prefix_valid p) || not (range_valid r)
    then false
    else if is_index p
    then (r == range_count8) || (r == range_count16) || (r == range_count32)
    else if is_size p
    then r == range_variable
    else r != range_variable

pub record Range : Type 0 where
  pub spec : ℕ
  pub low : ℕ  -- Start
  pub stop : ℕ
  pub count : ℕ

-- The switch of `parseRange`.
unfoldable pub range_fields : ℕ → List ℕ → Result Error Range
range_fields spec buf =
    let bounds : ℕ → ℕ → Result Error Range =
      λ a b. ok (record { spec = spec; low = a; stop = b; count = 0 }) in
    let counted : ℕ → Result Error Range =
      λ n. ok (record { spec = spec; low = 0; stop = 0; count = n }) in
    if (spec == range_start_stop8) || (spec == range_virtual8)
    then bounds (get_or buf 0 0) (get_or buf 1 0)
    else if (spec == range_start_stop16) || (spec == range_virtual16)
    then bounds (read_le16 buf) (read_le16 (drop 2 buf))
    else if (spec == range_start_stop32) || (spec == range_virtual32)
    then bounds (read_le32 buf) (read_le32 (drop 4 buf))
    else if (spec == range_count8) || (spec == range_variable)
    then counted (get_or buf 0 0)
    else if spec == range_count16
    then counted (read_le16 buf)
    else if spec == range_count32
    then counted (read_le32 buf)
    else err (bad_qualifier spec)

-- The check of the bounds, and the count that they give.
unfoldable pub range_bounds : Range → Result Error Range
range_bounds r =
    let n = r.stop - r.low + 1 in
    if not (is_start_stop r.spec)
    then ok r
    else if ltb r.stop r.low
    then err (stop_below_start r.stop r.low)
    else if ltb 0xffffffff n
    then err (too_many n)
    else ok (record r { count = n })

unfoldable pub parse_range : ℕ → List ℕ → Result Error (Range × ℕ)
parse_range spec buf =
    let n = range_octets spec in
    if ltb (length buf) n
    then err truncated
    else if spec == range_all_objects
    then ok (record { spec = spec; low = 0; stop = 0; count = 0 }, 0)
    else (do r ← range_fields spec buf; r' ← range_bounds r; ok (r', n))

unfoldable pub append_range : List ℕ → Range → List ℕ
append_range dst r =
    if r.spec == range_all_objects
    then dst
    else if (r.spec == range_start_stop8) || (r.spec == range_virtual8)
    then dst ++ (r.low % 256 ∷ r.stop % 256 ∷ [])
    else if (r.spec == range_start_stop16) || (r.spec == range_virtual16)
    then (dst ++ le16 r.low) ++ le16 r.stop
    else if (r.spec == range_start_stop32) || (r.spec == range_virtual32)
    then (dst ++ le32 r.low) ++ le32 r.stop
    else if (r.spec == range_count8) || (r.spec == range_variable)
    then dst ++ (r.count % 256 ∷ [])
    else if r.spec == range_count16
    then dst ++ le16 r.count
    else if r.spec == range_count32
    then dst ++ le32 r.count
    else dst
