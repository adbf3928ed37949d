-- ===== src/App/Object.antt =====
-- Object headers, internal/app/objheader.go. The sizer of the interface ObjectSizer is an argument: the
-- size in bits of an object of a group and variation, or none. A slice from an offset is `drop`. The
-- 64-bit totals do not wrap: a count is below 2 ^ 32 and a size below 2 ^ 16.
pub mod Walks
pub mod Extent
pub mod WriteBack
mod Tests
use go_dnp.Common.{
  ℕ, zero, suc, ◌+◌, ◌-◌, ◌*◌, ◌/◌, ◌%◌, Bool, true, false, not, ◌&&◌, ◌||◌, ltb, leb, ◌==◌, ◌!=◌,
  if◌then◌else◌, Option, none, some, List, [], ◌∷◌, ◌++◌, length, get_or, take, drop, read_le16,
  read_le32, Result, ok, err, ◌>>=◌,
}
use go_dnp.App.Errors.{Error, truncated, bad_qualifier, unknown_object}
use go_dnp.App.Qualifier.{
  Range, index_prefix, range_spec, reserved, prefix_octets, prefix_valid, is_index, is_size,
  is_count, range_octets, range_valid, range_all_objects, prefix_none, parse_range, append_range,
}

abbrev pub object_header_size : ℕ
object_header_size = 3

-- What follows the fixed part, its `Data`, is a list of octets.
pub record ObjectHeader : Type 0 where
  pub group : ℕ
  pub variation : ℕ
  pub qualifier : ℕ
  pub range : Range
  pub payload : List ℕ
  pub offset : ℕ
  pub data_offset : ℕ

unfoldable pub group_var : ObjectHeader → ℕ
group_var h = h.group * 256 + h.variation

unfoldable pub object_size : ObjectHeader → ℕ
object_size h = object_header_size + range_octets (range_spec h.qualifier) + length h.payload

unfoldable pub read_uint_le : List ℕ → ℕ → ℕ
read_uint_le buf width =
    if width == 1
    then get_or buf 0 0
    else if width == 2
    then read_le16 buf
    else if width == 4
    then read_le32 buf
    else 0

unfoldable pub check_fits : ℕ → List ℕ → Result Error ℕ
check_fits total buf = if ltb (length buf) total then err truncated else ok total

-- The loop of `walkAttributes` from the offset `off`.
unfoldable pub walk_attributes : ℕ → ℕ → List ℕ → Result Error ℕ
walk_attributes zero off buf = ok off
walk_attributes (suc count) off buf =
    let size = get_or (drop off buf) 1 0 in
    let rest = walk_attributes count (off + 2 + size) buf in
    if ltb (length buf) (off + 2)
    then err truncated
    else if ltb (length buf) (off + 2 + size)
    then err truncated
    else rest

unfoldable pub walk_size_prefixed : ℕ → ℕ → ℕ → List ℕ → Result Error ℕ
walk_size_prefixed width zero off buf = ok off
walk_size_prefixed width (suc count) off buf =
    let size = read_uint_le (drop off buf) width in
    let rest = walk_size_prefixed width count (off + width + size) buf in
    if ltb (length buf) (off + width)
    then err truncated
    else if ltb (length buf) (off + width + size)
    then err truncated
    else rest

-- The two loops over the objects of group 91 variation 1: a count of strings, each behind its length.
unfoldable pub walk_strings : ℕ → ℕ → List ℕ → Result Error ℕ
walk_strings zero off buf = ok off
walk_strings (suc count) off buf =
    let size = get_or (drop off buf) 0 0 in
    let rest = walk_strings count (off + (1 + size)) buf in
    if leb (length buf) off || (size == 0) || ltb (length buf - off) (size + 1)
    then err truncated
    else rest

unfoldable pub walk_activations : ℕ → ℕ → List ℕ → Result Error ℕ
walk_activations zero off buf = ok off
walk_activations (suc count) off buf = if ltb (length buf - off) 5 then err truncated else (do
  next ← walk_strings (get_or (drop off buf) 4 0) (off + 5) buf
  walk_activations count next buf)

-- The end of `objectDataLen`, for an object of a known size.
unfoldable pub sized_data_len : ℕ → ObjectHeader → List ℕ → Result Error ℕ
unfolding check_fits
sized_data_len bits h buf =
    let octets = prefix_octets (index_prefix h.qualifier) in
    if bits == 0
    then ok 0
    else if ltb bits 8
    then (if octets != 0
        then err (bad_qualifier h.qualifier)
        else check_fits ((h.range.count * bits + 7) / 8) buf)
    else if bits % 8 != 0
    then err (unknown_object h.group h.variation)
    else check_fits (h.range.count * (octets + bits / 8)) buf

-- How many octets of data follow the header, `buf` beginning where they do.
unfoldable pub object_data_len : (ℕ → ℕ → Option ℕ) → ObjectHeader → List ℕ → Bool → Result Error ℕ
unfolding check_fits
object_data_len sizer h buf carries_data =
    let prefix = index_prefix h.qualifier in
    let count = h.range.count in
    if is_size prefix && ltb 0 count && (h.variation != 0)
    then walk_size_prefixed (prefix_octets prefix) count 0 buf
    else if is_size prefix && ltb 0 count
    then err (bad_qualifier h.qualifier)
    else if not carries_data
    then (if is_index prefix && is_count h.range.spec
        then check_fits (count * prefix_octets prefix) buf
        else ok 0)
    else if h.variation == 0
    then ok 0
    else if h.range.spec == range_all_objects
    then ok 0
    else if count == 0
    then ok 0
    else if h.group == 0
    then walk_attributes count 0 buf
    else if (h.group == 91) && (h.variation == 1)
    then (if prefix != prefix_none
        then err (bad_qualifier h.qualifier)
        else walk_activations count 0 buf)
    else elim (sizer h.group h.variation) [
      | none ↦ err (unknown_object h.group h.variation)
      | some bits ↦ sized_data_len bits h buf
    ]

-- The header at the front of a buffer, which lies at `offset` in the fragment, and the octets taken.
unfoldable pub parse_object_header :
    (ℕ → ℕ → Option ℕ) → List ℕ → ℕ → Bool → Result Error (ObjectHeader × ℕ)
parse_object_header sizer buf offset carries_data =
    let q = get_or buf 2 0 in
    if ltb (length buf) object_header_size
    then err truncated
    else if reserved q
    then err (bad_qualifier q)
    else if not (prefix_valid (index_prefix q))
    then err (bad_qualifier (index_prefix q))
    else if not (range_valid (range_spec q))
    then err (bad_qualifier (range_spec q))
    else (do
      (range, range_len) ← parse_range (range_spec q) (drop object_header_size buf)
      let data_start = object_header_size + range_len
      let h : ObjectHeader = record {
        group = get_or buf 0 0;
        variation = get_or buf 1 0;
        qualifier = q;
        range = range;
        payload = [];
        offset = offset;
        data_offset = offset + data_start;
      }
      data_len ← object_data_len sizer h (drop data_start buf) carries_data
      ok (record h { payload = take data_len (drop data_start buf) }, data_start + data_len))

unfoldable pub append_object_header : List ℕ → ObjectHeader → List ℕ
append_object_header dst h =
    append_range (dst ++ (h.group % 256 ∷ h.variation % 256 ∷ h.qualifier % 256 ∷ [])) h.range
    ++ h.payload
