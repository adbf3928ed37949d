-- ===== src/App/FreeFormat.antt =====
-- Free format, internal/app/freeformat.go: objects that each stand behind a size.
pub mod RoundTrip
mod Tests
use go_dnp.Common.{
  ℕ, zero, suc, ◌+◌, ◌%◌, Bool, true, false, not, ltb, leb, if◌then◌else◌, List, [], ◌∷◌, ◌++◌,
  length, take, drop, le16, Result, ok, err, ◌>>=◌,
}
use go_dnp.App.Errors.{Error, truncated, object_too_long, not_free_format, no_object}
use go_dnp.App.Qualifier.{
  make_qualifier, prefix_size2, range_variable, index_prefix, is_size, prefix_octets,
}
use go_dnp.App.Object.{ObjectHeader, read_uint_le}

abbrev pub max_free_format_object : ℕ
max_free_format_object = 0xffff

unfoldable pub free_format_qualifier : ℕ
free_format_qualifier = make_qualifier prefix_size2 range_variable

unfoldable pub free_format : ℕ → ℕ → List ℕ → Result Error ObjectHeader
unfolding free_format_qualifier
free_format group variation object =
    if ltb max_free_format_object (length object)
    then err (object_too_long (length object))
    else ok (record {
      group = group;
      variation = variation;
      qualifier = free_format_qualifier;
      range = record { spec = range_variable; low = 0; stop = 0; count = 1 };
      payload = le16 (length object) ++ object;
      offset = 0;
      data_offset = 0;
    })

-- The loop over the data from the offset `off`, on fuel; each object takes its prefix at least, so an
-- object for each octet and one more are enough.
unfoldable pub split_objects : ℕ → ℕ → ℕ → List ℕ → Result Error (List (List ℕ))
split_objects width zero off octets = err truncated
split_objects width (suc fuel) off octets =
    let size = read_uint_le (drop off octets) width in
    let rest = split_objects width fuel (off + width + size) octets in
    if leb (length octets) off
    then ok []
    else if ltb (length octets) (off + width)
    then err truncated
    else if ltb (length octets) (off + width + size)
    then err truncated
    else (do later ← rest; ok (take size (drop (off + width) octets) ∷ later))

unfoldable pub free_format_objects : ObjectHeader → Result Error (List (List ℕ))
unfolding split_objects
free_format_objects h =
    let prefix = index_prefix h.qualifier in
    if not (is_size prefix)
    then err not_free_format
    else split_objects (prefix_octets prefix) (length h.payload + 1) 0 h.payload

abbrev pub first_or_none : List (List ℕ) → Result Error (List ℕ)
first_or_none [] = err no_object
first_or_none (o ∷ os) = ok o

unfoldable pub first_free_format_object : ObjectHeader → Result Error (List ℕ)
first_free_format_object h = do os ← free_format_objects h; first_or_none os
