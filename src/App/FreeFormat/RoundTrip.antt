-- ===== src/App/FreeFormat/RoundTrip.antt =====
-- An object in free format is found again, by the reader of free format and by the parser.
use go_dnp.Common.{
  ℕ, suc, ◌+◌, ◌/◌, ◌%◌, ◌≤◌, ◌<◌, Bool, Option, List, [], ◌∷◌, ◌++◌, length, length-append, take,
  take-length, take-all, ok, ◌≡◌, ap, sym, subst, ◌∙◌, arith,
}
use go_dnp.Common.Bits.{IsByte}
use go_dnp.App.Qualifier.{
  index_prefix, range_spec, reserved, is_size, prefix_octets, prefix_valid, range_valid,
  make_qualifier, parse_range, range_octets, range_fields, range_bounds, append_range,
  is_start_stop,
}
use go_dnp.App.Object.{
  ObjectHeader, read_uint_le, walk_size_prefixed, object_data_len, parse_object_header,
  append_object_header,
}
use go_dnp.App.FreeFormat.{free_format, split_objects, free_format_objects}

-- The header that `free_format` makes.
abbrev pub free_header : ℕ → ℕ → List ℕ → ObjectHeader
free_header group variation object = record {
  group = group;
  variation = variation;
  qualifier = 0x5b;
  range = record { spec = 11; low = 0; stop = 0; count = 1 };
  payload = length object % 256 ∷ length object / 256 % 256 ∷ object;
  offset = 0;
  data_offset = 0;
}

-- What is known of a header that `free_format` made.
free_format-inv :
    (group variation : ℕ) (object : List ℕ) (h : ObjectHeader)
    → free_format group variation object ≡ ok h
    → (length object < 65536) × (h ≡ free_header group variation object)
unfolding free_format make_qualifier
free_format-inv group variation object h e = (ground arith, ground arith)

split_end :
    (fuel : ℕ) (off : ℕ) (octets : List ℕ)
    → length octets ≤ off
    → split_objects 2 (suc fuel) off octets ≡ ok []
unfolding split_objects
split_end fuel off octets h = ground arith

free_header-objects :
    (group variation : ℕ) (object : List ℕ)
    → length object < 65536
    → free_format_objects (free_header group variation object) ≡ ok (object ∷ [])
unfolding free_format_objects split_objects read_uint_le is_size index_prefix prefix_octets
free_header-objects group variation object h = ground (
  arith,
  split_end (length object + 1) (0 + 2 + length object)
      (length object % 256 ∷ length object / 256 % 256 ∷ object),
  take-all (length object) object,
)

-- Whatever object is put in free format is given back by the reader of free format, alone.
pub free_format_objects-free_format :
    (group variation : ℕ) (object : List ℕ) (h : ObjectHeader)
    → free_format group variation object ≡ ok h
    → free_format_objects h ≡ ok (object ∷ [])
free_format_objects-free_format group variation object h e =
    let (fits, made) = free_format-inv group variation object h e in
    ap free_format_objects made ∙ free_header-objects group variation object fits

walk_one :
    (object rest : List ℕ)
    → length object < 65536
    → walk_size_prefixed 2 1 0 (length object % 256 ∷ length object / 256 % 256 ∷ (object ++ rest))
      ≡ ok (2 + length object)
unfolding walk_size_prefixed read_uint_le
walk_one object rest h = ground (arith, length-append object rest)

take_two : (n : ℕ) (a b : ℕ) (xs : List ℕ) → take (2 + n) (a ∷ b ∷ xs) ≡ a ∷ b ∷ take n xs
take_two n a b xs = ap (λ k. take k (a ∷ b ∷ xs)) two
  where
    two : 2 + n ≡ suc (suc n)
    two = omega arith

parse_free_header :
    (sizer : ℕ → ℕ → Option ℕ) (group variation : ℕ) (object rest : List ℕ) (carries : Bool)
    → IsByte group
    → IsByte variation
    → 0 < variation
    → length object < 65536
    → (let h = free_header group variation object in
        parse_object_header sizer (append_object_header [] h ++ rest) 0 carries
        ≡ ok (record h { data_offset = 4 }, length (append_object_header [] h)))
unfolding parse_object_header append_object_header parse_range range_octets range_fields
    range_bounds append_range object_data_len is_size index_prefix range_spec reserved prefix_valid
    range_valid prefix_octets is_start_stop
parse_free_header sizer group variation object rest carries g v p fits =
    let lo = length object % 256 in
    let hi = length object / 256 % 256 in
    ground (
      arith,
      walk_one object rest fits,
      take_two (length object) lo hi (object ++ rest),
      take-length object rest,
    )

-- Whatever object is put in free format, under a variation other than zero and with data to follow or
-- not, is found by the parser at the front of any buffer that starts with the header's octets, which are
-- the ones it takes.
pub parse-free_format :
    (sizer : ℕ → ℕ → Option ℕ) (group variation : ℕ) (object rest : List ℕ) (carries : Bool)
    (h : ObjectHeader)
    → IsByte group
    → IsByte variation
    → 0 < variation
    → free_format group variation object ≡ ok h
    → parse_object_header sizer (append_object_header [] h ++ rest) 0 carries
      ≡ ok (record h { data_offset = 4 }, length (append_object_header [] h))
parse-free_format sizer group variation object rest carries h g v p e =
    let (fits, made) = free_format-inv group variation object h e in
    subst
      (λ x.
        parse_object_header sizer (append_object_header [] x ++ rest) 0 carries
        ≡ ok (record x { data_offset = 4 }, length (append_object_header [] x)))
      (sym made) (parse_free_header sizer group variation object rest carries g v p fits)
