-- ===== src/App/Object/Tests.antt =====
-- The points 3 to 5 of group 1 variation 2, an octet each.
use go_dnp.Common.{ℕ, true, Option, some, List, [], ◌∷◌, All, ok, ◌≡◌, refl, arith, take}
use go_dnp.Common.Bits.{IsByte}
use go_dnp.App.Qualifier.{
  index_prefix, range_spec, reserved, prefix_octets, prefix_valid, is_size, range_octets,
  range_valid, parse_range, range_fields, range_bounds, is_start_stop,
}
use go_dnp.App.Object.{
  ObjectHeader, check_fits, sized_data_len, object_data_len, parse_object_header,
  append_object_header,
}
use go_dnp.App.Object.Extent.{IsObject, parse_object_header-IsObject}
use go_dnp.App.Object.WriteBack.{append_object_header-parse_object_header}

abbrev octet_sizer : ℕ → ℕ → Option ℕ
octet_sizer group variation = some 8

abbrev message : List ℕ
message = 1 ∷ 2 ∷ 0 ∷ 3 ∷ 5 ∷ 0x81 ∷ 0x81 ∷ 0x01 ∷ 9 ∷ []

message-octets : All IsByte message
message-octets = (
  omega arith,
  (
    omega arith,
    (
      omega arith,
      (omega arith, (omega arith, (omega arith, (omega arith, (omega arith, (omega arith, _)))))),
    ),
  ),
)

abbrev points : ObjectHeader
points = record {
  group = 1;
  variation = 2;
  qualifier = 0;
  range = record { spec = 0; low = 3; stop = 5; count = 3 };
  payload = 0x81 ∷ 0x81 ∷ 0x01 ∷ [];
  offset = 2;
  data_offset = 7;
}

parsed : parse_object_header octet_sizer message 2 true ≡ ok (points, 8)
unfolding parse_object_header object_data_len sized_data_len check_fits index_prefix range_spec
    reserved prefix_octets prefix_valid is_size range_octets range_valid parse_range range_fields
    range_bounds is_start_stop
parsed = refl

parse_object_header-IsObject_example : IsObject message 2 points 8
parse_object_header-IsObject_example =
    parse_object_header-IsObject octet_sizer message 2 true points 8 parsed

append_object_header-parse_object_header_example : append_object_header [] points ≡ take 8 message
append_object_header-parse_object_header_example =
    append_object_header-parse_object_header octet_sizer message 2 true points 8 message-octets
      parsed
