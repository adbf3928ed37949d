-- ===== src/App/Fragment/Tests.antt =====
-- A request to read all objects of class 1, and the same request cut short.
use go_dnp.Common.{ℕ, true, false, Option, some, List, [], ◌∷◌, ok, All, ◌≡◌, refl, arith}
use go_dnp.Common.Bits.{IsByte}
use go_dnp.App.FuncCode.{carries_object_data}
use go_dnp.App.FuncCode
use go_dnp.App.Header.{Header, is_response, parse_header, parse_control, append_header}
use go_dnp.App.Qualifier.{
  index_prefix, range_spec, reserved, prefix_octets, prefix_valid, is_index, is_size, is_count,
  range_octets, range_valid, parse_range, range_fields, range_bounds, is_start_stop,
}
use go_dnp.App.Object.{object_data_len, parse_object_header}
use go_dnp.App.Fragment.{
  nil, object_carries_data, after_object, parse_objects, parse_fragment, append_objects, Builder,
}
use go_dnp.App.Fragment.WriteBack.{Written, parse_fragment-Written, build-parse_fragment}

abbrev octet_sizer : ℕ → ℕ → Option ℕ
octet_sizer group variation = some 8

abbrev request : List ℕ
request = 0xc1 ∷ 0x01 ∷ 0x3c ∷ 0x02 ∷ 0x06 ∷ []

request-octets : All IsByte request
request-octets = (omega arith, (omega arith, (omega arith, (omega arith, (omega arith, _)))))

abbrev short_request : List ℕ
short_request = 0xc1 ∷ 0x01 ∷ 0x3c ∷ 0x02 ∷ 0x06 ∷ 0x3c ∷ []

short_request-octets : All IsByte short_request
short_request-octets =
    (omega arith, (omega arith, (omega arith, (omega arith, (omega arith, (omega arith, _))))))

abbrev read_header : Header
read_header = record {
  control = record { fir = true; fin = true; con = false; uns = false; seq = 1 };
  func = 1;
  iin = 0;
}

read : parse_header short_request ≡ ok (read_header, 2)
unfolding parse_header is_response parse_control FuncCode.is_response
read = refl

parse_fragment-Written_example :
    Written short_request read_header (parse_fragment octet_sizer short_request)
parse_fragment-Written_example =
    parse_fragment-Written octet_sizer short_request read_header 2 short_request-octets read

parsed : (parse_fragment octet_sizer request).1 ≡ nil
unfolding parse_fragment parse_objects after_object object_carries_data carries_object_data
    parse_header is_response parse_control FuncCode.is_response parse_object_header object_data_len
    index_prefix range_spec reserved prefix_octets prefix_valid is_index is_size is_count
    range_octets range_valid parse_range range_fields range_bounds is_start_stop
parsed = refl

build-parse_fragment_example :
    (let f = (parse_fragment octet_sizer request).0 in
      append_objects (append_header [] f.header) f.objects ≡ request)
build-parse_fragment_example = build-parse_fragment octet_sizer request request-octets parsed

abbrev small_builder : Builder
small_builder = record { buf = 0xc1 ∷ 0x01 ∷ []; max = 4; header_written = true }
