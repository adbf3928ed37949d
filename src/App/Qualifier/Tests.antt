-- ===== src/App/Qualifier/Tests.antt =====
-- The points 3 to 5 with a start and a stop of one octet each.
use go_dnp.Common.{[], ◌∷◌, ◌++◌, ok, ◌≡◌, refl, arith}
use go_dnp.App.Qualifier.{
  append_range, Range, parse_range, range_octets, range_fields, range_bounds, is_start_stop,
}
use go_dnp.App.Qualifier.RoundTrip.{IsRange, bounded, parse_range-append_range}
use go_dnp.App.Qualifier.RangeBounds.{IsParsed, parse_range-IsParsed}

abbrev three_points : Range
three_points = record { spec = 0; low = 3; stop = 5; count = 3 }

parsed : parse_range 0 (3 ∷ 5 ∷ 9 ∷ []) ≡ ok (three_points, 2)
unfolding parse_range range_octets range_fields range_bounds is_start_stop
parsed = refl

parse_range-IsParsed_example : IsParsed 0 (3 ∷ 5 ∷ 9 ∷ []) three_points 2
parse_range-IsParsed_example = parse_range-IsParsed 0 (3 ∷ 5 ∷ 9 ∷ []) three_points 2 parsed

three_points-IsRange : IsRange three_points
unfolding is_start_stop
three_points-IsRange = bounded refl (omega arith) (omega arith) refl (omega arith)

parse_range-append_range_example :
    parse_range 0 (append_range [] three_points ++ (9 ∷ [])) ≡ ok (three_points, range_octets 0)
parse_range-append_range_example =
    parse_range-append_range three_points (9 ∷ []) three_points-IsRange
