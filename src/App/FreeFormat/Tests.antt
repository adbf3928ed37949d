-- ===== src/App/FreeFormat/Tests.antt =====
-- A free-format object of three octets in group 70 variation 5.
use go_dnp.Common.{true, none, [], ◌∷◌, ◌++◌, length, ok, ◌≡◌, refl, arith}
use go_dnp.App.Qualifier.{make_qualifier}
use go_dnp.App.Object.{parse_object_header, append_object_header}
use go_dnp.App.FreeFormat.{free_format_qualifier, free_format}
use go_dnp.App.FreeFormat.RoundTrip.{free_header, parse-free_format}

made : free_format 70 5 (1 ∷ 2 ∷ 3 ∷ []) ≡ ok (free_header 70 5 (1 ∷ 2 ∷ 3 ∷ []))
unfolding free_format free_format_qualifier make_qualifier
made = refl

parse-free_format_example :
    (let h = free_header 70 5 (1 ∷ 2 ∷ 3 ∷ []) in
      parse_object_header (λ group variation. none) (append_object_header [] h ++ (9 ∷ [])) 0 true
      ≡ ok (record h { data_offset = 4 }, length (append_object_header [] h)))
parse-free_format_example =
    parse-free_format (λ group variation. none) 70 5 (1 ∷ 2 ∷ 3 ∷ []) (9 ∷ []) true
      (free_header 70 5 (1 ∷ 2 ∷ 3 ∷ [])) (omega arith) (omega arith) (omega arith) made
