-- ===== src/Http/Tests.antt =====
-- Concrete requests and queries, and the theorems at them.
use rite.Prelude.{ℕ, ◌+◌, ◌*◌, ◌≡◌, ◌≢◌, true, refl, List, [], ◌∷◌, ◌++◌, arith, Option, none, some}
use rite.Text.{codes}
use rite.Outcome.{ok, throws, undefined, stuck}
use rite.Http.Request.{empty_request}
use rite.Http.Parser.{parse_rest, take_body}
use rite.Http.Parser.Progress.{parse_rest-ne-stuck}
use rite.Http.Stream.{trim_back, is_blank}
use rite.Http.Response.{header_lines}
use rite.Http.Response.RoundTrip.{IsHeader, store_all, parse_rest-header_lines}
use rite.Http.Query.{parse_query, decode_uri_component}
use rite.Http.Query.RoundTrip.{IsPlain, print, parse_query-print}
use rite.H2.Connection.Uri.{hex_value}

-- A function that stands for sscanf on two digits.
abbrev scan_two : List ℕ → Option ℕ
scan_two (a ∷ b ∷ []) = some (hex_value a * 16 + hex_value b)
scan_two text = none

abbrev two_parameters : List (List ℕ × List ℕ)
two_parameters = (codes "q", codes "a=b") ∷ (codes "x", []) ∷ []

q-IsPlain : IsPlain (codes "q", codes "a=b")
q-IsPlain = record {
  key_percent = (omega arith, tt);
  key_ampersand = (omega arith, tt);
  key_equals = (omega arith, tt);
  value_percent = omega arith;
  value_ampersand = omega arith;
}

x-IsPlain : IsPlain (codes "x", [])
x-IsPlain = record {
  key_percent = (omega arith, tt);
  key_ampersand = (omega arith, tt);
  key_equals = (omega arith, tt);
  value_percent = tt;
  value_ampersand = tt;
}

parse_query-print_example :
    (parse_query scan_two (codes "/find" ++ (63 ∷ print two_parameters)) ≡ ok (some two_parameters))
    × (decode_uri_component scan_two (codes "a" ++ (37 ∷ codes "20")) ≡ throws undefined)
parse_query-print_example =
    parse_query-print scan_two (codes "/find") two_parameters (codes "a") (codes "20") (omega arith)
      (q-IsPlain, (x-IsPlain, tt)) (omega arith, tt)

abbrev host : List ℕ × List ℕ
host = (codes "host", codes "a")

host-IsHeader : IsHeader host
unfolding trim_back
host-IsHeader = record {
  key_colon = omega arith;
  key_line = omega arith;
  value_line = omega arith;
  key_trimmed = refl;
  first = 97;
  others = [];
  shape = refl;
  visible = unfold is_blank in refl;
}

parse_rest-header_lines_example :
    parse_rest (header_lines (host ∷ []) ++ (13 ∷ 10 ∷ codes "body")) empty_request
    ≡ ok (true, take_body (codes "body", store_all (host ∷ []) empty_request))
parse_rest-header_lines_example =
    parse_rest-header_lines (host ∷ []) (codes "body") empty_request (host-IsHeader, tt)

parse_rest-ne-stuck_example : parse_rest (codes "a: b") empty_request ≢ throws stuck
parse_rest-ne-stuck_example = parse_rest-ne-stuck (codes "a: b") empty_request
