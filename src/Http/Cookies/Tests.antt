-- ===== src/Http/Cookies/Tests.antt =====
-- The cookies of a concrete request.
use rite.Prelude.{◌≡◌, refl, [], ◌∷◌, false, arith, map}
use rite.Text.{codes}
use rite.Outcome.{ok}
use rite.Http.Request.{HttpRequest, empty_request, header, set_header, text_lt}
use rite.Http.Cookies.{cookie_jar, has}
use rite.Http.Cookies.Reading.{Pair, IsCookie, blank, store_pairs, cookie_jar-written}

abbrev a_b : Pair
a_b = (codes "a", codes "b")

abbrev c_d : Pair
c_d = (codes "c", codes "d")

-- "a=b; c=d"
abbrev request : HttpRequest
request = record empty_request { headers = (codes "cookie", codes "a=b; c=d") ∷ [] }

a_b-IsCookie : IsCookie a_b
a_b-IsCookie = record {
  key_equals = (omega arith, tt);
  key_semicolon = (omega arith, tt);
  value_equals = (omega arith, tt);
  value_semicolon = (omega arith, tt);
}

c_d-IsCookie : IsCookie c_d
c_d-IsCookie = record {
  key_equals = (omega arith, tt);
  key_semicolon = (omega arith, tt);
  value_equals = (omega arith, tt);
  value_semicolon = (omega arith, tt);
}

second_missing : has (codes "c") (store_pairs (a_b ∷ map blank (c_d ∷ [])) []) ≡ false
unfolding has header set_header text_lt
second_missing = refl

cookie_jar-written_example : cookie_jar request ≡ ok (store_pairs (a_b ∷ map blank (c_d ∷ [])) [])
unfolding header
cookie_jar-written_example =
    cookie_jar-written a_b (c_d ∷ []) request a_b-IsCookie (c_d-IsCookie, tt) refl
