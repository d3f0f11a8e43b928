-- ===== src/Http/Cookies.antt =====
-- `http_request::cookie_jar` of include/http/request.hpp: the cookies of a request. The keys of the
-- header map are different, so that the loop over it finds one cookie header at most.
pub mod Reading
mod Tests
use rite.Prelude.{ℕ, zero, suc, List, [], ◌∷◌, Bool, true, false, Option, none, some, length, drop}
use rite.Text.{codes}
use rite.Outcome.{Outcome, ok, throws, stuck}
use rite.Http.Stream.{until, getline}
use rite.Http.Request.{HttpRequest, header, set_header}

abbrev pub Jar : Type 0
Jar = List (List ℕ × List ℕ)

-- `std::getline(inner, key, '=')` and the same for the value.
unfoldable pub read_cookie : List ℕ → List ℕ × List ℕ
unfolding until
read_cookie cookie =
    let (key, behind) = until b'=' cookie in
    let (value, more) = until b'=' (drop 1 behind) in (key, value)

unfoldable pub read_cookies : ℕ → List ℕ → Jar → Outcome Jar
unfolding getline read_cookie set_header
read_cookies zero text jar = throws stuck
read_cookies (suc fuel) text jar = elim (getline b';' text) [
  | none ↦ ok jar
  | some (cookie, rest) ↦
      let (key, value) = read_cookie cookie in read_cookies fuel rest (set_header key value jar)
]

unfoldable pub cookie_jar : HttpRequest → Outcome Jar
unfolding read_cookies header
cookie_jar req = elim (header (codes "cookie") req.headers) [
  | some text ↦ read_cookies (suc (length text)) text []
  | none ↦ ok []
]

-- `has(key)`.
unfoldable pub has : List ℕ → Jar → Bool
unfolding header
has key jar = elim (header key jar) [ some value ↦ true | none ↦ false ]
