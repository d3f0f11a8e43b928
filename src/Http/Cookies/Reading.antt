-- ===== src/Http/Cookies/Reading.antt =====
-- The cookies that a client writes, and the ones that the jar has.
use rite.Prelude.{
  ℕ, zero, suc, ◌≤◌, ◌<◌, ◌≡◌, ◌≢◌, refl, ap, ◌∙◌, List, [], ◌∷◌, ◌++◌, arith, All, All-append,
  some, length, length-append, map,
}
use rite.Text.{codes}
use rite.Outcome.{ok}
use rite.Http.Stream.{getline}
use rite.Http.Stream.Lines.{until-stop, until_whole, getline-here, getline_last}
use rite.Http.Request.{HttpRequest, header, set_header}
use rite.Http.Cookies.{Jar, read_cookie, read_cookies, cookie_jar}

abbrev pub Pair : Type 0
Pair = List ℕ × List ℕ

-- No `=` and no `;` in a key or a value.
pub record IsCookie (kv : Pair) : Type 0 where
  pub key_equals : All (λ c. c ≢ b'=') kv.0
  pub key_semicolon : All (λ c. c ≢ b';') kv.0
  pub value_equals : All (λ c. c ≢ b'=') kv.1
  pub value_semicolon : All (λ c. c ≢ b';') kv.1

abbrev pub pair_text : Pair → List ℕ
pair_text (key, value) = key ++ (b'=' ∷ value)

-- One pair after the other with a `;` between them.
abbrev pub pieces : Pair → List Pair → List ℕ
pieces kv [] = pair_text kv
pieces kv (next ∷ kvs) = pair_text kv ++ (b';' ∷ pieces next kvs)

abbrev pub store_pairs : List Pair → Jar → Jar
store_pairs [] jar = jar
store_pairs (kv ∷ kvs) jar = store_pairs kvs (set_header kv.0 kv.1 jar)

read_cookie-pair : (kv : Pair) → IsCookie kv → read_cookie (pair_text kv) ≡ kv
unfolding read_cookie
read_cookie-pair (k, v) h =
    rw (until-stop b'=' k v h.key_equals) (rw (until_whole b'=' v h.value_equals) refl)

pair-All : (kv : Pair) → IsCookie kv → All (λ c. c ≢ b';') (pair_text kv)
pair-All (k, v) h =
    All-append (λ c. c ≢ b';') k (b'=' ∷ v) h.key_semicolon (omega arith, h.value_semicolon)

pair_some : (kv : Pair) → 0 < length (pair_text kv)
pair_some (k, v) = omega (arith, length-append k (b'=' ∷ v))

read_step :
    (fuel : ℕ) (text rest : List ℕ) (kv : Pair) (jar : Jar)
    → IsCookie kv
    → getline b';' text ≡ some (pair_text kv, rest)
    → read_cookies (suc fuel) text jar ≡ read_cookies fuel rest (set_header kv.0 kv.1 jar)
unfolding read_cookies
read_step fuel text rest kv jar h e =
    rw (e, read_cookies)
      (ap (λ c. read_cookies fuel rest (set_header c.0 c.1 jar)) (read_cookie-pair kv h))

read_cookies-pieces :
    (kv : Pair) (kvs : List Pair) (fuel : ℕ) (jar : Jar)
    → IsCookie kv
    → All IsCookie kvs
    → suc (length kvs) < fuel
    → read_cookies fuel (pieces kv kvs) jar ≡ ok (store_pairs (kv ∷ kvs) jar)
read_cookies-pieces kv kvs zero jar h hs enough = absurd (omega (arith, enough))
read_cookies-pieces kv [] (suc zero) jar h hs enough = absurd (omega (arith, enough))
read_cookies-pieces kv [] (suc (suc fuel)) jar h hs enough =
    read_step (suc fuel) (pair_text kv) [] kv jar h
      (getline_last b';' (pair_text kv) (pair_some kv) (pair-All kv h))
    ∙ (unfold read_cookies getline in refl)
read_cookies-pieces kv (next ∷ kvs) (suc fuel) jar h hs enough =
    read_step fuel (pieces kv (next ∷ kvs)) (pieces next kvs) kv jar h
      (getline-here b';' (pair_text kv) (pieces next kvs) (pair-All kv h))
    ∙ read_cookies-pieces next kvs fuel (set_header kv.0 kv.1 jar) hs.0 hs.1 (omega (arith, enough))

pieces_enough : (kv : Pair) (kvs : List Pair) → suc (length kvs) ≤ length (pieces kv kvs)
pieces_enough kv [] = pair_some kv
pieces_enough kv (next ∷ kvs) =
    omega (arith, length-append (pair_text kv) (b';' ∷ pieces next kvs), pieces_enough next kvs)

-- A blank in front of a key.
abbrev pub blank : Pair → Pair
blank (key, value) = (32 ∷ key, value)

blank-IsCookie : (kv : Pair) → IsCookie kv → IsCookie (blank kv)
blank-IsCookie (k, v) h = record {
  key_equals = (omega arith, h.key_equals);
  key_semicolon = (omega arith, h.key_semicolon);
  value_equals = h.value_equals;
  value_semicolon = h.value_semicolon;
}

blanks : (kvs : List Pair) → All IsCookie kvs → All IsCookie (map blank kvs)
blanks [] h = tt
blanks (kv ∷ kvs) (h, hs) = (blank-IsCookie kv h, blanks kvs hs)

-- The cookie header of a client, with "; " between the cookies, gives a jar in which the first cookie
-- has its own key, and every other one its key with a blank in front of it. Keys and values have no
-- `=` and no `;`.
pub cookie_jar-written :
    (kv : Pair) (kvs : List Pair) (req : HttpRequest)
    → IsCookie kv
    → All IsCookie kvs
    → header (codes "cookie") req.headers ≡ some (pieces kv (map blank kvs))
    → cookie_jar req ≡ ok (store_pairs (kv ∷ map blank kvs) [])
unfolding cookie_jar
cookie_jar-written kv kvs req h hs e =
    let text = pieces kv (map blank kvs) in
    rw (e, cookie_jar)
      (read_cookies-pieces kv (map blank kvs) (suc (length text)) [] h (blanks kvs hs)
        (omega (arith, pieces_enough kv (map blank kvs))))
