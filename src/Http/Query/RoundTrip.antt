-- ===== src/Http/Query/RoundTrip.antt =====
-- A query string without escapes through `parser<query_parameters>`, and one with an escape.
use rite.Prelude.{
  ℕ, zero, suc, ◌≤◌, ◌<◌, ◌≡◌, ◌≢◌, refl, ap, ◌∙◌, inl, inr, List, [], ◌∷◌, ◌++◌, arith, All,
  Option, some, All-append, append-nil, length, drop, length-append, ==-ne, Option-cases, take,
}
use rite.Outcome.{ok, throws, undefined}
use rite.Http.Stream.{until, getline}
use rite.Http.Query.{
  decode_from, decode_uri_component, parameter, parameters, parse_query, after_question, stored,
}

-- A parameter that the parser reads as it is written: no `%` and no `&`, and no `=` in the key.
pub record IsPlain (kv : List ℕ × List ℕ) : Type 0 where
  pub key_percent : All (λ c. c ≢ 37) kv.0
  pub key_ampersand : All (λ c. c ≢ 38) kv.0
  pub key_equals : All (λ c. c ≢ 61) kv.0
  pub value_percent : All (λ c. c ≢ 37) kv.1
  pub value_ampersand : All (λ c. c ≢ 38) kv.1

module _ (scan_hex : List ℕ → Option ℕ) where
  decode_from-plain :
      (cs : List ℕ) (fuel : ℕ)
      → All (λ c. c ≢ 37) cs
      → length cs ≤ fuel
      → decode_from scan_hex fuel cs ≡ ok cs
  unfolding decode_from
  decode_from-plain [] fuel h enough = refl
  decode_from-plain (c ∷ cs) zero h enough = absurd (omega (arith, enough))
  decode_from-plain (c ∷ cs) (suc fuel) h enough =
      rw (==-ne c 37 h.0) (rw (decode_from-plain cs fuel h.1 (omega (arith, enough))))

  decode_uri_component-plain :
      (cs : List ℕ) → All (λ c. c ≢ 37) cs → decode_uri_component scan_hex cs ≡ ok cs
  unfolding decode_uri_component
  decode_uri_component-plain cs h = decode_from-plain cs (length cs) h (omega arith)

  stored_undefined : (digits : List ℕ) → stored scan_hex digits ≡ throws undefined
  unfolding stored
  stored_undefined digits = elim (Option-cases (scan_hex digits)) [
    | inl e ↦ rw (e, stored) refl
    | inr (n, e) ↦ rw (e, stored) refl
  ]

  -- An escape anywhere is undefined behaviour.
  decode_from-escaped :
      (cs rest : List ℕ) (fuel : ℕ)
      → All (λ c. c ≢ 37) cs
      → length cs < fuel
      → decode_from scan_hex fuel (cs ++ (37 ∷ rest)) ≡ throws undefined
  unfolding decode_from
  decode_from-escaped cs rest zero h enough = absurd (omega (arith, enough))
  decode_from-escaped [] rest (suc fuel) h enough = rw (stored_undefined (take 2 rest)) refl
  decode_from-escaped (c ∷ cs) rest (suc fuel) h enough =
      rw (==-ne c 37 h.0) (rw (decode_from-escaped cs rest fuel h.1 (omega (arith, enough))))

  until-past :
      (d c : ℕ) (xs : List ℕ) → c ≢ d → until d (c ∷ xs) ≡ (c ∷ (until d xs).0, (until d xs).1)
  unfolding until
  until-past d c xs p = rw (==-ne c d p)

  until-here : (d : ℕ) (xs : List ℕ) → until d (d ∷ xs) ≡ ([], d ∷ xs)
  unfolding until
  until-here d xs = ground arith

  until-append :
      (d : ℕ) (xs rest : List ℕ) → All (λ c. c ≢ d) xs → until d (xs ++ (d ∷ rest)) ≡ (xs, d ∷ rest)
  until-append d [] rest h = until-here d rest
  until-append d (x ∷ xs) rest h =
      until-past d x (xs ++ (d ∷ rest)) h.0 ∙ rw (until-append d xs rest h.1)

  until_none : (d : ℕ) (xs : List ℕ) → All (λ c. c ≢ d) xs → until d xs ≡ (xs, [])
  unfolding until
  until_none d [] h = refl
  until_none d (x ∷ xs) h = until-past d x xs h.0 ∙ rw (until_none d xs h.1)

-- A query as a client writes it.
pub print_pair : List ℕ × List ℕ → List ℕ
print_pair (key, value) = key ++ (61 ∷ value)

-- What follows the first parameter, and the whole query.
pub print_more : List (List ℕ × List ℕ) → List ℕ
unfolding print_pair
print_more [] = []
print_more (kv ∷ kvs) = 38 ∷ (print_pair kv ++ print_more kvs)

pub print : List (List ℕ × List ℕ) → List ℕ
unfolding print_pair print_more
print [] = []
print (kv ∷ kvs) = print_pair kv ++ print_more kvs

print_pair-some : (kv : List ℕ × List ℕ) → 0 < length (print_pair kv)
unfolding print_pair
print_pair-some (k, v) = omega (arith, length-append (k) (61 ∷ v))

getline-some :
    (d : ℕ) (xs : List ℕ)
    → 0 < length xs
    → getline d xs ≡ some ((until d xs).0, drop 1 (until d xs).1)
unfolding getline
getline-some d [] h = absurd (omega arith)
getline-some d (x ∷ xs) h = refl

module _ (scan_hex : List ℕ → Option ℕ) where
  no_ampersand : (kv : List ℕ × List ℕ) → IsPlain kv → All (λ c. c ≢ 38) (print_pair kv)
  unfolding print_pair
  no_ampersand (k, v) h =
      All-append (λ c. c ≢ 38) (k) (61 ∷ v) h.key_ampersand (omega arith, h.value_ampersand)

  -- The piece that getline takes, and what is left.
  first_piece :
      (kv : List ℕ × List ℕ) (kvs : List (List ℕ × List ℕ))
      → IsPlain kv
      → getline 38 (print_pair kv ++ print_more kvs) ≡ some (print_pair kv, print kvs)
  unfolding print_more print
  first_piece kv [] h = rw (append-nil (print_pair kv)) (
      getline-some 38 (print_pair kv) (print_pair-some kv)
      ∙ rw (until_none scan_hex 38 (print_pair kv) (no_ampersand kv h)))
  first_piece kv (next ∷ kvs) h =
      getline-some 38 (print_pair kv ++ (38 ∷ (print_pair next ++ print_more kvs)))
        (omega (arith, length-append (print_pair kv) (38 ∷ (print_pair next ++ print_more kvs))))
      ∙ rw (
          until-append scan_hex 38 (print_pair kv) (print_pair next ++ print_more kvs)
            (no_ampersand kv h))

  parameter_step :
      (param key value k v : List ℕ)
      → decode_uri_component scan_hex key ≡ ok k
      → decode_uri_component scan_hex value ≡ ok v
      → parameter scan_hex param (key, 61 ∷ value) ≡ ok (k, v)
  unfolding parameter
  parameter_step param key value k v e f = rw e (rw f)

  parameter-print_pair :
      (kv : List ℕ × List ℕ)
      → IsPlain kv
      → parameter scan_hex (print_pair kv) (until 61 (print_pair kv)) ≡ ok kv
  unfolding print_pair
  parameter-print_pair (k, v) h =
      ap (parameter scan_hex (print_pair (k, v))) (until-append scan_hex 61 (k) (v) h.key_equals)
      ∙ parameter_step (print_pair (k, v)) (k) (v) k v
          (decode_uri_component-plain scan_hex k h.key_percent)
          (decode_uri_component-plain scan_hex v h.value_percent)

  parameters_step :
      (fuel : ℕ) (text param rest : List ℕ) (kv : List ℕ × List ℕ) (kvs : List (List ℕ × List ℕ))
      → getline 38 text ≡ some (param, rest)
      → parameter scan_hex param (until 61 param) ≡ ok kv
      → parameters scan_hex fuel rest ≡ ok kvs
      → parameters scan_hex (suc fuel) text ≡ ok (kv ∷ kvs)
  unfolding parameters
  parameters_step fuel text param rest kv kvs e f g = rw (e, parameters) (rw f (rw g))

  print_shorter :
      (kv : List ℕ × List ℕ) (kvs : List (List ℕ × List ℕ))
      → length (print kvs) < length (print (kv ∷ kvs))
  unfolding print print_more
  print_shorter kv [] = omega (arith, print_pair-some kv, length-append (print_pair kv) [])
  print_shorter kv (next ∷ kvs) =
      omega (arith, length-append (print_pair kv) (38 ∷ (print_pair next ++ print_more kvs)))

  parameters-print :
      (kvs : List (List ℕ × List ℕ)) (fuel : ℕ)
      → All IsPlain kvs
      → length (print kvs) < fuel
      → parameters scan_hex fuel (print kvs) ≡ ok kvs
  unfolding parameters print
  parameters-print kvs zero h enough = absurd (omega arith)
  parameters-print [] (suc fuel) h enough = unfold getline in refl
  parameters-print (kv ∷ kvs) (suc fuel) h enough =
      parameters_step fuel _ (print_pair kv) (print kvs) kv kvs (first_piece kv kvs h.0)
        (parameter-print_pair kv h.0)
        (parameters-print kvs fuel h.1 (omega (arith, enough, print_shorter kv kvs)))

  decode_key :
      (before rest : List ℕ)
      → All (λ c. c ≢ 37) before
      → decode_uri_component scan_hex (before ++ (37 ∷ rest)) ≡ throws undefined
  unfolding decode_uri_component
  decode_key before rest h =
      decode_from-escaped scan_hex before rest (length (before ++ (37 ∷ rest))) h
        (omega (arith, length-append before (37 ∷ rest)))

  -- The query parser gives back, in their order, any list of parameters that a client has written
  -- behind the `?` of a path without escapes: no key and no value has a `%` or a `&`, no key has a `=`,
  -- and the path has no `?`. The escape of a byte, by contrast, is undefined behaviour wherever it
  -- stands in a key or a value, whatever sscanf stores.
  pub parse_query-print :
      (path : List ℕ) (kvs : List (List ℕ × List ℕ)) (before behind : List ℕ)
      → All (λ c. c ≢ 63) path
      → All IsPlain kvs
      → All (λ c. c ≢ 37) before
      → (parse_query scan_hex (path ++ (63 ∷ print kvs)) ≡ ok (some kvs))
        × (decode_uri_component scan_hex (before ++ (37 ∷ behind)) ≡ throws undefined)
  unfolding parse_query after_question
  parse_query-print path kvs before behind p h plain = (
    rw (until-append scan_hex 63 path (print kvs) p)
        (rw (parameters-print kvs (suc (length (print kvs))) h (omega arith))),
    decode_key before behind plain,
  )
