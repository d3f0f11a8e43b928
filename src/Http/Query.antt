-- ===== src/Http/Query.antt =====
-- `parser<query_parameters>` and `decode_uri_component` of src/http/parser.cpp.
pub mod RoundTrip
pub mod Values
use rite.Prelude.{
  ℕ, bytes_eq, zero, suc, List, [], ◌∷◌, Option, none, some, ◌==◌, if◌then◌else◌, length, take,
  drop,
}
use rite.Outcome.{Outcome, ok, throws, ◌>>=◌, undefined, stuck}
use rite.Http.Stream.{until, getline}

-- `scan_hex` is `sscanf(text, "%x", ...)`: the number that it stores, if it stores one.
module _ (scan_hex : List ℕ → Option ℕ) where
  -- The byte of an escape. `ch` is one char and "%x" stores an unsigned int, which is written past it;
  -- where nothing is stored, `ch` is read without a value. Either way the behaviour is undefined.
  stored : List ℕ → Outcome ℕ
  stored digits = elim (scan_hex digits) [ some n ↦ throws undefined | none ↦ throws undefined ]

  -- The loop of `decode_uri_component` on what is left of the string.
  pub decode_from : ℕ → List ℕ → Outcome (List ℕ)
  unfolding stored
  decode_from fuel [] = ok []
  decode_from zero (x ∷ xs) = throws stuck
  decode_from (suc fuel) (x ∷ xs) =
      if x == 37
      then (do c ← stored (take 2 xs); rest ← decode_from fuel (drop 2 xs); ok (c ∷ rest))
      else do rest ← decode_from fuel xs; ok (x ∷ rest)

  pub decode_uri_component : List ℕ → Outcome (List ℕ)
  unfolding decode_from
  decode_uri_component encoded = decode_from (length encoded) encoded

  -- One round of the loop of `parse`, for the text before and from the first `=`.
  parameter : List ℕ → List ℕ × List ℕ → Outcome (List ℕ × List ℕ)
  unfolding decode_uri_component
  parameter param (key, []) = do k ← decode_uri_component param; ok (k, [])
  parameter param (key, equal ∷ value) = do
    k ← decode_uri_component key
    v ← decode_uri_component value
    ok (k, v)

  pub parameters : ℕ → List ℕ → Outcome (List (List ℕ × List ℕ))
  unfolding parameter
  parameters zero text = throws stuck
  parameters (suc fuel) text = elim (getline 38 text) [
    | none ↦ ok []
    | some (param, rest) ↦ do
      first ← parameter param (until 61 param)
      others ← parameters fuel rest
      ok (first ∷ others)
  ]

  unfoldable pub after_question : List ℕ → Outcome (Option (List (List ℕ × List ℕ)))
  unfolding parameters
  after_question [] = ok none
  after_question (question ∷ text) = do query ← parameters (suc (length text)) text; ok (some query)

  -- `parse`: the query behind the first `?`, or nullopt.
  unfoldable pub parse_query : List ℕ → Outcome (Option (List (List ℕ × List ℕ)))
  unfolding after_question
  parse_query text = after_question (until 63 text).1

-- `get<T>(key)` for one value and for a vector of them; `deserialize` is that of pluggable<T>.
module _ {A : Type 0} (deserialize : List ℕ → A) where
  pub get_one : List ℕ → List (List ℕ × List ℕ) → Option A
  get_one key [] = none
  get_one key ((k, v) ∷ parameters) =
      if bytes_eq k key then some (deserialize v) else get_one key parameters

  pub collect : List ℕ → List (List ℕ × List ℕ) → List A
  collect key [] = []
  collect key ((k, v) ∷ parameters) =
      if bytes_eq k key then deserialize v ∷ collect key parameters else collect key parameters

  abbrev pub unless_empty : List A → Option (List A)
  unless_empty [] = none
  unless_empty (x ∷ xs) = some (x ∷ xs)

  pub get_all : List ℕ → List (List ℕ × List ℕ) → Option (List A)
  unfolding collect
  get_all key parameters = unless_empty (collect key parameters)
