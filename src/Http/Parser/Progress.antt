-- ===== src/Http/Parser/Progress.antt =====
-- How far a round of the loop over the header lines moves, and the loop's fuel.
use rite.Prelude.{
  ℕ, zero, suc, ◌≤◌, ◌<◌, ◌≡◌, ◌≢◌, ap, inl, inr, List, [], ◌∷◌, arith, some, length, drop,
  length-drop, Option-cases, Bool-cases, ◌==◌, Bool, true,
}
use rite.Outcome.{Outcome, ok, throws, stuck, ◌>>=◌}
use rite.Http.Request.{HttpRequest}
use rite.Http.Stream.{until, getline}
use rite.Http.Parser.{parse_headers, parse_rest, goes_on, store_header, take_body}

length-until : (d : ℕ) (xs : List ℕ) → length (until d xs).1 ≤ length xs
unfolding until
length-until d [] = omega arith
length-until d (x ∷ xs) = elim (Bool-cases (x == d)) [
  | inl e ↦ rw e (omega arith)
  | inr e ↦ rw e (omega (arith, length-until d xs))
]

getline-shorter :
    (d : ℕ) (text line rest : List ℕ)
    → getline d text ≡ some (line, rest)
    → length rest < length text
unfolding getline
getline-shorter d [] line rest e = cc
getline-shorter d (x ∷ xs) line rest e =
    let bound = length-until d (x ∷ xs) in
    let cut = length-drop 1 (until d (x ∷ xs)).1 in
    let same : drop 1 (until d (x ∷ xs)).1 ≡ rest = cc e in
    omega (arith, bound, cut, ap length same)

parse_headers-ne-stuck :
    (fuel : ℕ) (text : List ℕ) (req : HttpRequest)
    → length text < fuel
    → parse_headers fuel text req ≢ throws stuck
unfolding parse_headers
parse_headers-ne-stuck zero text req h = absurd (omega arith)
parse_headers-ne-stuck (suc fuel) text req h = elim (Option-cases (getline 10 text)) [
  | inl e ↦ rw (e, parse_headers) (λ x. cc)
  | inr ((line, rest), e) ↦
      rw (e, parse_headers)
        (elim (Bool-cases (goes_on line)) [
          | inl g ↦ rw g (
              parse_headers-ne-stuck fuel rest (store_header (until 58 line) req)
                (omega (arith, getline-shorter 10 text line rest e)))
          | inr g ↦ rw g (λ x. cc)
        ])
]

finish : List ℕ × HttpRequest → Outcome (Bool × HttpRequest)
finish r = ok (true, take_body r)

finish-ne-stuck :
    (r : Outcome (List ℕ × HttpRequest)) → r ≢ throws stuck → (r >>= finish) ≢ throws stuck
unfolding finish
finish-ne-stuck (ok p) h = λ x. cc
finish-ne-stuck (throws e) h = λ x. h (cc x)

-- Behind the request line the HTTP/1 parser ends on every text: the loop over the header lines takes
-- one byte at least in each round, so the fuel, one more than the length of the text, is enough.
pub parse_rest-ne-stuck : (text : List ℕ) (req : HttpRequest) → parse_rest text req ≢ throws stuck
unfolding parse_rest finish
parse_rest-ne-stuck text req =
    finish-ne-stuck (parse_headers (suc (length text)) text req)
      (parse_headers-ne-stuck (suc (length text)) text req (omega arith))
