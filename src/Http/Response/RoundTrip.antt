-- ===== src/Http/Response/RoundTrip.antt =====
-- Header lines as the serializer writes them, and as the parser reads them.
use rite.Prelude.{
  ℕ, zero, suc, ◌≤◌, ◌<◌, ◌≡◌, ◌≢◌, refl, sym, ap, ◌∙◌, List, [], ◌∷◌, ◌++◌, arith, All, true,
  false, some, bytes_eq, length, length-append, append_assoc, All-append,
}
use rite.Outcome.{ok}
use rite.Http.Request.{HttpRequest, set_header}
use rite.Http.Stream.{until, getline, trim_front, trim_back, is_blank}
use rite.Http.Stream.Lines.{until-stop, getline-here}
use rite.Http.Parser.{parse_headers, parse_rest, take_body, goes_on, store_header}
use rite.Http.Response.{header_line, header_lines}

-- A header that the parser can read back.
pub record IsHeader (kv : List ℕ × List ℕ) : Type 0 where
  pub key_colon : All (λ c. c ≢ 58) kv.0
  pub key_line : All (λ c. c ≢ 10) kv.0
  pub value_line : All (λ c. c ≢ 10) kv.1
  pub key_trimmed : trim_back kv.0 ≡ kv.0
  pub first : ℕ
  pub others : List ℕ
  pub shape : kv.1 ≡ first ∷ others
  pub visible : is_blank first ≡ false

-- The request with the headers stored in turn, each value with its carriage return.
abbrev pub store_all : List (List ℕ × List ℕ) → HttpRequest → HttpRequest
store_all [] req = req
store_all (kv ∷ kvs) req =
    store_all kvs (record req { headers = set_header kv.0 (kv.1 ++ (13 ∷ [])) req.headers })

abbrev line : List ℕ × List ℕ → List ℕ
line (key, value) = key ++ (58 ∷ 32 ∷ (value ++ (13 ∷ [])))

header_line-line :
    (kv : List ℕ × List ℕ) (rest : List ℕ) → header_line kv ++ rest ≡ line kv ++ (10 ∷ rest)
unfolding header_line
header_line-line (k, v) rest =
    append_assoc k (58 ∷ 32 ∷ (v ++ (13 ∷ 10 ∷ []))) rest
    ∙ ap (λ l. k ++ (58 ∷ 32 ∷ l))
        (append_assoc v (13 ∷ 10 ∷ []) rest ∙ sym (append_assoc v (13 ∷ []) (10 ∷ rest)))
    ∙ sym (append_assoc k (58 ∷ 32 ∷ (v ++ (13 ∷ []))) (10 ∷ rest))

line-All : (kv : List ℕ × List ℕ) → IsHeader kv → All (λ c. c ≢ 10) (line kv)
line-All (k, v) h =
    All-append (λ c. c ≢ 10) k (58 ∷ 32 ∷ (v ++ (13 ∷ []))) h.key_line
      (omega arith, (omega arith, All-append (λ c. c ≢ 10) v (13 ∷ []) h.value_line (omega arith)))

long_not_empty : (k : List ℕ) (c : ℕ) (rest : List ℕ) → bytes_eq (k ++ (c ∷ rest)) [] ≡ false
long_not_empty [] c rest = refl
long_not_empty (x ∷ k) c rest = refl

goes_on-line : (kv : List ℕ × List ℕ) → goes_on (line kv) ≡ true
goes_on-line ([], v) = refl
goes_on-line (x ∷ k, v) = rw (long_not_empty k 58 (32 ∷ (v ++ (13 ∷ [])))) (ground arith)

trim_front-value :
    (kv : List ℕ × List ℕ) → IsHeader kv → trim_front (32 ∷ (kv.1 ++ (13 ∷ []))) ≡ kv.1 ++ (13 ∷ [])
unfolding trim_front
trim_front-value (k, v) h = rw h.shape (rw (h.visible, trim_front))

abbrev with_header : List ℕ × List ℕ → HttpRequest → HttpRequest
with_header kv req = record req { headers = set_header kv.0 (kv.1 ++ (13 ∷ [])) req.headers }

store_header-line :
    (kv : List ℕ × List ℕ) (req : HttpRequest)
    → IsHeader kv
    → store_header (until 58 (line kv)) req ≡ with_header kv req
unfolding store_header
store_header-line (k, v) req h =
    ap (λ parts. store_header parts req) (until-stop 58 k (32 ∷ (v ++ (13 ∷ []))) h.key_colon)
    ∙ rw (h.key_trimmed, trim_front-value (k, v) h) refl

parse_headers_step :
    (fuel : ℕ) (text piece rest : List ℕ) (req : HttpRequest)
    → getline 10 text ≡ some (piece, rest)
    → goes_on piece ≡ true
    → parse_headers (suc fuel) text req
      ≡ parse_headers fuel rest (store_header (until 58 piece) req)
unfolding parse_headers
parse_headers_step fuel text piece rest req e g = rw (e, parse_headers) (rw g)

blank_line :
    (fuel : ℕ) (body : List ℕ) (req : HttpRequest)
    → parse_headers (suc fuel) (13 ∷ 10 ∷ body) req ≡ ok (body, req)
unfolding parse_headers getline until
blank_line fuel body req = refl

-- The loop takes the lines and stops behind the blank line.
parse_headers-header_lines :
    (kvs : List (List ℕ × List ℕ)) (fuel : ℕ) (body : List ℕ) (req : HttpRequest)
    → All IsHeader kvs
    → length kvs < fuel
    → parse_headers fuel (header_lines kvs ++ (13 ∷ 10 ∷ body)) req ≡ ok (body, store_all kvs req)
unfolding header_lines
parse_headers-header_lines kvs zero body req h enough = absurd (omega arith)
parse_headers-header_lines [] (suc fuel) body req h enough = blank_line fuel body req
parse_headers-header_lines (kv ∷ kvs) (suc fuel) body req h enough =
    let rest = header_lines kvs ++ (13 ∷ 10 ∷ body) in
    ap (λ l. parse_headers (suc fuel) l req)
      (append_assoc (header_line kv) (header_lines kvs) (13 ∷ 10 ∷ body) ∙ header_line-line kv rest)
    ∙ parse_headers_step fuel (line kv ++ (10 ∷ rest)) (line kv) rest req
        (getline-here 10 (line kv) rest (line-All kv h.0)) (goes_on-line kv)
    ∙ ap (parse_headers fuel rest) (store_header-line kv req h.0)
    ∙ parse_headers-header_lines kvs fuel body (with_header kv req) h.1 (omega (arith, enough))

lines_enough :
    (kvs : List (List ℕ × List ℕ)) (rest : List ℕ) → length kvs ≤ length (header_lines kvs ++ rest)
unfolding header_lines header_line
lines_enough [] rest = omega arith
lines_enough ((k, v) ∷ kvs) rest =
    let line = header_line (k, v) in
    rw (append_assoc line (header_lines kvs) rest) (
      omega (
        arith,
        length-append line (header_lines kvs ++ rest),
        length-append k (58 ∷ 32 ∷ (v ++ (13 ∷ 10 ∷ []))),
        lines_enough kvs rest,
      ))

-- The header lines that the serializer writes, with the blank line and any body behind them, are
-- what the HTTP/1 parser reads behind the request line: it succeeds, it has stored each header in
-- turn, and for POST and PUT it has taken the body. Each value has kept the carriage return of its
-- line. The keys have no colon and no line feed and end in no blank, and the values have no line
-- feed and start with a character that is no blank.
pub parse_rest-header_lines :
    (kvs : List (List ℕ × List ℕ)) (body : List ℕ) (req : HttpRequest)
    → All IsHeader kvs
    → parse_rest (header_lines kvs ++ (13 ∷ 10 ∷ body)) req
      ≡ ok (true, take_body (body, store_all kvs req))
unfolding parse_rest
parse_rest-header_lines kvs body req h = rw (
    parse_headers-header_lines kvs (suc (length (header_lines kvs ++ (13 ∷ 10 ∷ body)))) body req h
      (omega (arith, lines_enough kvs (13 ∷ 10 ∷ body))))
