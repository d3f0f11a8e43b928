-- ===== src/Http/Parser.antt =====
-- `parser<http_request>::parse` of src/http/parser.cpp. What it stores in the request before it
-- returns false stays there.
pub mod Progress
use rite.Prelude.{
  ℕ, zero, suc, List, [], ◌∷◌, Bool, true, false, not, ◌&&◌, Option, none, some, bytes_eq,
  if◌then◌else◌, length,
}
use rite.Outcome.{Outcome, ok, throws, ◌>>=◌, stuck}
use rite.Http.Request.{HttpRequest, set_header, method_named, version_named, has_body}
use rite.Http.Stream.{until, getline, read_word, trim_front, trim_back}
use rite.Http.Query.{parse_query}

-- A line of the header section; one without a colon is passed over.
unfoldable pub store_header : List ℕ × List ℕ → HttpRequest → HttpRequest
unfolding set_header trim_front trim_back
store_header (key, []) req = req
store_header (key, colon ∷ value) req = record req {
  headers = set_header (trim_back key) (trim_front value) req.headers;
}

-- `!line.empty() && line != "\r"`.
abbrev pub goes_on : List ℕ → Bool
goes_on line = not (bytes_eq line []) && not (bytes_eq line (13 ∷ []))

-- The loop over the header lines, with what is left of the stream behind it.
unfoldable pub parse_headers : ℕ → List ℕ → HttpRequest → Outcome (List ℕ × HttpRequest)
unfolding store_header
parse_headers zero text req = throws stuck
parse_headers (suc fuel) text req = elim (getline 10 text) [
  | none ↦ ok (text, req)
  | some (line, rest) ↦
      let more = parse_headers fuel rest (store_header (until 58 line) req) in
      if goes_on line then more else ok (rest, req)
]

-- The body is what is left, for POST and PUT.
unfoldable pub take_body : List ℕ × HttpRequest → HttpRequest
take_body (rest, req) = if has_body req.method then record req { body = rest } else req

unfoldable pub parse_rest : List ℕ → HttpRequest → Outcome (Bool × HttpRequest)
unfolding parse_headers take_body
parse_rest text req = do r ← parse_headers (suc (length text)) text req; ok (true, take_body r)

pub record RequestLine : Type 0 where
  pub method_str : List ℕ
  pub path : List ℕ
  pub version : List ℕ

-- `request_line >> method_str >> path >> version`.
unfoldable pub read_request_line : List ℕ → Option RequestLine
read_request_line line = elim (read_word line) [
  | none ↦ none
  | some (method, l) ↦ elim (read_word l) [
    | none ↦ none
    | some (path, l') ↦ elim (read_word l') [
      | none ↦ none
      | some (version, l'') ↦ some (record { method_str = method; path = path; version = version })
    ]
  ]
]

module _ (scan_hex : List ℕ → Option ℕ) where
  -- The query is parsed when the path has a `?`, and is then there.
  unfoldable pub read_query : List ℕ → HttpRequest → Outcome HttpRequest
  read_query path req = parse_query scan_hex path >>= λ q. elim q [
    | none ↦ ok req
    | some query ↦ ok (record req { query = query })
  ]

  -- Behind the version: the query, the method, the path, the headers and the body.
  unfoldable pub parse_method :
      List ℕ → List ℕ → List ℕ → HttpRequest → Outcome (Bool × HttpRequest)
  unfolding read_query parse_rest
  parse_method method_str path text req = read_query path req >>= λ req'.
      elim (method_named method_str) [
        | none ↦ ok (false, req')
        | some method ↦ parse_rest text (record req' { method = method; path = path })
      ]

  unfoldable pub parse_line : RequestLine → List ℕ → HttpRequest → Outcome (Bool × HttpRequest)
  unfolding parse_method
  parse_line words text req = elim (version_named words.version) [
    | none ↦ ok (false, req)
    | some version ↦
        parse_method words.method_str words.path text (record req { version = version })
  ]

  unfoldable pub parse_request : List ℕ → HttpRequest → Outcome (Bool × HttpRequest)
  unfolding parse_line read_request_line
  parse_request text req = elim (getline 10 text) [
    | none ↦ ok (false, req)
    | some (line, rest) ↦ elim (read_request_line line) [
      | none ↦ ok (false, req)
      | some words ↦ parse_line words rest req
    ]
  ]
