-- ===== src/H2/Connection/Requests.antt =====
-- `h2::stream`, and how a finished stream becomes a request: `finish_stream` of
-- src/protocols/h2/connection.cpp.
pub mod Asking
use rite.Prelude.{ℕ, List, [], ◌∷◌, Option, none, some, bytes_eq, if◌then◌else◌}
use rite.Text.{codes}
use rite.Outcome.{Outcome, ok, ◌>>=◌}
use rite.H2.Hpack.StaticTable.{Header}
use rite.Http.Request.{HttpRequest, empty_request, http_2_0, get, set_header, method_named}
use rite.Http.Stream.{until}
use rite.Http.Query.{parse_query}
use rite.H2.Connection.Uri.{uri_decode}

pub data StreamState : Type 0 where
  idle opened reserved half_closed closed : StreamState

pub record Stream : Type 0 where
  pub state : StreamState
  pub stream_id : ℕ
  pub headers : List Header
  pub body : List ℕ

-- What `streams_[id]` makes.
abbrev pub empty_stream : Stream
empty_stream = record { state = idle; stream_id = 0; headers = []; body = [] }

-- `get_header`: the value of the first header with the key.
unfoldable pub get_header : List ℕ → List Header → Option (List ℕ)
get_header key [] = none
get_header key (h ∷ rest) = if bytes_eq h.key key then some h.value else get_header key rest

unfoldable pub all_headers : List Header → List (List ℕ × List ℕ) → List (List ℕ × List ℕ)
unfolding set_header
all_headers [] map = map
all_headers (h ∷ rest) map = all_headers rest (set_header h.key h.value map)

-- The method stays 0 when the name is none of the nine.
unfoldable pub method_of : List ℕ → ℕ
unfolding method_named
method_of name = elim (method_named name) [ some m ↦ m | none ↦ 0 ]

unfoldable pub error_request : Stream → HttpRequest
error_request s = record empty_request {
  path = codes "/error";
  method = get;
  version = http_2_0;
  stream_id = some s.stream_id;
}

module _ (scan_hex : List ℕ → Option ℕ) where
  -- The path is decoded; what is behind its first `?` then becomes the query, and is cut off.
  unfoldable pub finish_request : List ℕ → List ℕ → Stream → Outcome (Stream × HttpRequest)
  unfolding uri_decode method_of all_headers until
  finish_request path method s =
      let decoded = uri_decode path in
      do
        q ← parse_query scan_hex decoded
        ok (
          record s { body = [] },
          record empty_request {
            path = (until b'?' decoded).0;
            query = elim q [ some query ↦ query | none ↦ [] ];
            method = method_of method;
            headers = all_headers s.headers [];
            version = http_2_0;
            stream_id = some s.stream_id;
            body = s.body;
          },
        )

  -- `finish_stream`, with what it leaves of the stream, whose body it moves out.
  unfoldable pub finish_stream : Stream → Outcome (Stream × HttpRequest)
  unfolding finish_request error_request get_header
  finish_stream s = elim (get_header (codes ":path") s.headers) [
    | none ↦ ok (s, error_request s)
    | some path ↦ elim (get_header (codes ":method") s.headers) [
      | none ↦ ok (s, error_request s)
      | some method ↦ finish_request path method s
    ]
  ]
