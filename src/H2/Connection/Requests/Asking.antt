-- ===== src/H2/Connection/Requests/Asking.antt =====
-- A request as a client means it, and what `finish_stream` makes of its headers.
use rite.Prelude.{ℕ, ap, ◌<◌, ◌≡◌, ◌≢◌, List, [], All, Bool, false, Option, some}
use rite.Text.{codes}
use rite.Outcome.{ok}
use rite.H2.Hpack.StaticTable.{Header}
use rite.H2.Connection.Uri.RoundTrip.{uri_decode-escape}
use rite.Http.Escape.{escape}
use rite.Http.Stream.Lines.{until_whole}
use rite.Http.Query.{parse_query, after_question}
use rite.Http.Request.{HttpRequest, empty_request, http_2_0}
use rite.H2.Connection.Requests.{
  Stream, finish_stream, finish_request, get_header, all_headers, method_of,
}

-- What a client asks for, and a header list that asks for it.
pub record Wish : Type 0 where
  pub path : List ℕ
  pub method : List ℕ

pub record Asks (w : Wish) (hs : List Header) : Type 0 where
  pub safe : ℕ → Bool
  pub percent_escaped : safe 37 ≡ false
  pub plus_escaped : safe 43 ≡ false
  pub bytes : All (λ c. c < 256) w.path
  pub no_query : All (λ c. c ≢ 63) w.path
  pub path_there : get_header (codes ":path") hs ≡ some (escape safe w.path)
  pub method_there : get_header (codes ":method") hs ≡ some w.method

abbrev pub wished : Wish → List Header → ℕ → HttpRequest
wished w hs id = record empty_request {
  path = w.path;
  query = [];
  method = method_of w.method;
  headers = all_headers hs [];
  version = http_2_0;
  stream_id = some id;
  body = [];
}

pub finish_stream-Asks :
    (scan_hex : List ℕ → Option ℕ) (w : Wish) (s : Stream)
    → Asks w s.headers
    → s.body ≡ []
    → finish_stream scan_hex s ≡ ok (record s { body = [] }, wished w s.headers s.stream_id)
unfolding finish_stream finish_request parse_query after_question
finish_stream-Asks scan_hex w s a e =
    let decoded = uri_decode-escape a.safe w.path a.percent_escaped a.plus_escaped a.bytes in
    rw (a.path_there, finish_stream)
      (rw (a.method_there, finish_stream)
        (rw (decoded, finish_request)
          (rw (until_whole 63 w.path a.no_query) (
            ap
              (λ b.
                ok (record s { body = [] }, record (wished w s.headers s.stream_id) { body = b }))
              e))))
