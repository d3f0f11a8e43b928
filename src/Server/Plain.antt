-- ===== src/Server/Plain.antt =====
-- `server<http>::on_read` of src/servers/http.cpp: one read of an HTTP/1 connection. What the
-- application makes of a request is the argument `answer`, as in Server/Packets; `send` is taken to
-- succeed, and what it is given is kept in `sent`.
pub mod Exchange
pub mod Tests
use rite.Prelude.{ℕ, ◌+◌, List, [], ◌∷◌, ◌++◌, Bool, true, false, Option, none, some, if◌then◌else◌}
use rite.Outcome.{Outcome, ok, throws}
use rite.Http.Request.{HttpRequest, empty_request}
use rite.Http.Parser.{parse_request}
use rite.Http.Response.{HttpResponse, serialize_response}
use rite.Server.Respond.{Buffer}
use rite.Server.Packets.{Answer, buffers, Handler, Read, packet, end_of_file, failed}

-- A `connection<plain>`.
pub record Peer : Type 0 where
  pub sent : List ℕ
  pub taken : ℕ
  pub released : ℕ
  pub closed : Bool

abbrev pub write : List ℕ → Peer → Peer
write bytes p = record p { sent = p.sent ++ bytes }

abbrev pub take_peer : Peer → Peer
take_peer p = record p { taken = p.taken + 1 }

abbrev pub release_peer : Peer → Peer
release_peer p = record p { released = p.released + 1 }

-- The loop over the buffers, and whether the last one has come; if it has not, the loop waits.
pub write_body : List Buffer → Peer → Peer × Bool
write_body [] p = (p, false)
write_body (b ∷ bs) p =
    let written = write b.bytes p in
    let rest = write_body bs written in if b.last then (written, true) else rest

module _ (scan_hex : List ℕ → Option ℕ) (print_number : ℕ → List ℕ) (answer : Handler) where
  -- The function that is passed to `handle`.
  unfoldable pub finish_response : HttpResponse → List Buffer → Peer → Peer
  unfolding write_body
  finish_response r bufs p =
      let (written, ended) = write_body bufs (write (serialize_response print_number r) p) in
      if ended then release_peer written else written

  unfoldable pub deliver_to_peer : Option Answer → Peer → Peer
  unfolding finish_response
  deliver_to_peer none p = p
  deliver_to_peer (some a) p = finish_response a.response (buffers a) p

  -- The branch of a request: `socket->take()`, and `handle`.
  unfoldable pub on_success : HttpRequest → Peer → Peer × Outcome (Unit {0})
  unfolding deliver_to_peer
  on_success req p = (deliver_to_peer (answer req).0 (take_peer p), (answer req).1)

  -- The release at the end, which an exception skips.
  pub after_success : Peer × Outcome (Unit {0}) → Peer × Outcome (Unit {0})
  after_success (p, ok u) = (release_peer p, ok tt)
  after_success (p, throws e) = (p, throws e)

  -- A request that cannot be parsed is not answered; an exception leaves `on_read` as it is.
  pub after_parse : Outcome (Bool × HttpRequest) → Peer → Peer × Outcome (Unit {0})
  unfolding on_success after_success
  after_parse (ok (true, req)) p = after_success (on_success req p)
  after_parse (ok (false, req)) p = (release_peer p, ok tt)
  after_parse (throws e) p = (p, throws e)

  pub on_read : Read → Peer → Peer × Outcome (Unit {0})
  unfolding after_parse
  on_read (packet bytes) p = after_parse (parse_request scan_hex bytes empty_request) p
  on_read end_of_file p = (record (release_peer p) { closed = true }, ok tt)
  on_read failed p = (record (release_peer p) { closed = true }, ok tt)
