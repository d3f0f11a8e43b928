-- ===== src/Server/Plain/Exchange.antt =====
-- What `on_read` sends, and the references it gives back.
use rite.Prelude.{
  ℕ, ◌+◌, ◌≡◌, refl, ap, ◌∙◌, List, [], ◌∷◌, ◌++◌, true, false, Option, none, some, map,
  append_assoc,
}
use rite.Outcome.{Outcome, ok, throws, Failure}
use rite.Http.Request.{HttpRequest, empty_request}
use rite.Http.Parser.{parse_request}
use rite.Http.Response.{serialize_response}
use rite.Server.Respond.{Buffer}
use rite.Server.Packets.{Answer, buffers, Handler, Read, packet, end_of_file, failed}
use rite.Server.Plain.{
  Peer, write, take_peer, write_body, finish_response, deliver_to_peer, after_success,
}

abbrev pub joined : List (List ℕ) → List ℕ → List ℕ
joined [] final = final
joined (c ∷ cs) final = c ++ joined cs final

abbrev chunked : List (List ℕ) → List ℕ → List Buffer
chunked chunks final =
    map (λ b. record { bytes = b; last = false }) chunks
    ++ (record { bytes = final; last = true } ∷ [])

write_body-chunked :
    (chunks : List (List ℕ)) (final : List ℕ) (p : Peer)
    → write_body (chunked chunks final) p ≡ (write (joined chunks final) p, true)
unfolding write_body
write_body-chunked [] final p = refl
write_body-chunked (c ∷ cs) final p =
    write_body-chunked cs final (write c p)
    ∙ ap (λ l. (record p { sent = l }, true)) (append_assoc p.sent c (joined cs final))

module _ (scan_hex : List ℕ → Option ℕ) (print_number : ℕ → List ℕ) (answer : Handler) where
  -- The whole of a response.
  pub response_text : Answer → List ℕ
  response_text a = serialize_response print_number a.response ++ joined a.chunks a.final

  abbrev replied_to : Answer → Peer → Peer
  replied_to a p = record p {
    sent = p.sent ++ response_text a;
    taken = p.taken + 1;
    released = p.released + 1;
  }

  delivered :
      (a : Answer) (p : Peer)
      → deliver_to_peer scan_hex print_number answer (some a) (take_peer p) ≡ replied_to a p
  unfolding deliver_to_peer finish_response buffers response_text
  delivered a p =
      rw
        (write_body-chunked a.chunks a.final
          (write (serialize_response print_number a.response) (take_peer p)))
        (ap (λ l. record p { sent = l; taken = p.taken + 1; released = p.released + 1 })
          (append_assoc p.sent (serialize_response print_number a.response)
            (joined a.chunks a.final)))

  -- How a read ends: at the end of the connection or on an error it is closed; a text that is no
  -- request is dropped; a request finds a response or none, from a handler that returns or throws; the
  -- parser throws. What is thrown leaves the read before its own reference is given back.
  pub data Exchanged (p : Peer) : Read → Peer × Outcome (Unit {0}) → Type 0 where
    at_end : Exchanged p end_of_file (record p { released = p.released + 1; closed = true }, ok tt)
    on_error : Exchanged p failed (record p { released = p.released + 1; closed = true }, ok tt)
    refused :
        {bytes : List ℕ} {req : HttpRequest}
        → parse_request scan_hex bytes empty_request ≡ ok (false, req)
        → Exchanged p (packet bytes) (record p { released = p.released + 1 }, ok tt)
    unparsed :
        {bytes : List ℕ} {e : Failure}
        → parse_request scan_hex bytes empty_request ≡ throws e
        → Exchanged p (packet bytes) (p, throws e)
    replied :
        {bytes : List ℕ} {req : HttpRequest} {a : Answer}
        → parse_request scan_hex bytes empty_request ≡ ok (true, req)
        → answer req ≡ (some a, ok tt)
        → Exchanged p (packet bytes) (
          record p {
            sent = p.sent ++ response_text a;
            taken = p.taken + 1;
            released = p.released + 1 + 1;
          },
          ok tt,
        )
    replied_thrown :
        {bytes : List ℕ} {req : HttpRequest} {a : Answer} {e : Failure}
        → parse_request scan_hex bytes empty_request ≡ ok (true, req)
        → answer req ≡ (some a, throws e)
        → Exchanged p (packet bytes) (
          record p {
            sent = p.sent ++ response_text a;
            taken = p.taken + 1;
            released = p.released + 1;
          },
          throws e,
        )
    waiting :
        {bytes : List ℕ} {req : HttpRequest}
        → parse_request scan_hex bytes empty_request ≡ ok (true, req)
        → answer req ≡ (none, ok tt)
        → Exchanged p
            (packet bytes)
            (record p { taken = p.taken + 1; released = p.released + 1 }, ok tt)
    thrown :
        {bytes : List ℕ} {req : HttpRequest} {e : Failure}
        → parse_request scan_hex bytes empty_request ≡ ok (true, req)
        → answer req ≡ (none, throws e)
        → Exchanged p (packet bytes) (record p { taken = p.taken + 1 }, throws e)

  abbrev finished_with : Option Answer × Outcome (Unit {0}) → Peer → Peer × Outcome (Unit {0})
  finished_with given p =
      after_success scan_hex print_number answer
        (deliver_to_peer scan_hex print_number answer given.0 (take_peer p), given.1)
