-- ===== src/Server/Packets/Pipelining/Client.antt =====
-- What a client reads of the responses to the requests of a packet.
use rite.Prelude.{joined, ℕ, ◌^◌, ◌≤◌, ◌≡◌, List, [], ◌∷◌, ◌++◌, All, length, map, true, false}
use rite.Outcome.{ok, HpackError}
use rite.H2.Hpack.{Parser, parse}
use rite.H2.Hpack.StaticTable.{Header}
use rite.H2.Hpack.Fields.{IsSendable}
use rite.H2.Hpack.RoundTrip.{accept_all, arrived}
use rite.H2.Connection.{Connection}
use rite.Server.Respond.{Buffer, body_frames}
use rite.Server.Respond.Slices.{receive, filled}
use rite.Server.Respond.Delivery.{lines_of, headers_frame, header_block}
use rite.Server.Packets.{buffers}
use rite.Server.Packets.Exchange.{Exchange}

abbrev piped : List (List ℕ) → List ℕ → List Buffer
piped chunks final =
    map (λ bytes. record { bytes = bytes; last = false }) chunks
    ++ (record { bytes = final; last = true } ∷ [])

module _ (print_number : ℕ → List ℕ) where
  -- A response that the HPACK parser reads back, in one HEADERS frame.
  pub record IsAnswerable (e : Exchange) : Type 0 where
    pub sendable : All IsSendable (lines_of print_number e.reply.response)
    pub short : length (header_block print_number e.reply.response) ≤ 2 ^ 22

  -- The lines of the status and of the headers that the handler set.
  abbrev pub sent_headers : Exchange → List Header
  sent_headers e = lines_of print_number e.reply.response

  -- What a client whose HPACK parser is in this state makes of the responses: of the HEADERS frame
  -- of each the headers, and of its DATA frames the body, which is ended unless its last buffer is
  -- empty.
  abbrev pub Understood : Parser → List Exchange → Type 0
  Understood p [] = Unit
  Understood p (e ∷ es) =
      (parse (headers_frame print_number e.id e.reply.response) p
        ≡ (accept_all (sent_headers e) p, ok HpackError.done))
      × ((accept_all (sent_headers e) p).decoded ≡ p.decoded ++ arrived (sent_headers e))
      × (receive (body_frames e.id (buffers e.reply)).0
          ≡ (joined e.reply.chunks ++ e.reply.final, filled e.reply.final))
      × Understood (record (accept_all (sent_headers e) p) { decoded = [] }) es
