-- ===== src/Server/Accept/Tests.antt =====
-- A client that offers only HTTP/1.1, and its first packet.
use rite.Prelude.{ℕ, ◌≡◌, refl, List, [], ◌∷◌, ◌++◌, none, if◌then◌else◌}
use rite.Text.{codes}
use rite.Outcome.{ok, throws, exited}
use rite.H2.Connection.Process.Tests.{new, no_scan}
use rite.Server.Alpn.{Selection, selected, no_ack, h2, alpn_select}
use rite.Server.Alpn.Offers.{offer, offers_h2, Cut}
use rite.Server.Packets.{Socket, packet, Handler, on_read}
use rite.Server.Accept.{on_accept, read_accepted}
use rite.Server.Accept.Offered.{read_accepted-offer}

abbrev only_http1 : List ℕ
only_http1 = 8 ∷ codes "http/1.1"

abbrev name_of : Selection → List ℕ
name_of (selected name) = name
name_of no_ack = []

abbrev no_number : ℕ → List ℕ
no_number n = []

abbrev later : Handler
later req = (none, ok tt)

abbrev socket : Socket
socket = record { h2 = new; taken = 1; released = 0 }

read_accepted-offer_example :
    (names : List (List ℕ)) × (tail : List ℕ) × (selection : Selection) × (only_http1
      ≡ offer names ++ tail)
    × Cut tail
    × (alpn_select only_http1 ≡ ok selection)
    × (selection ≡ (if offers_h2 names then selected h2 else no_ack))
    × (read_accepted no_scan no_number later
          (on_accept (name_of selection))
          (packet (codes "GET /") ∷ [])
          socket
        ≡ (if offers_h2 names
            then on_read no_scan no_number later (packet (codes "GET /") ∷ []) socket
            else (socket, throws exited)))
read_accepted-offer_example =
    read_accepted-offer name_of (λ name. refl) refl no_scan no_number later only_http1
      (codes "GET /") [] socket
