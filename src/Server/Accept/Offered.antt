-- ===== src/Server/Accept/Offered.antt =====
-- What a client gets for the protocols that it offers.
use rite.Prelude.{
  ℕ, ◌≡◌, refl, ap, ◌∙◌, List, [], ◌∷◌, ◌++◌, Bool, true, false, Option, if◌then◌else◌,
}
use rite.Outcome.{ok, throws, exited}
use rite.Server.Alpn.{Selection, selected, no_ack, h2, alpn_select}
use rite.Server.Alpn.Offers.{offer, offers_h2, Cut, answer, alpn_select-offer}
use rite.Server.Packets.{Socket, Read, packet, Handler, on_read}
use rite.Server.Accept.{http2, tls, on_accept, read_accepted}

module _ (alpn_selected : Selection → List ℕ)
    (of_selected : (name : List ℕ) → alpn_selected (selected name) ≡ name)
    (of_none : alpn_selected no_ack ≡ []) where
  accepted_as :
      (offered : Bool)
      → on_accept (alpn_selected (if offered then selected h2 else no_ack))
        ≡ (if offered then http2 else tls)
  unfolding on_accept
  accepted_as true = ap on_accept (of_selected h2)
  accepted_as false = ap on_accept of_none

  module _ (scan_hex : List ℕ → Option ℕ) (print_number : ℕ → List ℕ) (answer_to : Handler) where
    read_as :
        (offered : Bool) (bytes : List ℕ) (reads : List Read) (s : Socket)
        → read_accepted scan_hex print_number answer_to
            (if offered then http2 else tls)
            (packet bytes ∷ reads)
            s
          ≡ (if offered
              then on_read scan_hex print_number answer_to (packet bytes ∷ reads) s
              else (s, throws exited))
    unfolding read_accepted
    read_as true bytes reads s = refl
    read_as false bytes reads s = refl

    -- Whatever protocols a client offers, the bytes are a list of names with an end that may be cut
    -- off; the server picks `h2` when it is one of these names, and nothing otherwise. Then the first
    -- packet is served as HTTP/2 if `h2` was offered, and ends the process if not.
    -- SSL_get0_alpn_selected gives the name that was selected, and no bytes if there is none.
    pub read_accepted-offer :
        (protocols bytes : List ℕ) (reads : List Read) (s : Socket)
        → (names : List (List ℕ)) × (tail : List ℕ) × (selection : Selection) × (protocols
            ≡ offer names ++ tail)
          × Cut tail
          × (alpn_select protocols ≡ ok selection)
          × (selection ≡ (if offers_h2 names then selected h2 else no_ack))
          × (read_accepted scan_hex print_number answer_to
                (on_accept (alpn_selected selection))
                (packet bytes ∷ reads)
                s
              ≡ (if offers_h2 names
                  then on_read scan_hex print_number answer_to (packet bytes ∷ reads) s
                  else (s, throws exited)))
    unfolding answer
    read_accepted-offer protocols bytes reads s =
        let (names, tail, split, cut, picked) = alpn_select-offer protocols in
        (
          names,
          tail,
          answer names,
          split,
          cut,
          picked,
          refl,
          ap (λ a. read_accepted scan_hex print_number answer_to a (packet bytes ∷ reads) s)
                (accepted_as (offers_h2 names))
              ∙ read_as (offers_h2 names) bytes reads s,
        )
