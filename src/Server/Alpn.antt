-- ===== src/Server/Alpn.antt =====
-- `alpn_select_cb` of include/protocols/https.hpp: which application protocol the server picks from
-- the list that a client offers, names of one length byte and so many characters each.
pub mod Offers
use rite.Prelude.{
  ℕ, zero, suc, List, [], ◌∷◌, Bool, ◌&&◌, ltb, ◌==◌, bytes_eq, if◌then◌else◌, length, take, drop,
}
use rite.Text.{codes}
use rite.Outcome.{Outcome, ok, throws, stuck}

-- SSL_TLSEXT_ERR_OK with `*out` and `*outlen`, and SSL_TLSEXT_ERR_NOACK.
pub data Selection : Type 0 where
  selected : List ℕ → Selection
  no_ack : Selection

abbrev pub h2 : List ℕ
h2 = codes "h2"

-- `len == 2 && memcmp(in + 1, "h2", 2) == 0`, where `rest` starts at `in + 1`.
abbrev pub is_h2 : ℕ → List ℕ → Bool
is_h2 len rest = len == 2 && bytes_eq (take 2 rest) h2

-- The loop; the bytes are the ones from `in` on, and `inlen` is their number.
select_from : ℕ → List ℕ → Outcome Selection
select_from fuel [] = ok no_ack
select_from zero (len ∷ rest) = throws stuck
select_from (suc fuel) (len ∷ rest) =
    let next = select_from fuel (drop len rest) in
    if ltb (length rest) len
    then ok no_ack
    else if is_h2 len rest
    then ok (selected (take len rest))
    else next

pub alpn_select : List ℕ → Outcome Selection
unfolding select_from
alpn_select bytes = select_from (length bytes) bytes
