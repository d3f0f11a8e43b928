-- ===== src/Server/Accept.antt =====
-- `server<https>::on_accept` of src/https.cpp: which kind of connection a client gets, and what
-- `on_read` does with a read of either kind. A handshake that fails makes no connection.
pub mod Offered
mod Tests
use rite.Prelude.{
  ℕ, List, [], ◌∷◌, Bool, true, ◌&&◌, Option, leb, bytes_eq, if◌then◌else◌, length, take,
}
use rite.Outcome.{Outcome, ok, throws, exited}
use rite.Server.Alpn.{h2}
use rite.Server.Packets.{Socket, Read, packet, end_of_file, failed, Handler, release_ref, on_read}

-- A `connection<h2::protocol>`, and a `connection<tls>`.
pub data Accepted : Type 0 where
  http2 tls : Accepted

-- `alpn` is what SSL_get0_alpn_selected gives.
unfoldable pub on_accept : List ℕ → Accepted
on_accept alpn = if leb 2 (length alpn) && bytes_eq (take 2 alpn) h2 then http2 else tls

module _ (scan_hex : List ℕ → Option ℕ) (print_number : ℕ → List ℕ) (answer : Handler) where
  -- The first packet of a connection that is not HTTP/2 ends the process.
  unfoldable pub read_accepted : Accepted → List Read → Socket → Socket × Outcome (Unit {0})
  read_accepted http2 reads s = on_read scan_hex print_number answer reads s
  read_accepted tls [] s = (s, ok tt)
  read_accepted tls (packet bytes ∷ reads) s = (s, throws exited)
  read_accepted tls (end_of_file ∷ reads) s =
      (record (release_ref s) { h2 = record s.h2 { closed = true } }, ok tt)
  read_accepted tls (failed ∷ reads) s = (release_ref s, ok tt)
