-- ===== src/Server/Packets/Pipelining/Tests.antt =====
-- A packet with two requests.
use rite.Prelude.{ℕ, refl, List, [], ◌∷◌}
use rite.H2.VarInt
use rite.H2.Connection.Process.ReceptionTests.{
  wish, wish_headers, first_block, second_block, learned_path, first-Block, second-Block, waiting,
}
use rite.Server.Packets.{Socket}
use rite.Server.Packets.Tests.{hello}
use rite.Server.Packets.Exchange.{Exchange}
use rite.Server.Packets.Pipelining.{Speaks}

abbrev exchange : List ℕ → ℕ → Exchange
exchange block id = record {
  wish = wish;
  block = block;
  headers = wish_headers;
  id = id;
  reply = hello;
}

abbrev two_exchanges : List Exchange
two_exchanges = exchange first_block 1 ∷ exchange second_block 3 ∷ []

abbrev ready_socket : Socket
ready_socket = record { h2 = waiting; taken = 1; released = 0 }

-- The second block has the path from the dynamic table that the first one left.
abbrev both_spoken : Speaks [] two_exchanges learned_path
both_spoken = (learned_path, first-Block, (learned_path, second-Block, refl))
