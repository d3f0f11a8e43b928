-- ===== src/Server/Packets/Tests.antt =====
-- Concrete runs of the loop over the reads, and the theorems at concrete inputs.
use rite.Prelude.{ℕ, ◌+◌, ◌/◌, ◌%◌, ◌≡◌, refl, List, [], ◌∷◌, arith, true, some}
use rite.Text.{codes}
use rite.Outcome.{ok}
use rite.H2.Connection.{wait_client_settings}
use rite.H2.Connection.Process.{client_preface_text}
use rite.H2.Connection.Process.Tests.{new, no_scan, preface_alone}
use rite.H2.Connection.Process.Order.{server_preface}
use rite.Server.Packets.{
  Socket, Read, packet, end_of_file, Handler, Answer, after_step, packet_loop, on_packet, caught,
  next_round, on_read,
}
use rite.Server.Packets.References.{Returned, rounds, on_read-Returned}
use rite.Server.Packets.Progress.{Run, packet_loop-Run}

abbrev pub three_digits : ℕ → List ℕ
three_digits n = (48 + n / 100) ∷ (48 + n / 10 % 10) ∷ (48 + n % 10) ∷ []

abbrev pub hello : Answer
hello = record {
  response = record { status_code = 200; headers = [] };
  chunks = codes "h" ∷ [];
  final = codes "i";
}

abbrev pub page : Handler
page req = (some hello, ok tt)

abbrev pub socket : Socket
socket = record { h2 = new; taken = 1; released = 0 }

-- The client preface, and the end of the connection.
abbrev preface_reads : List Read
preface_reads = packet client_preface_text ∷ end_of_file ∷ []

abbrev left : Socket
left = record {
  h2 = record new { state = wait_client_settings; closed = true };
  taken = 1;
  released = 2;
}

preface_run : on_read no_scan three_digits page preface_reads socket ≡ (left, ok tt)
unfolding on_read on_packet packet_loop after_step caught next_round
preface_run = rw (preface_alone) refl

rounds_run : rounds preface_reads ≡ 2
unfolding rounds
rounds_run = refl

on_read-Returned_example : Returned (rounds preface_reads) socket left
on_read-Returned_example =
    on_read-Returned no_scan three_digits page (λ req. (hello, refl)) preface_reads socket left
      preface_run

packet_loop-Run_example :
    Run no_scan three_digits page server_preface socket
      (packet_loop no_scan three_digits page 9 server_preface socket)
packet_loop-Run_example =
    packet_loop-Run no_scan three_digits page 9 server_preface socket tt (omega arith)
