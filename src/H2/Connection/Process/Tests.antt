-- ===== src/H2/Connection/Process/Tests.antt =====
-- Concrete runs of `process`, and the theorems at them.
use rite.Prelude.{ℕ, ◌≡◌, refl, List, [], ◌∷◌, ◌++◌, Option, none}
use rite.H2.Frame.{pack, unpack, header_bytes}
use rite.H2.Hpack.StaticTable.{static_header_table}
use rite.H2.Hpack.{Parser}
use rite.H2.Connection.{
  Connection, accepted, read_frame, wait_client_settings, idle, fill, read_header, write_frame,
  settings,
}
use rite.H2.Connection.Process.{
  process, client_preface_text, returns, process_state, process_preface, process_settings,
  settings_read, first_settings,
}
use rite.H2.Connection.Process.Order.{IsOrdered, start, packet, Runs-IsOrdered, server_preface}

abbrev pub fresh : Parser
fresh = record { header_map = []; decoded = []; static_table = static_header_table }

abbrev pub new : Connection
new = accepted fresh

abbrev pub no_scan : List ℕ → Option ℕ
no_scan text = none

-- The preface, then the first SETTINGS frame.
preface_taken :
    process no_scan (client_preface_text ++ (7 ∷ [])) new
    ≡ returns settings (7 ∷ []) (record new { state = wait_client_settings })
unfolding process process_state process_preface
preface_taken = refl

pub preface_alone :
    process no_scan client_preface_text new
    ≡ returns settings [] (record new { state = wait_client_settings })
unfolding process process_state process_preface
preface_alone = refl

abbrev waiting : Connection
waiting = record new { state = wait_client_settings }

settings_answered :
    process no_scan server_preface waiting
    ≡ returns settings [] (record waiting { state = idle; sent = server_preface })
unfolding process process_state process_settings settings_read first_settings read_frame read_header
    fill unpack write_frame pack header_bytes
settings_answered = refl

Runs-IsOrdered_example :
    IsOrdered (process no_scan server_preface (process no_scan client_preface_text new).0).0
Runs-IsOrdered_example =
    Runs-IsOrdered no_scan fresh _ (packet (packet start client_preface_text) server_preface)
