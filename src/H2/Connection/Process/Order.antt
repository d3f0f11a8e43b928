-- ===== src/H2/Connection/Process/Order.antt =====
-- The order in which a connection passes through its states, and what it has sent by then.
use rite.Prelude.{
  ℕ, ◌≡◌, refl, ap, ◌∙◌, List, [], ◌∷◌, ◌++◌, not, ◌==◌, bytes_eq, ◌%◌, append_assoc, take, Option,
}
use rite.Outcome.{FrameState}
use rite.H2.Frame.{Frame, type_settings, empty_frame, pack, header_bytes}
use rite.H2.Hpack.{Parser}
use rite.H2.Connection.{
  ConnectionState, client_preface, wait_client_settings, idle, opened, rsv_local, hc_remote,
  Connection, ReadFrame, got, unexpected, read_frame, write_frame, terminate, accepted,
}
use rite.H2.Connection.Process.{
  process_preface, first_settings, settings_read, process_settings, process_state, process,
  client_preface_text,
}
use rite.H2.Connection.Process.Growth.{both, read_frame-Quiet, process_frame-Grows}

-- Our own SETTINGS frame, which is empty.
abbrev pub server_preface : List ℕ
server_preface = 0 ∷ 0 ∷ 0 ∷ 4 ∷ 0 ∷ 0 ∷ 0 ∷ 0 ∷ 0 ∷ []

-- Nothing is sent before the client's preface and its first SETTINGS frame have come, and from then
-- on what was sent starts with the server preface.
abbrev pub InState : ConnectionState → Connection → Type 0
InState client_preface c = c.sent ≡ []
InState wait_client_settings c = c.sent ≡ []
InState idle c = (later : List ℕ) × (c.sent ≡ server_preface ++ later)
InState opened c = ⊥
InState rsv_local c = ⊥
InState hc_remote c = ⊥

abbrev pub IsOrdered : Connection → Type 0
IsOrdered c = InState c.state c

-- A state is kept or is left for the next one.
pub data Follows : ConnectionState → ConnectionState → Type 0 where
  stays : {s : ConnectionState} → Follows s s
  after_preface : Follows client_preface wait_client_settings
  after_settings : Follows wait_client_settings idle

abbrev Fine : ConnectionState → Connection → Type 0
Fine s d = IsOrdered d × Follows s d.state

Fine-intro :
    (s t : ConnectionState) (d : Connection) → d.state ≡ t → InState t d → Follows s t → Fine s d
Fine-intro s t d e o f = (simp e o, simp e f)

process_preface-Fine :
    (bytes : List ℕ) (c : Connection)
    → c.state ≡ client_preface
    → c.sent ≡ []
    → Fine client_preface (process_preface bytes c).0
unfolding process_preface
process_preface-Fine bytes c at unsent =
    both (Fine client_preface) (bytes_eq (take 24 bytes) client_preface_text) _ _
      (unsent, after_preface) (Fine-intro _ client_preface c at unsent stays)

preface_sent :
    (c : Connection)
    → c.sent ≡ []
    → (write_frame (record empty_frame { type = type_settings }) c).sent ≡ server_preface
unfolding write_frame pack header_bytes
preface_sent c unsent = rw unsent refl

first_settings-Fine :
    (f : Frame) (rest : List ℕ) (c : Connection)
    → c.state ≡ wait_client_settings
    → c.sent ≡ []
    → Fine wait_client_settings (first_settings f rest c).0
unfolding first_settings terminate
first_settings-Fine f rest c at unsent =
    both (Fine wait_client_settings) (not (f.type == type_settings)) _ _
      (Fine-intro _ wait_client_settings c at unsent stays)
      (both (Fine wait_client_settings) (not (f.length % 6 == 0)) _ _
        (Fine-intro _ wait_client_settings _ at unsent stays)
        (([], preface_sent c unsent), after_settings))

settings_read-Fine :
    (c : Connection) (r : ReadFrame)
    → c.state ≡ wait_client_settings
    → c.sent ≡ []
    → Fine wait_client_settings (settings_read c r).0
unfolding settings_read
settings_read-Fine c (got f rest) at unsent = first_settings-Fine f rest c at unsent
settings_read-Fine c (unexpected FrameState.insufficient_data rest) at unsent =
    Fine-intro _ wait_client_settings c at unsent stays
settings_read-Fine c (unexpected FrameState.invalid rest) at unsent =
    Fine-intro _ wait_client_settings c at unsent stays
settings_read-Fine c (unexpected FrameState.too_big rest) at unsent =
    Fine-intro _ wait_client_settings c at unsent stays

process_settings-Fine :
    (bytes : List ℕ) (c : Connection)
    → c.state ≡ wait_client_settings
    → c.sent ≡ []
    → Fine wait_client_settings (process_settings bytes c).0
unfolding process_settings
process_settings-Fine bytes c at unsent =
    let (state, sent) = read_frame-Quiet bytes c in
    settings_read-Fine (read_frame bytes c).0 (read_frame bytes c).1 (state ∙ at) (sent ∙ unsent)

module _ (scan_hex : List ℕ → Option ℕ) where
  process_state-Fine :
      (s : ConnectionState) (bytes : List ℕ) (c : Connection)
      → c.state ≡ s
      → InState s c
      → Fine s (process_state scan_hex s bytes c).0
  unfolding process_state
  process_state-Fine client_preface bytes c at o = process_preface-Fine bytes c at o
  process_state-Fine wait_client_settings bytes c at o = process_settings-Fine bytes c at o
  process_state-Fine idle bytes c at (later, split) =
      let grown = process_frame-Grows scan_hex bytes c in
      Fine-intro idle idle _ (grown.same ∙ at)
        (
          later ++ grown.added,
          grown.split
              ∙ ap (λ l. l ++ grown.added) split
              ∙ append_assoc server_preface later grown.added,
        )
        stays
  process_state-Fine opened bytes c at o = absurd o
  process_state-Fine rsv_local bytes c at o = absurd o
  process_state-Fine hc_remote bytes c at o = absurd o

  -- `process` keeps the order: on any bytes, from a connection that has sent what its state says, it
  -- leaves one that has sent what its state says, and keeps the state or goes on to the next one: from
  -- the client's preface to its settings, and from there to the idle state, which it never leaves.
  process-IsOrdered :
      (bytes : List ℕ) (c : Connection)
      → IsOrdered c
      → IsOrdered (process scan_hex bytes c).0 × Follows c.state (process scan_hex bytes c).0.state
  unfolding process
  process-IsOrdered [] c o = (o, stays)
  process-IsOrdered (b ∷ bytes) c o = process_state-Fine c.state (b ∷ bytes) c refl o

  -- Any sequence of packets, whatever becomes of each.
  pub data Runs : Connection → Connection → Type 0 where
    start : {c : Connection} → Runs c c
    packet : {c d : Connection} → Runs c d → (bytes : List ℕ) → Runs c (process scan_hex bytes d).0

  -- Whatever packets a connection has been given since it was accepted, it is in one of the states
  -- before or in IDLE, never in OPEN, RSV_LOCAL or HC_REMOTE; it has sent nothing before IDLE, and in
  -- IDLE what it has sent starts with its own empty SETTINGS frame.
  pub Runs-IsOrdered : (rx : Parser) (d : Connection) → Runs (accepted rx) d → IsOrdered d
  Runs-IsOrdered rx d start = refl
  Runs-IsOrdered rx d (packet before bytes) =
      (process-IsOrdered bytes _ (Runs-IsOrdered rx _ before)).0
