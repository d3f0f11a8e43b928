-- ===== src/H2/Connection/Process.antt =====
-- `process` of src/protocols/h2/connection.cpp: the state machine of a connection, and what each kind
-- of frame does.
pub mod Arrival
pub mod Growth
pub mod Order
pub mod Passing
pub mod Progress
pub mod Reception
pub mod ReceptionTests
pub mod Tests
use rite.Prelude.{
  ℕ, ◌%◌, List, [], ◌∷◌, ◌++◌, Bool, true, false, not, ◌||◌, Option, none, some, ◌==◌, bytes_eq,
  if◌then◌else◌, take, drop, replicate,
}
use rite.Text.{codes}
use rite.Outcome.{Outcome, ok, throws, FrameState, HpackError, Failure, runtime_error, exited}
use rite.H2.Frame.{
  Frame, empty_frame, type_data, type_headers, type_rst_stream, type_settings, type_ping,
  type_window_update, type_continuation, settings_ack, ping_ack, data_end_stream,
}
use rite.H2.Headers.{has_flag, end_stream}
use rite.H2.Huffman.{lookup}
use rite.H2.Hpack
use rite.Http.Request.{HttpRequest}
use rite.H2.Connection.{
  ConnectionState, client_preface, wait_client_settings, idle, Result, new_request, settings,
  invalid, eof, more, Connection, ReadFrame, got, unexpected, read_frame, write_frame, terminate,
  stream_at, set_stream, update_stream,
}
use rite.H2.Connection.Requests.{StreamState, Stream, finish_stream}

-- `process` gives the connection, the position and the result, or how it failed.
abbrev pub Step : Type 0
Step = Connection × (List ℕ × Outcome Result)

abbrev pub returns : Result → List ℕ → Connection → Step
returns r rest c = (c, (rest, ok r))

abbrev pub fails : Failure → List ℕ → Connection → Step
fails e rest c = (c, (rest, throws e))

-- "PRI * HTTP/2.0\r\n\r\nSM\r\n\r\n"
abbrev pub client_preface_text : List ℕ
client_preface_text = codes "PRI * HTTP/2.0" ++ 13 ∷ 10 ∷ 13 ∷ 10 ∷ 83 ∷ 77 ∷ 13 ∷ 10 ∷ 13 ∷ 10 ∷ []

process_preface : List ℕ → Connection → Step
process_preface bytes c =
    if bytes_eq (take 24 bytes) client_preface_text
    then returns settings (drop 24 bytes) (record c { state = wait_client_settings })
    else fails runtime_error bytes c

-- The first SETTINGS frame: its type and its length, and our own settings in answer.
first_settings : Frame → List ℕ → Connection → Step
unfolding terminate write_frame
first_settings frame rest c =
    if not (frame.type == type_settings)
    then fails runtime_error rest c
    else if not (frame.length % 6 == 0)
    then returns invalid rest (terminate c)
    else returns settings rest
        (record (write_frame (record empty_frame { type = type_settings }) c) { state = idle })

settings_read : Connection → ReadFrame → Step
unfolding first_settings
settings_read c (got frame rest) = first_settings frame rest c
settings_read c (unexpected FrameState.insufficient_data rest) = returns more rest c
settings_read c (unexpected FrameState.invalid rest) = fails runtime_error rest c
settings_read c (unexpected FrameState.too_big rest) = fails runtime_error rest c

process_settings : List ℕ → Connection → Step
unfolding read_frame settings_read
process_settings bytes c = let r = read_frame bytes c in settings_read r.0 r.1

-- The answers to SETTINGS and PING.
abbrev pub settings_ack_frame : Frame
settings_ack_frame = record empty_frame { type = type_settings; flags = settings_ack }

abbrev pub ping_ack_frame : ℕ → Frame
ping_ack_frame id = record {
  length = 8;
  type = type_ping;
  flags = ping_ack;
  stream_identifier = id;
  payload = replicate 8 0;
}

on_settings : Frame → List ℕ → Connection → Step
unfolding write_frame
on_settings frame rest c =
    if has_flag frame.flags settings_ack
    then returns settings rest c
    else returns settings rest (write_frame settings_ack_frame c)

on_ping : Frame → List ℕ → Connection → Step
unfolding write_frame
on_ping frame rest c =
    returns settings rest (write_frame (ping_ack_frame frame.stream_identifier) c)

module _ (scan_hex : List ℕ → Option ℕ) where
  -- `request = finish_stream(streams_[id])`.
  pub finished : ℕ → List ℕ → Connection → Outcome (Stream × HttpRequest) → Step
  unfolding set_stream
  finished id rest c (ok (s, req)) =
      returns new_request rest (record (set_stream id s c) { request = req })
  finished id rest c (throws e) = fails e rest c

  finish_at : ℕ → List ℕ → Connection → Step
  unfolding finished stream_at
  finish_at id rest c = finished id rest c (finish_stream scan_hex (stream_at id c))

  -- The headers are complete: they are moved to the stream.
  headers_done : Frame → List ℕ → Connection → Step
  unfolding finish_at set_stream stream_at
  headers_done frame rest c =
      let (rx, list) = Hpack.result c.rx in
      let id = frame.stream_identifier in
      let stored = update_stream id (λ s. record s { headers = list }) (record c { rx = rx }) in
      if not (has_flag frame.flags end_stream)
      then returns more rest stored
      else finish_at id rest
          (update_stream id (λ s. record s { state = StreamState.half_closed }) stored)

  headers_parsed : Frame → List ℕ → Connection → Outcome HpackError → Step
  unfolding headers_done terminate write_frame
  headers_parsed frame rest c (ok HpackError.unknown_header) = returns invalid rest (terminate c)
  headers_parsed frame rest c (ok HpackError.invalid) = returns invalid rest (terminate c)
  headers_parsed frame rest c (ok HpackError.size_update) =
      returns more rest (write_frame settings_ack_frame c)
  headers_parsed frame rest c (ok HpackError.more) = returns more rest c
  headers_parsed frame rest c (ok HpackError.done) = headers_done frame rest c
  headers_parsed frame rest c (throws e) = fails e rest c

  on_headers : Frame → List ℕ → Connection → Step
  unfolding headers_parsed
  on_headers frame rest c =
      let live =
        update_stream frame.stream_identifier (λ s. record s { state = StreamState.opened }) c in
      let (rx, outcome) = Hpack.parse frame live.rx in
      headers_parsed frame rest (record live { rx = rx }) outcome

  -- DATA on a stream that is not there, which the caller has just made.
  on_data : Frame → List ℕ → Connection → Step
  unfolding lookup terminate finish_at set_stream stream_at
  on_data frame rest c =
      let id = frame.stream_identifier in
      let filled = update_stream id (λ s. record s { body = s.body ++ frame.payload }) c in
      elim (lookup id c.streams) [
        | none ↦ returns invalid rest (terminate c)
        | some s ↦
            if has_flag frame.flags data_end_stream
            then finish_at id rest filled
            else returns more rest filled
      ]

  pub on_frame : Frame → List ℕ → Connection → Step
  unfolding on_settings on_ping on_headers on_data
  on_frame frame rest c =
      let id = frame.stream_identifier in
      let named = update_stream id (λ s. record s { stream_id = id }) c in
      if frame.type == type_settings
      then on_settings frame rest named
      else if frame.type == type_ping
      then on_ping frame rest named
      else if frame.type == type_window_update
      then returns settings rest named
      else if frame.type == type_continuation || frame.type == type_headers
      then on_headers frame rest named
      else if frame.type == type_data
      then on_data frame rest named
      else if frame.type == type_rst_stream
      then returns more rest (update_stream id (λ s. record s { state = StreamState.closed }) named)
      else returns more rest named

  -- A frame header that is incomplete or too long ends the process.
  frame_read : Connection → ReadFrame → Step
  unfolding on_frame terminate
  frame_read c (got frame rest) = on_frame frame rest c
  frame_read c (unexpected FrameState.insufficient_data rest) = returns more rest c
  frame_read c (unexpected FrameState.invalid rest) = fails exited rest (terminate c)
  frame_read c (unexpected FrameState.too_big rest) = fails exited rest (terminate c)

  pub process_frame : List ℕ → Connection → Step
  unfolding read_frame frame_read
  process_frame bytes c = let r = read_frame bytes c in frame_read r.0 r.1

  process_state : ConnectionState → List ℕ → Connection → Step
  unfolding process_preface process_settings process_frame
  process_state client_preface bytes c = process_preface bytes c
  process_state wait_client_settings bytes c = process_settings bytes c
  process_state idle bytes c = process_frame bytes c
  process_state other bytes c = fails exited bytes c

  pub process : List ℕ → Connection → Step
  unfolding process_state
  process [] c = returns eof [] c
  process (b ∷ bytes) c = process_state c.state (b ∷ bytes) c
