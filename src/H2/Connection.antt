-- ===== src/H2/Connection.antt =====
-- `connection<h2::protocol>` of src/protocols/h2/connection.cpp and
-- include/protocols/h2/connection.hpp: from the bytes of a packet to frames, and from frames to
-- requests. The position in a packet is the list of the bytes from it on. What `write` passes to the
-- TLS layer is kept in `sent`, and `close` in `closed`. The lock is not modelled: `process` holds it
-- throughout.
pub mod Uri
pub mod Requests
pub mod Process
pub mod Reading
pub mod Streams
mod Tests
use rite.Prelude.{
  ℕ, zero, suc, ◌+◌, ◌-◌, ◌%◌, List, [], ◌∷◌, ◌++◌, Bool, true, false, not, ◌||◌, Option, none,
  some, ltb, ◌==◌, bytes_eq, if◌then◌else◌, length, take, drop, replicate, min,
}
use rite.Text.{codes}
use rite.Outcome.{
  Outcome, ok, throws, FrameState, HpackError, Failure, runtime_error, exited, undefined,
}
use rite.H2.Frame.{
  Frame, pack, unpack, empty_frame, max_frame_size, type_data, type_headers, type_rst_stream,
  type_settings, type_ping, type_window_update, type_continuation, settings_ack, ping_ack,
  data_end_stream,
}
use rite.H2.Headers.{has_flag, end_stream}
use rite.H2.Huffman.{lookup, assign}
use rite.H2.Hpack
use rite.H2.Hpack.{Parser}
use rite.Http.Request.{HttpRequest, empty_request}
use rite.H2.Connection.Requests.{StreamState, Stream, empty_stream, finish_stream}

pub data ConnectionState : Type 0 where
  client_preface wait_client_settings idle opened rsv_local hc_remote : ConnectionState

-- `connection<h2::protocol>::result`.
pub data Result : Type 0 where
  new_request settings invalid eof more : Result

pub record Connection : Type 0 where
  pub state : ConnectionState
  pub unfinished_frame : Option Frame
  pub rx : Parser
  pub streams : List (ℕ × Stream)
  pub request : HttpRequest
  pub closed : Bool
  pub sent : List ℕ

-- What the constructor makes of a TLS connection; the static table is that of the process.
abbrev pub accepted : Parser → Connection
accepted rx = record {
  state = client_preface;
  unfinished_frame = none;
  rx = rx;
  streams = [];
  request = empty_request;
  closed = false;
  sent = [];
}

-- The frame, or the reason why there is none, and the position.
pub data ReadFrame : Type 0 where
  got : Frame → List ℕ → ReadFrame
  unexpected : FrameState → List ℕ → ReadFrame

-- From the accumulation of the payload on.
fill : Frame → List ℕ → Connection → Connection × ReadFrame
fill frame bytes c =
    let taken = min (length bytes) (frame.length - length frame.payload) in
    let filled = record frame { payload = frame.payload ++ take taken bytes } in
    if ltb (length filled.payload) filled.length
    then (
      record c { unfinished_frame = some filled },
      unexpected FrameState.insufficient_data (drop taken bytes),
    )
    else (record c { unfinished_frame = none }, got filled (drop taken bytes))

-- The frame header; `frame_{}` is a frame of zeros. `pos` moves past a header that is accepted.
read_header : List ℕ → Connection → Connection × ReadFrame
unfolding fill
read_header bytes c =
    let (fits, frame) = unpack empty_frame (take 9 bytes) in
    if ltb (length bytes) 9
    then (c, unexpected FrameState.invalid bytes)
    else if not fits
    then (c, unexpected FrameState.invalid bytes)
    else if ltb max_frame_size frame.length
    then (c, unexpected FrameState.too_big bytes)
    else fill frame (drop 9 bytes) c

pub read_frame : List ℕ → Connection → Connection × ReadFrame
unfolding fill read_header
read_frame bytes c = elim c.unfinished_frame [
  | some frame ↦ fill frame bytes c
  | none ↦ read_header bytes c
]

-- `write(frame)`: the packed header, then the payload.
unfoldable pub write_frame : Frame → Connection → Connection
write_frame frame c = record c { sent = c.sent ++ (pack frame (replicate 9 0)).1 ++ frame.payload }

unfoldable pub terminate : Connection → Connection
terminate c = record c { closed = true }

-- `streams_[id]`, which makes a stream where there is none.
unfoldable pub stream_at : ℕ → Connection → Stream
unfolding lookup
stream_at id c = elim (lookup id c.streams) [ some s ↦ s | none ↦ empty_stream ]

unfoldable pub set_stream : ℕ → Stream → Connection → Connection
unfolding assign
set_stream id s c = record c { streams = assign id s c.streams }

abbrev pub update_stream : ℕ → (Stream → Stream) → Connection → Connection
update_stream id f c = set_stream id (f (stream_at id c)) c
