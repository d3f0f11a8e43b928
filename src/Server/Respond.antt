-- ===== src/Server/Respond.antt =====
-- The `finish` function of src/https.cpp: a response as a HEADERS frame and DATA frames. The handler's
-- channel is the list of the buffers that it delivers, in their order; `SSL_write` is taken to succeed.
pub mod Slices
pub mod Wire
pub mod Delivery
use rite.Prelude.{
  ℕ, zero, suc, ◌-◌, ◌≤◌, List, [], ◌∷◌, ◌++◌, Bool, true, false, ◌&&◌, leb, if◌then◌else◌, length,
  take, drop, min, map,
}
use rite.Text.{codes}
use rite.H2.Frame.{Frame, type_data, data_end_stream}
use rite.H2.Hpack.StaticTable.{Header, static_header_table}
use rite.H2.Hpack.Serializer.{serialize, finish}
use rite.H2.Connection.{Connection, write_frame, update_stream}
use rite.H2.Connection.Requests.{StreamState}
use rite.Http.Response.{HttpResponse}

-- `rite::buffer`; `len` is the number of its bytes, and 0 for `buffer::finish()`.
pub record Buffer : Type 0 where
  pub bytes : List ℕ
  pub last : Bool

abbrev pub finish_buffer : Buffer
finish_buffer = record { bytes = []; last = true }

abbrev pub slice_limit : ℕ
slice_limit = 16384

-- One DATA frame, for what is left of the buffer from `offset` on.
unfoldable pub data_frame : ℕ → Bool → List ℕ → Frame
data_frame stream_id last rest =
    let slice_size = min slice_limit (length rest) in
    record {
      length = slice_size;
      type = type_data;
      flags = if leb (length rest) slice_size && last then data_end_stream else 0;
      stream_identifier = stream_id;
      payload = take slice_size rest;
    }

-- The inner loop.
unfoldable pub slices : ℕ → ℕ → Bool → List ℕ → List Frame
unfolding data_frame
slices fuel stream_id last [] = []
slices zero stream_id last (b ∷ rest) = []
slices (suc fuel) stream_id last (b ∷ rest) =
    data_frame stream_id last (b ∷ rest) ∷ slices fuel stream_id last (drop slice_limit (b ∷ rest))

-- The outer loop, `do ... while (!buf.last)`: the frames, and whether the last buffer has come; if it
-- has not, the loop waits.
unfoldable pub body_frames : ℕ → List Buffer → List Frame × Bool
unfolding slices
body_frames stream_id [] = ([], false)
body_frames stream_id (b ∷ bs) =
    let (frames, ended) = body_frames stream_id bs in
    let own = slices (length b.bytes) stream_id b.last b.bytes in
    if b.last then (own, true) else (own ++ frames, ended)

unfoldable pub write_frames : List Frame → Connection → Connection
write_frames [] c = c
write_frames (f ∷ fs) c = write_frames fs (write_frame f c)

module _ (print_number : ℕ → List ℕ) where
  -- `headers_`: the status first, then the response's own.
  unfoldable pub response_headers : HttpResponse → List Header
  response_headers r =
      record { key = codes ":status"; value = print_number r.status_code }
      ∷ map (λ kv. record { key = kv.0; value = kv.1 }) r.headers

  -- The frames; the table is that of the process, which the parsers share. The serializer's payload is empty when it starts, as `finish` has moved it out.
  unfoldable pub response_frames :
      (table : List (ℕ × Header)) → ℕ → HttpResponse → List Buffer → List Frame × Bool
  unfolding response_headers body_frames
  response_frames table stream_id r bufs =
      let (body, ended) = body_frames stream_id bufs in
      ((finish (serialize table [] (response_headers r)) stream_id).1 ∷ body, ended)

  -- What the loops write, and the state of the stream when they have ended.
  unfoldable pub respond : ℕ → HttpResponse → List Buffer → Connection → Connection
  unfolding write_frames response_frames
  respond stream_id r bufs c =
      let (frames, ended) = response_frames c.rx.static_table stream_id r bufs in
      let written = write_frames frames c in
      if ended
      then update_stream stream_id (λ s. record s { state = StreamState.closed }) written
      else written
