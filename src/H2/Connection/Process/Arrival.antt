-- ===== src/H2/Connection/Process/Arrival.antt =====
-- A request of a client: one HEADERS frame that ends its stream, and what `process` makes of it.
use rite.Prelude.{ℕ, ◌≡◌, refl, ap, ◌∙◌, List, [], ◌++◌, Option, length}
use rite.Outcome.{ok, HpackError}
use rite.H2.Frame.{Frame, type_headers}
use rite.H2.Hpack.StaticTable.{Header}
use rite.H2.Hpack.{parse, result}
use rite.H2.Hpack.Blocks.{decoded_block}
use rite.H2.Connection.{Connection, update_stream, set_stream, stream_at}
use rite.H2.Connection.Requests.{Stream, StreamState, finish_stream}
use rite.H2.Connection.Process.{
  finished, finish_at, headers_done, headers_parsed, on_headers, on_frame,
}
use rite.H2.Connection.Streams.{stream_at-update_stream, IsBodiless, set_stream-IsBodiless}

-- END_STREAM and END_HEADERS.
abbrev pub request_frame : List ℕ → ℕ → Frame
request_frame block id = record {
  length = length block;
  type = type_headers;
  flags = 5;
  stream_identifier = id;
  payload = block;
}

abbrev pub ended_stream : List Header → ℕ → Stream
ended_stream hs id = record {
  state = StreamState.half_closed;
  stream_id = id;
  headers = hs;
  body = [];
}

module _ (hs after : List Header) (id : ℕ) (c : Connection) where
  abbrev opens : Stream → Stream
  opens s = record s { state = StreamState.opened }

  abbrev heads : Stream → Stream
  heads s = record s { headers = c.rx.decoded ++ hs }

  abbrev half_closes : Stream → Stream
  half_closes s = record s { state = StreamState.half_closed }

  abbrev names : Stream → Stream
  names s = record s { stream_id = id }

  -- The connection when the headers are there, and when they are complete.
  abbrev parsed_at : Connection
  parsed_at = record (update_stream id opens (update_stream id names c)) {
    rx = record c.rx { decoded = []; header_map = after };
  }

  unfoldable pub done_at : Connection
  done_at = update_stream id half_closes (update_stream id heads parsed_at)

  pub on_frame-request_frame :
      (scan_hex : List ℕ → Option ℕ) (block rest : List ℕ)
      → parse (request_frame block id) c.rx ≡ (decoded_block hs after c.rx, ok HpackError.done)
      → on_frame scan_hex (request_frame block id) rest c
        ≡ finished scan_hex id rest done_at (finish_stream scan_hex (stream_at id done_at))
  unfolding on_frame on_headers headers_parsed headers_done finish_at finished done_at set_stream
      result stream_at
  on_frame-request_frame scan_hex block rest e =
      let live = update_stream id opens (update_stream id names c) in
      ap (λ r. headers_parsed scan_hex (request_frame block id) rest (record live { rx = r.0 }) r.1)
        e

  stream_at-parsed_at : stream_at id parsed_at ≡ opens (names (stream_at id c))
  unfolding stream_at
  stream_at-parsed_at =
      stream_at-update_stream id opens (update_stream id names c)
      ∙ ap opens (stream_at-update_stream id names c)

  pub stream_at-done_at : IsBodiless c → stream_at id done_at ≡ ended_stream (c.rx.decoded ++ hs) id
  unfolding done_at
  stream_at-done_at bodiless =
      stream_at-update_stream id half_closes (update_stream id heads parsed_at)
      ∙ ap half_closes (stream_at-update_stream id heads parsed_at)
      ∙ ap (λ s. half_closes (heads s)) stream_at-parsed_at
      ∙ ap (λ b. record (ended_stream (c.rx.decoded ++ hs) id) { body = b }) (bodiless id)

  -- A change of a stream that keeps its body.
  update_stream-IsBodiless :
      (f : Stream → Stream) (d : Connection)
      → ((s : Stream) → (f s).body ≡ s.body)
      → IsBodiless d
      → IsBodiless (update_stream id f d)
  update_stream-IsBodiless f d keeps b =
      set_stream-IsBodiless id (f (stream_at id d)) d (keeps (stream_at id d) ∙ b id) b

  parsed_at-IsBodiless : IsBodiless c → IsBodiless parsed_at
  unfolding stream_at
  parsed_at-IsBodiless b =
      update_stream-IsBodiless opens (update_stream id names c) (λ s. refl)
        (update_stream-IsBodiless names c (λ s. refl) b)

  pub done_at-IsBodiless : IsBodiless c → IsBodiless done_at
  unfolding done_at
  done_at-IsBodiless b =
      update_stream-IsBodiless half_closes (update_stream id heads parsed_at) (λ s. refl)
        (update_stream-IsBodiless heads parsed_at (λ s. refl) (parsed_at-IsBodiless b))
