-- ===== src/Server/Respond/Delivery.antt =====
-- A whole response, from the server's handler to the client.
use rite.Prelude.{
  map, ap, ◌∙◌, ℕ, ◌^◌, ◌≤◌, ◌<◌, ◌≡◌, List, [], ◌∷◌, ◌++◌, arith, All, All-imp, Bool, true, false,
  none, length, if◌then◌else◌,
}
use rite.Text.{codes}
use rite.Outcome.{ok, HpackError}
use rite.H2.Frame.{Frame}
use rite.H2.Connection.{Connection, set_stream}
use rite.H2.Hpack.{Parser, parse}
use rite.H2.Hpack.StaticTable.{Header, static_header_table}
use rite.H2.Hpack.Serializer.{serialize, finish}
use rite.H2.Hpack.Indexing.{IsPristine}
use rite.H2.Hpack.Fields.{IsSendable}
use rite.H2.Hpack.RoundTrip.{accept_all, arrived, parse-finish}
use rite.Http.Response.{HttpResponse}
use rite.Server.Respond.{
  Buffer, body_frames, write_frames, response_headers, response_frames, respond,
}
use rite.Server.Respond.Slices.{
  IsSlice, receive, delivered, ends_filled, receive-body_frames, body_frames-IsSlice,
}
use rite.Server.Respond.Wire.{
  wires, read_frames, IsWireFrame, write_frames-sent, read_frames-wires, length-wires,
}

pub slice_frame : (id : ℕ) → id < 2 ^ 32 → (f : Frame) → IsSlice id f → IsWireFrame f
slice_frame id small f s = record {
  header = record {
    length_range = omega (arith, s.limited);
    type_range = omega (arith, s.is_data);
    flags_range = omega (arith, s.flags_known);
    stream_range = omega (arith, s.on_stream, small);
  };
  measured = s.measured;
  limited = omega (arith, s.limited);
}

either_sent :
    (t : Bool) (x y : Connection) (bytes : List ℕ)
    → x.sent ≡ bytes
    → y.sent ≡ bytes
    → (if t then x else y).sent ≡ bytes
either_sent true x y bytes a b = a
either_sent false x y bytes a b = b

module _ (print_number : ℕ → List ℕ) where
  -- The header lines that a client is to see: the status, and the names and values that the handler set.
  abbrev pub lines_of : HttpResponse → List Header
  lines_of r =
      record { key = codes ":status"; value = print_number r.status_code }
      ∷ map (λ kv. record { key = kv.0; value = kv.1 }) r.headers

  unfoldable pub header_block : HttpResponse → List ℕ
  header_block r = serialize static_header_table [] (response_headers print_number r)

  unfoldable pub headers_frame : ℕ → HttpResponse → Frame
  unfolding header_block
  headers_frame id r = (finish (header_block r) id).1

  pub headers_frame-IsWireFrame :
      (id : ℕ) (r : HttpResponse)
      → id < 2 ^ 32
      → length (header_block r) ≤ 2 ^ 22
      → IsWireFrame (headers_frame id r)
  unfolding headers_frame finish
  headers_frame-IsWireFrame id r small short = record {
    header = record {
      length_range = omega (arith, short);
      type_range = omega arith;
      flags_range = omega arith;
      stream_range = small;
    };
    measured = omega (arith, short);
    limited = omega (arith, short);
  }

  framed-sent :
      (id : ℕ) (r : HttpResponse) (bufs : List Buffer) (c : Connection)
      → IsPristine c.rx
      → (write_frames (response_frames print_number c.rx.static_table id r bufs).0 c).sent
        ≡ c.sent ++ wires (headers_frame id r ∷ (body_frames id bufs).0)
  unfolding response_frames headers_frame header_block
  framed-sent id r bufs c untouched =
      ap (λ table. (write_frames (response_frames print_number table id r bufs).0 c).sent) untouched
      ∙ write_frames-sent (headers_frame id r ∷ (body_frames id bufs).0) c

  pub respond-sent :
      (id : ℕ) (r : HttpResponse) (bufs : List Buffer) (c : Connection)
      → IsPristine c.rx
      → (respond print_number id r bufs c).sent
        ≡ c.sent ++ wires (headers_frame id r ∷ (body_frames id bufs).0)
  unfolding respond response_frames headers_frame header_block set_stream
  respond-sent id r bufs c untouched =
      either_sent (body_frames id bufs).1 _ _ _ (framed-sent id r bufs c untouched)
        (framed-sent id r bufs c untouched)

  -- A client that reads what a response adds to the connection, frame by frame from a fresh start,
  -- finds a HEADERS frame, from which its HPACK parser decodes the line of the status and a line of each header, its name as key, in
  -- lower case where the static table has it, and
  -- DATA frames that carry exactly what the handler delivered up to its last buffer, ended exactly
  -- when that buffer is not empty. The stream identifier fits 32 bits, the header block is at most
  -- 4 MiB, and the headers are ones that the HPACK parser reads back;
  -- no one has written to the static table on either side.
  pub respond-received :
      (id : ℕ) (r : HttpResponse) (bufs : List Buffer) (c client : Connection) (p : Parser)
      → id < 2 ^ 32
      → length (header_block r) ≤ 2 ^ 22
      → All IsSendable (lines_of r)
      → IsPristine c.rx
      → IsPristine p
      → client.unfinished_frame ≡ none
      → (added : List ℕ) × (frames : List Frame) × ((respond print_number id r bufs c).sent
          ≡ c.sent ++ added)
        × (read_frames (length added) added client ≡ headers_frame id r ∷ frames)
        × (parse (headers_frame id r) p ≡ (accept_all (lines_of r) p, ok HpackError.done))
        × ((accept_all (lines_of r) p).decoded ≡ p.decoded ++ arrived (lines_of r))
        × (receive frames ≡ (delivered bufs, ends_filled bufs))
  unfolding headers_frame header_block response_headers
  respond-received id r bufs c client p small short sendable untouched pristine fresh =
      let body = (body_frames id bufs).0 in
      let all = headers_frame id r ∷ body in
      let (parsed, decoded) = parse-finish (lines_of r) id p pristine (omega arith) sendable in
      (
        wires all,
        body,
        respond-sent id r bufs c untouched,
        read_frames-wires all (length (wires all)) client
            (
              headers_frame-IsWireFrame id r small short,
              All-imp (slice_frame id small) body (body_frames-IsSlice id bufs),
            )
            fresh (length-wires all),
        parsed,
        decoded,
        receive-body_frames id bufs,
      )
