-- ===== src/Server/Packets/Exchange.antt =====
-- Whole exchanges: the requests of a client in one packet, and the responses that it reads.
use rite.Prelude.{
  ℕ, suc, ◌+◌, length, ◌^◌, ◌≤◌, ◌<◌, ◌≡◌, refl, ap, ◌∙◌, List, [], ◌∷◌, ◌++◌, when, Option, some,
  append_assoc,
}
use rite.Outcome.{Outcome, ok}
use rite.H2.Frame.{Frame, header_bytes, max_frame_size}
use rite.H2.Hpack.Blocks.{Block}
use rite.H2.Hpack.StaticTable.{Header}
use rite.H2.Connection.{Connection, new_request, write_frame, stream_at, set_stream, update_stream}
use rite.H2.Connection.Streams.{set_stream-IsBodiless}
use rite.H2.Connection.Requests.{Stream, StreamState}
use rite.H2.Connection.Process.{process}
use rite.H2.Connection.Process.Arrival.{request_frame}
use rite.H2.Connection.Process.Reception.{IsReady, process-request}
use rite.H2.Connection.Requests.Asking.{Wish, Asks, wished}
use rite.Http.Response.{HttpResponse}
use rite.Server.Respond.{Buffer, body_frames, respond, write_frames, response_frames}
use rite.Server.Respond.Delivery.{headers_frame, header_block, respond-sent}
use rite.Server.Respond.Wire.{wires}
use rite.Server.Packets.{
  Socket, take_ref, release_ref, Answer, Handler, buffers, deliver, on_request, on_result,
  after_result, after_step, packet_loop,
}

-- A request, the header block that the client writes for it, and the answer that it finds.
pub record Exchange : Type 0 where
  pub wish : Wish
  pub block : List ℕ
  pub headers : List Header
  pub id : ℕ
  pub reply : Answer

abbrev pub asked_bytes : Exchange → List ℕ
asked_bytes e = header_bytes (request_frame e.block e.id) ++ e.block

module _ (print_number : ℕ → List ℕ) where
  abbrev pub reply_frames : Exchange → List Frame
  reply_frames e =
      headers_frame print_number e.id e.reply.response ∷ (body_frames e.id (buffers e.reply)).0

module _ (print_number : ℕ → List ℕ) (answer : Handler) where
  pub record IsExchange (e : Exchange) : Type 0 where
    pub small : e.id < 2 ^ 32
    pub filled : 0 < length e.block
    pub short : length e.block ≤ max_frame_size
    pub asks : Asks e.wish e.headers
    pub answered : answer (wished e.wish e.headers e.id) ≡ (some e.reply, ok tt)

write_frames-IsReady :
    {table : List Header} (fs : List Frame) (c : Connection)
    → IsReady table c
    → IsReady table (write_frames fs c)
unfolding write_frames write_frame stream_at
write_frames-IsReady [] c ready = ready
write_frames-IsReady (f ∷ fs) c ready = write_frames-IsReady fs (write_frame f c) (record {
  idling = ready.idling;
  whole = ready.whole;
  pristine = ready.pristine;
  known = ready.known;
  nothing_decoded = ready.nothing_decoded;
  bodiless = ready.bodiless;
})

abbrev closes : Stream → Stream
closes s = record s { state = StreamState.closed }

close-IsReady :
    {table : List Header} (id : ℕ) (c : Connection)
    → IsReady table c
    → IsReady table (update_stream id closes c)
unfolding set_stream
close-IsReady id c ready = record {
  idling = ready.idling;
  whole = ready.whole;
  pristine = ready.pristine;
  known = ready.known;
  nothing_decoded = ready.nothing_decoded;
  bodiless =
      set_stream-IsBodiless id (closes (stream_at id c)) c (ready.bodiless id) ready.bodiless;
}

module _ (scan_hex : List ℕ → Option ℕ) (print_number : ℕ → List ℕ) (answer : Handler) where
  respond-IsReady :
      {table : List Header} (id : ℕ) (r : HttpResponse) (bufs : List Buffer) (c : Connection)
      → IsReady table c
      → IsReady table (respond print_number id r bufs c)
  unfolding respond response_frames headers_frame header_block
  respond-IsReady {table} id r bufs c ready =
      let (body, ended) = body_frames id bufs in
      let frames = (response_frames print_number c.rx.static_table id r bufs).0 in
      let still = write_frames-IsReady frames c ready in
      when (IsReady table) ended _ _ (λ e. close-IsReady id (write_frames frames c) still)
        (λ e. still)

  abbrev pub loop : ℕ → List ℕ → Socket → Socket × Outcome (Unit {0})
  loop = packet_loop scan_hex print_number answer

  abbrev served : Exchange → Connection → Socket → Socket
  served e c s =
      release_ref (record (take_ref s) {
        h2 = respond print_number e.id e.reply.response (buffers e.reply) c;
      })

  on_request-served :
      (e : Exchange) (c : Connection) (s : Socket)
      → IsExchange print_number answer e
      → c.request ≡ wished e.wish e.headers e.id
      → on_result scan_hex print_number answer new_request (record s { h2 = c })
        ≡ (served e c s, ok tt)
  unfolding on_result on_request deliver
  on_request-served e c s x asked =
      ap (λ req. on_request scan_hex print_number answer req (record s { h2 = c })) asked
      ∙ rw (x.answered, deliver) refl

  -- One request of the packet.
  pub loop-asked :
      (table after : List Header) (fuel : ℕ) (rest : List ℕ) (e : Exchange) (s : Socket)
      → IsExchange print_number answer e
      → Block table e.block e.headers after
      → IsReady table s.h2
      → (t : Socket) × (loop (suc fuel) (asked_bytes e ++ rest) s ≡ loop fuel rest t)
        × (t.h2.sent ≡ s.h2.sent ++ wires (reply_frames print_number e))
        × (t.taken ≡ s.taken + 1)
        × (t.released ≡ s.released + 1)
        × IsReady after t.h2
  unfolding packet_loop after_step after_result header_bytes
  loop-asked table after fuel rest e s x b ready =
      let (d, stepped, request, sent, still) =
        process-request scan_hex table after e.headers e.block e.id rest e.wish s.h2 x.small ready b
          x.filled x.short x.asks in
      let whole = append_assoc (header_bytes (request_frame e.block e.id)) e.block rest in
      (
        served e d s,
        ap (λ p. after_step scan_hex print_number answer (loop fuel) p s)
              (ap (λ bytes. process scan_hex bytes s.h2) whole ∙ stepped)
            ∙ ap (after_result scan_hex print_number answer (loop fuel) rest)
                (on_request-served e d s x request),
        respond-sent print_number e.id e.reply.response (buffers e.reply) d still.pristine
            ∙ ap (λ l. l ++ wires (reply_frames print_number e)) sent,
        refl,
        refl,
        respond-IsReady e.id e.reply.response (buffers e.reply) d still,
      )
