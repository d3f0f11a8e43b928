-- ===== src/Server/Packets/Pipelining.antt =====
-- Requests that a client sends one after the other in a packet, and the responses that it reads.
pub mod Client
mod Tests
use rite.Prelude.{
  ℕ, zero, suc, ◌+◌, ◌^◌, ◌≤◌, ◌<◌, ◌≡◌, refl, sym, subst, ap, ◌∙◌, List, [], ◌∷◌, ◌++◌, arith, All,
  All-append, All-imp, Option, none, length, map, Bool, true, false, length-append, append_assoc,
  append-nil,
}
use rite.Outcome.{Outcome, ok, HpackError}
use rite.H2.Frame.{Frame, header_bytes}
use rite.H2.Frame.Packing.{length-header_bytes}
use rite.H2.Connection.Process.Arrival.{request_frame}
use rite.H2.Hpack.{Parser, parse}
use rite.H2.Hpack.Blocks.{Block}
use rite.H2.Hpack.StaticTable.{Header}
use rite.H2.Hpack.Fields.{IsSendable}
use rite.H2.Hpack.RoundTrip.{accept_all, arrived, parse-finish}
use rite.H2.Hpack.Indexing.{IsPristine}
use rite.H2.Connection.{Connection}
use rite.H2.Connection.Process.Reception.{IsReady}
use rite.Server.Respond.{Buffer, body_frames, response_headers}
use rite.Server.Respond.Slices.{
  receive, delivered, ends_filled, filled, receive-body_frames, body_frames-IsSlice,
}
use rite.Server.Respond.Delivery.{
  headers_frame, header_block, headers_frame-IsWireFrame, slice_frame,
}
use rite.Server.Respond.Wire.{wires, read_frames, read_frames-wires, length-wires, IsWireFrame}
use rite.Server.Packets.{Socket, Answer, Handler, buffers, packet_loop, caught, on_packet}
use rite.Server.Packets.Exchange.{Exchange, IsExchange, asked_bytes, reply_frames, loop, loop-asked}

-- The packet.
abbrev pub requests : List Exchange → List ℕ
requests [] = []
requests (e ∷ es) = asked_bytes e ++ requests es

-- The blocks of a client, each for the dynamic table that the ones before have left.
abbrev pub Speaks : List Header → List Exchange → List Header → Type 0
Speaks table [] end = table ≡ end
Speaks table (e ∷ es) end =
    (after : List Header) × Block table e.block e.headers after × Speaks after es end

module _ (print_number : ℕ → List ℕ) where
  -- The frames of all responses.
  abbrev pub replies : List Exchange → List Frame
  replies [] = []
  replies (e ∷ es) = reply_frames print_number e ++ replies es

wires-append : (fs gs : List Frame) → wires (fs ++ gs) ≡ wires fs ++ wires gs
wires-append [] gs = refl
wires-append (f ∷ fs) gs =
    ap (λ l. header_bytes f ++ f.payload ++ l) (wires-append fs gs)
    ∙ sym (append_assoc (header_bytes f ++ f.payload) (wires fs) (wires gs))

module _ (scan_hex : List ℕ → Option ℕ) (print_number : ℕ → List ℕ) (answer : Handler) where
  pub loop-requests :
      (es : List Exchange) (table end : List Header) (fuel : ℕ) (s : Socket)
      → All (IsExchange print_number answer) es
      → Speaks table es end
      → IsReady table s.h2
      → length es ≤ fuel
      → (t : Socket) × (loop scan_hex print_number answer fuel (requests es) s ≡ (t, ok tt))
        × (t.h2.sent ≡ s.h2.sent ++ wires (replies print_number es))
        × (t.taken ≡ s.taken + length es)
        × (t.released ≡ s.released + length es)
        × IsReady end t.h2
  unfolding packet_loop
  loop-requests [] table end fuel s xs bs ready h = (
    s,
    refl,
    sym (append-nil s.h2.sent),
    omega arith,
    omega arith,
    subst (λ l. IsReady l s.h2) bs ready,
  )
  loop-requests (e ∷ es) table end zero s xs bs ready h = absurd (omega arith)
  loop-requests (e ∷ es) table end (suc fuel) s xs (after, b, bs) ready h =
      let (t, step, sent, taken, released, still) =
        loop-asked scan_hex print_number answer table after fuel (requests es) e s xs.0 b ready in
      let (u, run, later, more, less, last) =
        loop-requests es after end fuel t xs.1 bs still (omega arith) in
      let all = replies print_number es in
      let own = wires (reply_frames print_number e) in
      (
        u,
        step ∙ run,
        later
            ∙ ap (λ l. l ++ wires all) sent
            ∙ append_assoc s.h2.sent own (wires all)
            ∙ ap (λ l. s.h2.sent ++ l) (sym (wires-append (reply_frames print_number e) all)),
        omega (arith, more, taken),
        omega (arith, less, released),
        last,
      )

pub length-requests : (es : List Exchange) → length es ≤ length (requests es)
length-requests [] = omega arith
length-requests (e ∷ es) =
    let f = request_frame e.block e.id in
    omega (
      arith,
      length-append (asked_bytes e) (requests es),
      length-append (header_bytes f) f.payload,
      length-header_bytes f,
      length-requests es,
    )
