-- ===== src/H2/Connection/Process/Reception.antt =====
-- From the bytes of a client's request to the request: `process` of src/protocols/h2/connection.cpp.
use rite.Prelude.{
  ℕ, ◌≤◌, ◌<◌, ◌^◌, ◌≡◌, refl, sym, ap, ◌∙◌, subst, List, [], ◌++◌, arith, Option, none, length,
}
use rite.H2.Frame.{Frame, header_bytes, max_frame_size}
use rite.H2.Frame.Packing.{IsWireHeader}
use rite.H2.Hpack.StaticTable.{Header}
use rite.H2.Hpack.Indexing.{IsPristine}
use rite.H2.Hpack.Blocks.{Block, parse-Block}
use rite.H2.Connection.{Connection, new_request, idle, set_stream, stream_at, read_frame, got}
use rite.H2.Connection.Requests.{finish_stream}
use rite.H2.Connection.Requests.Asking.{Wish, Asks, wished, finish_stream-Asks}
use rite.H2.Connection.Process.{
  returns, finished, on_frame, frame_read, process_frame, process_state, process,
}
use rite.H2.Connection.Streams.{IsBodiless, set_stream-IsBodiless}
use rite.H2.Connection.Reading.{settled, read_frame-whole}
use rite.H2.Connection.Process.Arrival.{
  request_frame, ended_stream, done_at, on_frame-request_frame, stream_at-done_at,
  done_at-IsBodiless,
}

-- A connection that waits for a frame of a client whose dynamic table is `table`.
pub record IsReady (table : List Header) (c : Connection) : Type 0 where
  pub idling : c.state ≡ idle
  pub whole : c.unfinished_frame ≡ none
  pub pristine : IsPristine c.rx
  pub known : c.rx.header_map ≡ table
  pub nothing_decoded : c.rx.decoded ≡ []
  pub bodiless : IsBodiless c

IsWireHeader-request_frame :
    (block : List ℕ) (id : ℕ)
    → id < 2 ^ 32
    → length block ≤ max_frame_size
    → IsWireHeader (request_frame block id)
IsWireHeader-request_frame block id small short = record {
  length_range = omega (arith, short);
  type_range = omega arith;
  flags_range = omega arith;
  stream_range = small;
}

module _ (scan_hex : List ℕ → Option ℕ) where
  process-read :
      (rest : List ℕ) (c : Connection) (f : Frame)
      → c.state ≡ idle
      → read_frame (header_bytes f ++ (f.payload ++ rest)) c ≡ (settled c, got f rest)
      → process scan_hex (header_bytes f ++ (f.payload ++ rest)) c
        ≡ on_frame scan_hex f rest (settled c)
  unfolding process process_state process_frame frame_read header_bytes
  process-read rest c f idling e =
      let bytes = header_bytes f ++ (f.payload ++ rest) in
      ap (λ st. process_state scan_hex st bytes c) idling ∙ ap (λ r. frame_read scan_hex r.0 r.1) e

  settled-IsBodiless : (c : Connection) → IsBodiless c → IsBodiless (settled c)
  unfolding stream_at
  settled-IsBodiless c b = b

  pub process-request :
      (table after hs : List Header) (block : List ℕ) (id : ℕ) (rest : List ℕ) (w : Wish)
      (c : Connection)
      → id < 2 ^ 32
      → IsReady table c
      → Block table block hs after
      → 0 < length block
      → length block ≤ max_frame_size
      → Asks w hs
      → (d : Connection) × (process scan_hex
            (header_bytes (request_frame block id) ++ (block ++ rest))
            c
          ≡ returns new_request rest d)
        × (d.request ≡ wished w hs id)
        × (d.sent ≡ c.sent)
        × IsReady after d
  unfolding finished set_stream done_at stream_at
  process-request table after hs block id rest w c small ready b filled short asks =
      let f = request_frame block id in
      let k = settled c in
      let bodiless = settled-IsBodiless c ready.bodiless in
      let parsed =
        parse-Block f k.rx (refl, refl, refl) refl ready.pristine filled
          (subst (λ t. Block t block hs after) (sym ready.known) b) in
      let decoded : k.rx.decoded ++ hs ≡ hs = ap (λ l. l ++ hs) ready.nothing_decoded in
      let ended : stream_at id (done_at hs after id k) ≡ ended_stream hs id =
        stream_at-done_at hs after id k bodiless ∙ ap (λ l. ended_stream l id) decoded in
      let answered =
        ap (finish_stream scan_hex) ended
        ∙ finish_stream-Asks scan_hex w (ended_stream hs id) asks refl in
      (
        _,
        process-read rest c f ready.idling (
              read_frame-whole f rest c (IsWireHeader-request_frame block id small short) refl short
                ready.whole)
            ∙ on_frame-request_frame hs after id k scan_hex block rest parsed
            ∙ ap (finished scan_hex id rest (done_at hs after id k)) answered,
        refl,
        refl,
        record {
          idling = ready.idling;
          whole = refl;
          pristine = ready.pristine;
          known = refl;
          nothing_decoded = refl;
          bodiless =
              set_stream-IsBodiless id _ (done_at hs after id k) refl
                (done_at-IsBodiless hs after id k bodiless);
        },
      )
