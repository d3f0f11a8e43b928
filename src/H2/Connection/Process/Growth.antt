-- ===== src/H2/Connection/Process/Growth.antt =====
-- While it handles frames, a connection keeps its state, and adds to what it has sent.
use rite.Prelude.{
  ℕ, ◌≡◌, refl, sym, ap, ◌∙◌, inl, inr, List, [], ◌++◌, Bool, true, false, not, ◌==◌, append_assoc,
  append-nil, take, drop, ltb, length, if◌then◌else◌, Option, none, some, replicate, ◌||◌,
  Option-cases,
}
use rite.Outcome.{Outcome, ok, throws, FrameState, HpackError}
use rite.H2.Frame.{
  Frame, pack, unpack, empty_frame, type_settings, type_ping, type_window_update, type_continuation,
  type_headers, type_data, type_rst_stream, settings_ack,
}
use rite.H2.Headers.{has_flag, end_stream}
use rite.H2.Huffman.{lookup}
use rite.Http.Request.{HttpRequest}
use rite.H2.Connection.{
  Connection, ReadFrame, got, unexpected, fill, read_header, read_frame, write_frame, terminate,
  set_stream, update_stream, stream_at,
}
use rite.H2.Connection.Requests.{Stream, finish_stream}
use rite.H2.Connection.Process.{
  on_settings, on_ping, finished, finish_at, headers_done, headers_parsed, on_headers, on_data,
  on_frame, frame_read, process_frame, settings_ack_frame, ping_ack_frame,
}

-- The same state, and more that was sent.
pub record Grows (c d : Connection) : Type 0 where
  pub same : d.state ≡ c.state
  pub added : List ℕ
  pub split : d.sent ≡ c.sent ++ added

Grows-refl : (c : Connection) → Grows c c
Grows-refl c = record { same = refl; added = []; split = sym (append-nil c.sent) }

Grows-trans : (c d e : Connection) → Grows c d → Grows d e → Grows c e
Grows-trans c d e f g = record {
  same = g.same ∙ f.same;
  added = f.added ++ g.added;
  split = g.split ∙ ap (λ l. l ++ g.added) f.split ∙ append_assoc c.sent f.added g.added;
}

-- A change of anything but the state and what was sent.
Grows-eq : (c d : Connection) → d.state ≡ c.state → d.sent ≡ c.sent → Grows c d
Grows-eq c d s t = record { same = s; added = []; split = t ∙ sym (append-nil c.sent) }

write_frame-Grows : (f : Frame) (c : Connection) → Grows c (write_frame f c)
unfolding write_frame
write_frame-Grows f c = record {
  same = refl;
  added = (pack f (replicate 9 0)).1 ++ f.payload;
  split = append_assoc c.sent _ f.payload;
}

-- Both branches of a test.
pub both :
    {A : Type 0} (P : Connection → Type 0) (b : Bool) (x y : Connection × A)
    → P x.0
    → P y.0
    → P (if b then x else y).0
both P true x y f g = f
both P false x y f g = g

-- Reading a frame changes neither the state nor what was sent.
abbrev pub Quiet : Connection → Connection → Type 0
Quiet c d = (d.state ≡ c.state) × (d.sent ≡ c.sent)

fill-Quiet : (g : Frame) (bytes : List ℕ) (c : Connection) → Quiet c (fill g bytes c).0
unfolding fill
fill-Quiet g bytes c = both (Quiet c) _ _ _ (refl, refl) (refl, refl)

read_header-Quiet : (bytes : List ℕ) (c : Connection) → Quiet c (read_header bytes c).0
unfolding read_header
read_header-Quiet bytes c =
    let (fits, frame) = unpack empty_frame (take 9 bytes) in
    both (Quiet c) (ltb (length bytes) 9) _ _ (refl, refl)
      (both (Quiet c) (not fits) _ _ (refl, refl)
        (both (Quiet c) _ _ _ (refl, refl) (fill-Quiet frame (drop 9 bytes) c)))

pub read_frame-Quiet : (bytes : List ℕ) (c : Connection) → Quiet c (read_frame bytes c).0
unfolding read_frame
read_frame-Quiet bytes c =
    elim c.unfinished_frame
      as (λ u.
        Quiet c
          (elim u as (λ _. Connection × ReadFrame) [
            | some frame ↦ fill frame bytes c
            | none ↦ read_header bytes c
          ]).0) [ some g ↦ fill-Quiet g bytes c | none ↦ read_header-Quiet bytes c ]

set_stream-Grows : (id : ℕ) (s : Stream) (c : Connection) → Grows c (set_stream id s c)
unfolding set_stream
set_stream-Grows id s c = Grows-eq c (set_stream id s c) refl refl

on_settings-Grows : (f : Frame) (rest : List ℕ) (c : Connection) → Grows c (on_settings f rest c).0
unfolding on_settings
on_settings-Grows f rest c =
    both (Grows c) (has_flag f.flags settings_ack) _ _ (Grows-refl c)
      (write_frame-Grows settings_ack_frame c)

on_ping-Grows : (f : Frame) (rest : List ℕ) (c : Connection) → Grows c (on_ping f rest c).0
unfolding on_ping
on_ping-Grows f rest c = write_frame-Grows (ping_ack_frame f.stream_identifier) c

module _ (scan_hex : List ℕ → Option ℕ) where
  finished-Grows :
      (id : ℕ) (rest : List ℕ) (c : Connection) (o : Outcome (Stream × HttpRequest))
      → Grows c (finished scan_hex id rest c o).0
  unfolding finished
  finished-Grows id rest c (ok (s, req)) =
      Grows-eq c _ (set_stream-Grows id s c).same (unfold set_stream in refl)
  finished-Grows id rest c (throws e) = Grows-refl c

  finish_at-Grows :
      (id : ℕ) (rest : List ℕ) (c : Connection) → Grows c (finish_at scan_hex id rest c).0
  unfolding finish_at
  finish_at-Grows id rest c = finished-Grows id rest c (finish_stream scan_hex (stream_at id c))

  headers_done-Grows :
      (f : Frame) (rest : List ℕ) (c : Connection) → Grows c (headers_done scan_hex f rest c).0
  unfolding headers_done set_stream
  headers_done-Grows f rest c =
      both (Grows c) (not (has_flag f.flags end_stream)) _ _ (Grows-eq c _ refl refl)
        (Grows-trans c _ _ (Grows-eq c _ refl refl) (finish_at-Grows f.stream_identifier rest _))

  headers_parsed-Grows :
      (f : Frame) (rest : List ℕ) (c : Connection) (o : Outcome HpackError)
      → Grows c (headers_parsed scan_hex f rest c o).0
  unfolding headers_parsed terminate
  headers_parsed-Grows f rest c (ok HpackError.unknown_header) = Grows-eq c _ refl refl
  headers_parsed-Grows f rest c (ok HpackError.invalid) = Grows-eq c _ refl refl
  headers_parsed-Grows f rest c (ok HpackError.size_update) = write_frame-Grows settings_ack_frame c
  headers_parsed-Grows f rest c (ok HpackError.more) = Grows-refl c
  headers_parsed-Grows f rest c (ok HpackError.done) = headers_done-Grows f rest c
  headers_parsed-Grows f rest c (throws e) = Grows-refl c

  on_headers-Grows :
      (f : Frame) (rest : List ℕ) (c : Connection) → Grows c (on_headers scan_hex f rest c).0
  unfolding on_headers set_stream
  on_headers-Grows f rest c =
      Grows-trans c _ _ (Grows-eq c _ refl refl) (headers_parsed-Grows f rest _ _)

  on_data-Grows :
      (f : Frame) (rest : List ℕ) (c : Connection) → Grows c (on_data scan_hex f rest c).0
  unfolding on_data terminate
  on_data-Grows f rest c = elim (Option-cases (lookup f.stream_identifier c.streams)) [
    | inl e ↦ rw (e, on_data) (Grows-eq c _ refl refl)
    | inr (s, e) ↦
        rw (e, on_data)
          (both (Grows c) _ _ _
            (Grows-trans c _ _ (set_stream-Grows _ _ c) (finish_at-Grows _ rest _))
            (set_stream-Grows _ _ c))
  ]

  on_frame-Grows :
      (f : Frame) (rest : List ℕ) (c : Connection) → Grows c (on_frame scan_hex f rest c).0
  unfolding on_frame
  on_frame-Grows f rest c =
      let named =
        update_stream f.stream_identifier (λ s. record s { stream_id = f.stream_identifier }) c in
      Grows-trans c named _ (set_stream-Grows _ _ c) (
        both (Grows named) (f.type == type_settings) _ _ (on_settings-Grows f rest named) (
          both (Grows named) (f.type == type_ping) _ _ (on_ping-Grows f rest named) (
            both (Grows named) (f.type == type_window_update) _ _ (Grows-refl named) (
              both (Grows named) (f.type == type_continuation || f.type == type_headers) _ _
                (on_headers-Grows f rest named)
                (both (Grows named) (f.type == type_data) _ _ (on_data-Grows f rest named) (
                  both (Grows named) (f.type == type_rst_stream) _ _ (set_stream-Grows _ _ named)
                    (Grows-refl named)))))))

  frame_read-Grows : (c : Connection) (r : ReadFrame) → Grows c (frame_read scan_hex c r).0
  unfolding frame_read terminate
  frame_read-Grows c (got f rest) = on_frame-Grows f rest c
  frame_read-Grows c (unexpected FrameState.insufficient_data rest) = Grows-refl c
  frame_read-Grows c (unexpected FrameState.invalid rest) = Grows-eq c _ refl refl
  frame_read-Grows c (unexpected FrameState.too_big rest) = Grows-eq c _ refl refl

  pub process_frame-Grows :
      (bytes : List ℕ) (c : Connection) → Grows c (process_frame scan_hex bytes c).0
  unfolding process_frame
  process_frame-Grows bytes c =
      Grows-trans c _ _ (Grows-eq c _ (read_frame-Quiet bytes c).0 (read_frame-Quiet bytes c).1)
        (frame_read-Grows (read_frame bytes c).0 (read_frame bytes c).1)
