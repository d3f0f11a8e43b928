-- ===== src/H2/Connection/Process/Passing.antt =====
-- What the handlers of `process` leave of an unfinished frame and of the position.
use rite.Prelude.{
  ℕ, ◌≡◌, refl, inl, inr, List, Bool, true, false, not, ◌||◌, ◌==◌, Option, if◌then◌else◌,
  Option-cases,
}
use rite.Outcome.{Outcome, ok, throws, HpackError}
use rite.H2.Frame.{
  Frame, type_data, type_headers, type_rst_stream, type_settings, type_ping, type_window_update,
  type_continuation, settings_ack, data_end_stream,
}
use rite.H2.Headers.{has_flag, end_stream}
use rite.H2.Huffman.{lookup}
use rite.Http.Request.{HttpRequest}
use rite.H2.Connection.{Connection, write_frame, terminate, set_stream}
use rite.H2.Connection.Requests.{Stream}
use rite.H2.Connection.Process.{
  Step, on_settings, on_ping, finished, finish_at, headers_done, headers_parsed, on_headers,
  on_data, on_frame,
}

-- What a handler of a frame leaves alone: the unfinished frame and the position.
abbrev pub Passes : Option Frame → List ℕ → Step → Type 0
Passes u rest step = (step.0.unfinished_frame ≡ u) × (step.1.0 ≡ rest)

either : (P : Step → Type 0) (t : Bool) (x y : Step) → P x → P y → P (if t then x else y)
either P true x y a b = a
either P false x y a b = b

on_settings-Passes :
    (f : Frame) (rest : List ℕ) (c : Connection)
    → Passes c.unfinished_frame rest (on_settings f rest c)
unfolding on_settings write_frame
on_settings-Passes f rest c =
    either (Passes c.unfinished_frame rest) (has_flag f.flags settings_ack) _ _ (refl, refl)
      (refl, refl)

module _ (scan_hex : List ℕ → Option ℕ) where
  finished-Passes :
      (id : ℕ) (rest : List ℕ) (c : Connection) (o : Outcome (Stream × HttpRequest))
      → Passes c.unfinished_frame rest (finished scan_hex id rest c o)
  unfolding finished set_stream
  finished-Passes id rest c (ok (s, req)) = (refl, refl)
  finished-Passes id rest c (throws e) = (refl, refl)

  headers_done-Passes :
      (f : Frame) (rest : List ℕ) (c : Connection)
      → Passes c.unfinished_frame rest (headers_done scan_hex f rest c)
  unfolding headers_done set_stream finish_at
  headers_done-Passes f rest c =
      either (Passes c.unfinished_frame rest) (not (has_flag f.flags end_stream)) _ _ (refl, refl)
        (finished-Passes f.stream_identifier rest _ _)

  headers_parsed-Passes :
      (f : Frame) (rest : List ℕ) (c : Connection) (o : Outcome HpackError)
      → Passes c.unfinished_frame rest (headers_parsed scan_hex f rest c o)
  unfolding headers_parsed terminate write_frame
  headers_parsed-Passes f rest c (ok HpackError.unknown_header) = (refl, refl)
  headers_parsed-Passes f rest c (ok HpackError.invalid) = (refl, refl)
  headers_parsed-Passes f rest c (ok HpackError.size_update) = (refl, refl)
  headers_parsed-Passes f rest c (ok HpackError.more) = (refl, refl)
  headers_parsed-Passes f rest c (ok HpackError.done) = headers_done-Passes f rest c
  headers_parsed-Passes f rest c (throws e) = (refl, refl)

  on_data-Passes :
      (f : Frame) (rest : List ℕ) (c : Connection)
      → Passes c.unfinished_frame rest (on_data scan_hex f rest c)
  unfolding on_data terminate set_stream finish_at
  on_data-Passes f rest c = elim (Option-cases (lookup f.stream_identifier c.streams)) [
    | inl e ↦ rw (e, on_data) (refl, refl)
    | inr (s, e) ↦
        rw (e, on_data)
          (either (Passes c.unfinished_frame rest) (has_flag f.flags data_end_stream) _ _
            (finished-Passes f.stream_identifier rest _ _) (refl, refl))
  ]

  pub on_frame-Passes :
      (f : Frame) (rest : List ℕ) (c : Connection)
      → Passes c.unfinished_frame rest (on_frame scan_hex f rest c)
  unfolding on_frame on_ping on_headers set_stream write_frame
  on_frame-Passes f rest c =
      let P = Passes c.unfinished_frame rest in
      either P (f.type == type_settings) _ _ (on_settings-Passes f rest _) (
        either P (f.type == type_ping) _ _ (refl, refl)
          (either P (f.type == type_window_update) _ _ (refl, refl)
            (either P (f.type == type_continuation || f.type == type_headers) _ _
              (headers_parsed-Passes f rest _ _)
              (either P (f.type == type_data) _ _ (on_data-Passes f rest _)
                (either P (f.type == type_rst_stream) _ _ (refl, refl) (refl, refl))))))
