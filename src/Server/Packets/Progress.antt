-- ===== src/Server/Packets/Progress.antt =====
-- How far the loop over a packet runs, and what it leaves of an unfinished frame.
use rite.Prelude.{
  ℕ, zero, suc, ◌≤◌, ◌≡◌, refl, sym, subst, List, [], ◌∷◌, arith, Bool, true, false, Option, none,
  some, if◌then◌else◌, length,
}
use rite.Outcome.{Outcome, ok, throws, Failure}
use rite.H2.Frame.{Frame}
use rite.H2.Connection.{
  Connection, Result, new_request, settings, invalid, eof, more, write_frame, set_stream,
}
use rite.H2.Connection.Process.{Step, process}
use rite.H2.Connection.Process.Progress.{Partial, IsPartial, Moves, process-Moves}
use rite.Http.Response.{HttpResponse}
use rite.Server.Respond.{Buffer, write_frames, response_frames, respond}
use rite.Server.Packets.{
  Socket, Answer, Handler, buffers, take_ref, id_of, deliver, on_request, on_result, after_result,
  after_step, packet_loop,
}

write_frames-unfinished :
    (fs : List Frame) (c : Connection) → (write_frames fs c).unfinished_frame ≡ c.unfinished_frame
unfolding write_frames write_frame
write_frames-unfinished [] c = refl
write_frames-unfinished (f ∷ fs) c = write_frames-unfinished fs (write_frame f c)

unfinished_if :
    (t : Bool) (x y : Connection) (u : Option Frame)
    → x.unfinished_frame ≡ u
    → y.unfinished_frame ≡ u
    → (if t then x else y).unfinished_frame ≡ u
unfinished_if true x y u a b = a
unfinished_if false x y u a b = b

module _ (print_number : ℕ → List ℕ) where
  respond-unfinished :
      (id : ℕ) (r : HttpResponse) (bufs : List Buffer) (c : Connection)
      → (respond print_number id r bufs c).unfinished_frame ≡ c.unfinished_frame
  unfolding respond set_stream
  respond-unfinished id r bufs c =
      let frames = response_frames print_number c.rx.static_table id r bufs in
      let e = write_frames-unfinished frames.0 c in
      unfinished_if frames.1 _ _ c.unfinished_frame e e

module _ (scan_hex : List ℕ → Option ℕ) (print_number : ℕ → List ℕ) (answer : Handler) where
  deliver-IsPartial :
      (id : ℕ) (a : Option Answer) (s : Socket)
      → IsPartial s.h2
      → IsPartial (deliver scan_hex print_number answer id a s).h2
  unfolding deliver
  deliver-IsPartial id none s p = p
  deliver-IsPartial id (some a) s p =
      subst Partial (sym (respond-unfinished print_number id a.response (buffers a) s.h2)) p

  on_result-IsPartial :
      (r : Result) (s : Socket)
      → IsPartial s.h2
      → IsPartial (on_result scan_hex print_number answer r s).0.h2
  unfolding on_result on_request
  on_result-IsPartial new_request s p =
      deliver-IsPartial (id_of s.h2.request) (answer s.h2.request).0 (take_ref s) p
  on_result-IsPartial settings s p = p
  on_result-IsPartial invalid s p = p
  on_result-IsPartial eof s p = p
  on_result-IsPartial more s p = p

  -- The loop over a packet as a run: it ends at the end of the packet, or where `process` or a handler
  -- throws; otherwise a round leaves it at a later byte.
  pub data Run : List ℕ → Socket → Socket × Outcome (Unit {0}) → Type 0 where
    at_end : {s : Socket} → Run [] s (s, ok tt)
    process_throws :
        {b : ℕ} {bytes rest : List ℕ} {s : Socket} {c : Connection} {e : Failure}
        → process scan_hex (b ∷ bytes) s.h2 ≡ (c, (rest, throws e))
        → Run (b ∷ bytes) s (record s { h2 = c }, throws e)
    handler_throws :
        {b : ℕ} {bytes rest : List ℕ} {s t : Socket} {c : Connection} {r : Result} {e : Failure}
        → process scan_hex (b ∷ bytes) s.h2 ≡ (c, (rest, ok r))
        → on_result scan_hex print_number answer r (record s { h2 = c }) ≡ (t, throws e)
        → Run (b ∷ bytes) s (t, throws e)
    round :
        {b : ℕ} {bytes rest : List ℕ} {s t : Socket} {c : Connection} {r : Result}
        {end : Socket × Outcome (Unit {0})}
        → process scan_hex (b ∷ bytes) s.h2 ≡ (c, (rest, ok r))
        → on_result scan_hex print_number answer r (record s { h2 = c }) ≡ (t, ok tt)
        → length rest ≤ length bytes
        → Run rest t end
        → Run (b ∷ bytes) s end

  after_result-Run :
      (later : List ℕ → Socket → Socket × Outcome (Unit {0})) (b : ℕ) (bytes rest : List ℕ)
      (s : Socket) (c : Connection) (r : Result) (u : Socket × Outcome (Unit {0}))
      → process scan_hex (b ∷ bytes) s.h2 ≡ (c, (rest, ok r))
      → on_result scan_hex print_number answer r (record s { h2 = c }) ≡ u
      → length rest ≤ length bytes
      → IsPartial u.0.h2
      → ((t : Socket) → IsPartial t.h2 → Run rest t (later rest t))
      → Run (b ∷ bytes) s (after_result scan_hex print_number answer later rest u)
  unfolding after_result
  after_result-Run later b bytes rest s c r (t, ok tt) e f m p h = round e f m (h t p)
  after_result-Run later b bytes rest s c r (t, throws x) e f m p h = handler_throws e f

  after_step-Run :
      (later : List ℕ → Socket → Socket × Outcome (Unit {0})) (b : ℕ) (bytes : List ℕ) (s : Socket)
      (step : Step)
      → process scan_hex (b ∷ bytes) s.h2 ≡ step
      → Moves (length (b ∷ bytes)) step
      → ((rest : List ℕ) (t : Socket)
          → length rest ≤ length bytes
          → IsPartial t.h2
          → Run rest t (later rest t))
      → Run (b ∷ bytes) s (after_step scan_hex print_number answer later step s)
  unfolding after_step
  after_step-Run later b bytes s (c, (rest, ok r)) e (p, m) h =
      let small : length rest ≤ length bytes = omega (arith, m) in
      let t = record s { h2 = c } in
      after_result-Run later b bytes rest s c r (on_result scan_hex print_number answer r t) e refl
        small (on_result-IsPartial r t p) (λ u q. h rest u small q)
  after_step-Run later b bytes s (c, (rest, throws x)) e m h = process_throws e

  -- The loop over a packet ends, at the end of the packet or with what `process` or a handler throws,
  -- and every round before leaves fewer bytes: the loop with as many rounds as the packet has bytes is
  -- such a run, if the unfinished frame of the connection, where there is one, lacks bytes.
  pub packet_loop-Run :
      (fuel : ℕ) (bytes : List ℕ) (s : Socket)
      → IsPartial s.h2
      → length bytes ≤ fuel
      → Run bytes s (packet_loop scan_hex print_number answer fuel bytes s)
  unfolding packet_loop
  packet_loop-Run fuel [] s p h = at_end
  packet_loop-Run zero (b ∷ bytes) s p h = absurd (omega (arith, h))
  packet_loop-Run (suc fuel) (b ∷ bytes) s p h =
      after_step-Run (packet_loop scan_hex print_number answer fuel) b bytes s
        (process scan_hex (b ∷ bytes) s.h2) refl (process-Moves scan_hex b bytes s.h2 p)
        (λ rest t m q. packet_loop-Run fuel rest t q (omega (arith, h, m)))
