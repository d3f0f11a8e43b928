-- ===== src/Server/Packets/References.antt =====
-- The references that `on_read` takes and gives back.
use rite.Prelude.{ℕ, zero, suc, ◌+◌, ◌≡◌, ap, List, [], ◌∷◌, arith, Option, some, length}
use rite.Outcome.{
  Outcome, ok, throws, Failure, hpack_error, frame_state, invalid_argument, length_error,
  out_of_range, runtime_error, no_endpoint, aborted, exited, undefined, stuck,
}
use rite.H2.Connection.{Result, new_request, settings, invalid, eof, more}
use rite.H2.Connection.Process.{Step, process}
use rite.Http.Request.{HttpRequest}
use rite.Server.Packets.{
  Socket, Answer, Read, packet, end_of_file, failed, Handler, release_ref, deliver, on_request,
  on_result, after_result, after_step, packet_loop, rescued, caught, on_packet, next_round, on_read,
}

-- `n` more were released than taken.
abbrev pub Returned : ℕ → Socket → Socket → Type 0
Returned n s t = t.taken + n + s.released ≡ s.taken + t.released

-- The reads that `on_read` makes: up to the first one that is not a packet.
unfoldable pub rounds : List Read → ℕ
rounds [] = 0
rounds (packet bytes ∷ reads) = suc (rounds reads)
rounds (end_of_file ∷ reads) = 1
rounds (failed ∷ reads) = 1

-- Every handler runs on the thread of the caller, and none throws.
abbrev pub IsDirect : Handler → Type 0
IsDirect answer = (req : HttpRequest) → (a : Answer) × (answer req ≡ (some a, ok tt))

module _ (scan_hex : List ℕ → Option ℕ) (print_number : ℕ → List ℕ) (answer : Handler)
    (direct : IsDirect answer) where
  on_request-Returned :
      (req : HttpRequest) (s : Socket)
      → Returned 0 s (on_request scan_hex print_number answer req s).0
  unfolding on_request deliver
  on_request-Returned req s = let (a, e) = direct req in rw (e, deliver) (omega arith)

  on_result-Returned :
      (r : Result) (s : Socket) → Returned 0 s (on_result scan_hex print_number answer r s).0
  unfolding on_result
  on_result-Returned new_request s = on_request-Returned s.h2.request s
  on_result-Returned settings s = omega arith
  on_result-Returned invalid s = omega arith
  on_result-Returned eof s = omega arith
  on_result-Returned more s = omega arith

  after_result-Returned :
      (later : List ℕ → Socket → Socket × Outcome (Unit {0})) (rest : List ℕ) (s : Socket)
      (r : Socket × Outcome (Unit {0}))
      → ((t : Socket) → Returned 0 t (later rest t).0)
      → Returned 0 s r.0
      → Returned 0 s (after_result scan_hex print_number answer later rest r).0
  unfolding after_result
  after_result-Returned later rest s (t, ok u) h r = omega (arith, h t, r)
  after_result-Returned later rest s (t, throws e) h r = r

  after_step-Returned :
      (later : List ℕ → Socket → Socket × Outcome (Unit {0})) (step : Step) (s : Socket)
      → ((rest : List ℕ) (t : Socket) → Returned 0 t (later rest t).0)
      → Returned 0 s (after_step scan_hex print_number answer later step s).0
  unfolding after_step
  after_step-Returned later (c, (rest, ok r)) s h =
      let t = record s { h2 = c } in
      after_result-Returned later rest t (on_result scan_hex print_number answer r t) (h rest)
        (on_result-Returned r t)
  after_step-Returned later (c, (rest, throws e)) s h = omega arith

  packet_loop-Returned :
      (fuel : ℕ) (bytes : List ℕ) (s : Socket)
      → Returned 0 s (packet_loop scan_hex print_number answer fuel bytes s).0
  unfolding packet_loop
  packet_loop-Returned fuel [] s = omega arith
  packet_loop-Returned zero (b ∷ bytes) s = omega arith
  packet_loop-Returned (suc fuel) (b ∷ bytes) s =
      after_step-Returned (packet_loop scan_hex print_number answer fuel)
        (process scan_hex (b ∷ bytes) s.h2) s (packet_loop-Returned fuel)

  rescued-Returned :
      (e : Failure) (s : Socket) → Returned 0 s (rescued scan_hex print_number answer e s).0
  unfolding rescued
  rescued-Returned invalid_argument s = omega arith
  rescued-Returned length_error s = omega arith
  rescued-Returned out_of_range s = omega arith
  rescued-Returned runtime_error s = omega arith
  rescued-Returned no_endpoint s = omega arith
  rescued-Returned (hpack_error e) s = omega arith
  rescued-Returned (frame_state e) s = omega arith
  rescued-Returned aborted s = omega arith
  rescued-Returned exited s = omega arith
  rescued-Returned undefined s = omega arith
  rescued-Returned stuck s = omega arith

  caught-Returned :
      (s : Socket) (r : Socket × Outcome (Unit {0}))
      → Returned 0 s r.0
      → Returned 0 s (caught scan_hex print_number answer r).0
  unfolding caught
  caught-Returned s (t, ok u) h = h
  caught-Returned s (t, throws e) h = omega (arith, h, rescued-Returned e t)

  on_packet-Returned :
      (bytes : List ℕ) (s : Socket)
      → Returned 0 s (on_packet scan_hex print_number answer bytes s).0
  unfolding on_packet
  on_packet-Returned bytes s =
      caught-Returned s (packet_loop scan_hex print_number answer (suc (length bytes)) bytes s)
        (packet_loop-Returned (suc (length bytes)) bytes s)

  next_round-Returned :
      (n : ℕ) (later : Socket → Socket × Outcome (Unit {0})) (r : Socket × Outcome (Unit {0}))
      (s t : Socket)
      → Returned 0 s r.0
      → ((u : Socket) → later u ≡ (t, ok tt) → Returned n u t)
      → next_round scan_hex print_number answer later r ≡ (t, ok tt)
      → Returned (suc n) s t
  unfolding next_round
  next_round-Returned n later (u, ok x) s t h k e = omega (arith, h, k (release_ref u) e)
  next_round-Returned n later (u, throws x) s t h k e = absurd (escaped (ap (λ r. r.1) e))
    where
      escaped : {e : Failure} → ◌≡◌ {A = Outcome (Unit {0})} (throws e) (ok tt) → ⊥
      escaped h = cc

  -- `on_read` gives back one reference for each read that it makes, and takes none besides those of
  -- the responses, which are given back too: if every handler runs on the caller's thread and
  -- does not throw, and if `on_read` returns after `n` packets and the read that ends it, it has released `n + 1` more references
  -- than it has taken, of which the event loop had taken one.
  pub on_read-Returned :
      (reads : List Read) (s t : Socket)
      → on_read scan_hex print_number answer reads s ≡ (t, ok tt)
      → Returned (rounds reads) s t
  unfolding on_read rounds
  on_read-Returned [] s t e = omega (arith, ap (λ r. r.0.taken) e, ap (λ r. r.0.released) e)
  on_read-Returned (packet bytes ∷ reads) s t e =
      next_round-Returned (rounds reads) (on_read scan_hex print_number answer reads)
        (on_packet scan_hex print_number answer bytes s) s t (on_packet-Returned bytes s)
        (λ u e'. on_read-Returned reads u t e') e
  on_read-Returned (end_of_file ∷ reads) s t e =
      omega (arith, ap (λ r. r.0.taken) e, ap (λ r. r.0.released) e)
  on_read-Returned (failed ∷ reads) s t e =
      omega (arith, ap (λ r. r.0.taken) e, ap (λ r. r.0.released) e)
