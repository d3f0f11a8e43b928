-- ===== src/Server/Packets.antt =====
-- `server<https>::on_read` of src/https.cpp: the loop over the reads of a connection, and the loop
-- over the frames of a packet. The references of a connection are two counters: `use_count()` is
-- what was taken less what was released. What the application makes of a request is the argument
-- `answer`: the response that it passes to `finish` and how its call ends, with no response for a
-- handler that throws before it makes one, or that runs later in a pool.
pub mod Exchange
pub mod Pipelining
pub mod Progress
pub mod References
pub mod Tests
use rite.Prelude.{
  ℕ, zero, suc, ◌+◌, List, [], ◌∷◌, ◌++◌, Bool, true, false, Option, none, some, length, map,
  if◌then◌else◌,
}
use rite.Outcome.{
  Outcome, ok, throws, Failure, hpack_error, frame_state, invalid_argument, length_error,
  out_of_range, runtime_error, no_endpoint, aborted, exited, undefined, stuck,
}
use rite.H2.Connection.{Connection, Result, new_request, settings, invalid, eof, more, terminate}
use rite.H2.Connection.Process.{Step, process}
use rite.Http.Request.{HttpRequest}
use rite.Http.Response.{HttpResponse}
use rite.Server.Respond.{Buffer, respond}

pub record Socket : Type 0 where
  pub h2 : Connection
  pub taken : ℕ
  pub released : ℕ

abbrev pub take_ref : Socket → Socket
take_ref s = record s { taken = s.taken + 1 }

abbrev pub release_ref : Socket → Socket
release_ref s = record s { released = s.released + 1 }

-- A response and its body, the last buffer apart; a handler that never delivers one keeps its thread
-- waiting.
pub record Answer : Type 0 where
  pub response : HttpResponse
  pub chunks : List (List ℕ)
  pub final : List ℕ

unfoldable pub buffers : Answer → List Buffer
buffers a =
    map (λ bytes. record { bytes = bytes; last = false }) a.chunks
    ++ (record { bytes = a.final; last = true } ∷ [])

-- `finish_stream` sets the stream of every request, so that `none` does not occur.
abbrev pub id_of : HttpRequest → ℕ
id_of req = elim req.stream_id [ some id ↦ id | none ↦ 0 ]

-- A return of `socket->read`.
pub data Read : Type 0 where
  packet : List ℕ → Read
  end_of_file : Read
  failed : Read

-- The response that is passed to `finish`, if there is one, and how `handle` ends.
abbrev pub Handler : Type 0
Handler = HttpRequest → Option Answer × Outcome (Unit {0})

module _ (scan_hex : List ℕ → Option ℕ) (print_number : ℕ → List ℕ) (answer : Handler) where
  -- `finish`: the response, and the release at its end.
  unfoldable pub deliver : ℕ → Option Answer → Socket → Socket
  unfolding buffers
  deliver id none s = s
  deliver id (some a) s =
      release_ref (record s { h2 = respond print_number id a.response (buffers a) s.h2 })

  -- `socket->take()`, and `handle`.
  unfoldable pub on_request : HttpRequest → Socket → Socket × Outcome (Unit {0})
  unfolding deliver
  on_request req s = (deliver (id_of req) (answer req).0 (take_ref s), (answer req).1)

  pub on_result : Result → Socket → Socket × Outcome (Unit {0})
  unfolding on_request
  on_result new_request s = on_request s.h2.request s
  on_result settings s = (s, ok tt)
  on_result invalid s = (s, ok tt)
  on_result eof s = (s, ok tt)
  on_result more s = (s, ok tt)

  after_result :
      (List ℕ → Socket → Socket × Outcome (Unit {0}))
      → List ℕ
      → Socket × Outcome (Unit {0})
      → Socket × Outcome (Unit {0})
  after_result later rest (s, ok u) = later rest s
  after_result later rest (s, throws e) = (s, throws e)

  -- The rest of a round of the loop; `later` is the loop from the new position on.
  after_step :
      (List ℕ → Socket → Socket × Outcome (Unit {0})) → Step → Socket → Socket × Outcome (Unit {0})
  unfolding on_result after_result
  after_step later (c, (rest, ok r)) s = after_result later rest (on_result r (record s { h2 = c }))
  after_step later (c, (rest, throws e)) s = (record s { h2 = c }, throws e)

  -- The loop over a packet, from the position on; `process` gives `eof` at its end.
  pub packet_loop : ℕ → List ℕ → Socket → Socket × Outcome (Unit {0})
  unfolding after_step
  packet_loop fuel [] s = (s, ok tt)
  packet_loop zero (b ∷ bytes) s = (s, throws stuck)
  packet_loop (suc fuel) (b ∷ bytes) s =
      after_step (packet_loop fuel) (process scan_hex (b ∷ bytes) s.h2) s

  -- `catch (std::exception &e)`: the connection is closed, and the loop over the reads goes on, as
  -- it does for a `layer::error`, which is forgotten. Nothing else is caught.
  rescued : Failure → Socket → Socket × Outcome (Unit {0})
  unfolding terminate
  rescued invalid_argument s = (record s { h2 = terminate s.h2 }, ok tt)
  rescued length_error s = (record s { h2 = terminate s.h2 }, ok tt)
  rescued out_of_range s = (record s { h2 = terminate s.h2 }, ok tt)
  rescued runtime_error s = (record s { h2 = terminate s.h2 }, ok tt)
  rescued no_endpoint s = (s, ok tt)
  rescued (hpack_error e) s = (s, throws (hpack_error e))
  rescued (frame_state e) s = (s, throws (frame_state e))
  rescued aborted s = (s, throws aborted)
  rescued exited s = (s, throws exited)
  rescued undefined s = (s, throws undefined)
  rescued stuck s = (s, throws stuck)

  caught : Socket × Outcome (Unit {0}) → Socket × Outcome (Unit {0})
  unfolding rescued
  caught (s, ok u) = (s, ok u)
  caught (s, throws e) = rescued e s

  -- One packet, up to the release at the end of the round; the fuel is one more than the number of bytes.
  pub on_packet : List ℕ → Socket → Socket × Outcome (Unit {0})
  unfolding packet_loop caught
  on_packet bytes s = caught (packet_loop (suc (length bytes)) bytes s)

  next_round :
      (Socket → Socket × Outcome (Unit {0}))
      → Socket × Outcome (Unit {0})
      → Socket × Outcome (Unit {0})
  next_round later (s, ok u) = later (release_ref s)
  next_round later (s, throws e) = (s, throws e)

  -- The loop over the reads, which ends at the first one that is not a packet; the list is what they give.
  pub on_read : List Read → Socket → Socket × Outcome (Unit {0})
  unfolding on_packet next_round
  on_read [] s = (s, ok tt)
  on_read (packet bytes ∷ reads) s = next_round (on_read reads) (on_packet bytes s)
  on_read (end_of_file ∷ reads) s =
      (record (release_ref s) { h2 = record s.h2 { closed = true } }, ok tt)
  on_read (failed ∷ reads) s = (release_ref s, ok tt)
