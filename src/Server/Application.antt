-- ===== src/Server/Application.antt =====
-- The application behind the servers: `handle` of include/http/behaviour.hpp with the `finish` functions
-- of src/servers/http.cpp and src/https.cpp. `content` is what the handler has delivered into the
-- channel of its response, the last buffer apart.
mod Tests
use rite.Prelude.{ℕ, ◌≡◌, refl, ap, ◌∙◌, List, Option, none, some}
use rite.Outcome.{Outcome, ok, throws}
use rite.Http.Request.{HttpRequest}
use rite.Http.Response.{HttpResponse}
use rite.Http.Layer.{Layer, Handled, handle}
use rite.Http.Layer.Lifting.{lift_layer}
use rite.Http.Layer.Lifting.Capture.{keep, send, delivery, handle-sent_to}
use rite.Server.Respond.{respond}
use rite.Server.Packets.{
  Socket, Answer, Handler, buffers, take_ref, release_ref, id_of, deliver, on_request,
}
use rite.Server.Plain.{Peer, take_peer, finish_response, deliver_to_peer, on_success}

module _ {W : Type 0} (groups : List ℕ → List ℕ → Option (List (List ℕ)))
    (content : W → List (List ℕ) × List ℕ) where
  abbrev pub reply_of : HttpResponse → W → Answer
  reply_of r w =
      let (chunks, final) = content w in record { response = r; chunks = chunks; final = final }

  -- The servers see of the end of `handle` only what it throws: a queued request waits elsewhere.
  unfoldable pub handed : Outcome Handled → Outcome (Unit {0})
  handed (ok h) = ok tt
  handed (throws e) = throws e

  -- What a layer in the state `w` makes of a request.
  unfoldable pub answer_of : Layer W → W → Handler
  unfolding handle handed
  answer_of l w req =
      let r = handle groups (keep reply_of) (lift_layer (Option Answer) l) req (w, none) in
      (r.0.1, handed r.1)

  module _ (scan_hex : List ℕ → Option ℕ) (print_number : ℕ → List ℕ) where
    -- The two `finish` functions.
    abbrev pub deliver_plain : Answer → Peer → Peer
    deliver_plain a p =
        finish_response scan_hex print_number (λ req. (none, ok tt)) a.response (buffers a) p

    abbrev pub deliver_frames : ℕ → Answer → Socket → Socket
    deliver_frames id a s =
        release_ref (record s { h2 = respond print_number id a.response (buffers a) s.h2 })

    delivery-on_success :
        (answer : Handler) (a : Option Answer) (p : Peer)
        → delivery deliver_plain a p ≡ deliver_to_peer scan_hex print_number answer a p
    unfolding deliver_to_peer finish_response
    delivery-on_success answer none p = refl
    delivery-on_success answer (some a) p = refl

    delivery-on_request :
        (answer : Handler) (id : ℕ) (a : Option Answer) (s : Socket)
        → delivery (deliver_frames id) a s ≡ deliver scan_hex print_number answer id a s
    unfolding deliver
    delivery-on_request answer id none s = refl
    delivery-on_request answer id (some a) s = refl

    -- `handle` with the `finish` function of the server.
    abbrev pub handle_with :
        {P : Type 0} → (Answer → P → P) → Layer W → HttpRequest → W → P → P × Outcome (Unit {0})
    handle_with {P} finish l req w p =
        let r = handle groups (send reply_of finish) (lift_layer P l) req (w, p) in
        (r.0.1, handed r.1)

    -- A server that is given the answer of a layer is the server with the layer itself. For any
    -- endpoints, handlers and extensions that leave the connection alone, whether they complete,
    -- throw or wait in the queue of a thread pool: after `handle` with the `finish` function of the
    -- server, an HTTP/1 connection and an HTTPS connection whose reference was taken are as if the
    -- server had asked for the answer of the layer and sent it, and what `handle` throws is what
    -- the server meets.
    pub handle_with-answer_of :
        (l : Layer W) (req : HttpRequest) (w : W) (p : Peer) (s : Socket)
        → (handle_with deliver_plain l req w (take_peer p)
            ≡ on_success scan_hex print_number (answer_of l w) req p)
          × (handle_with (deliver_frames (id_of req)) l req w (take_ref s)
              ≡ on_request scan_hex print_number (answer_of l w) req s)
    unfolding answer_of on_success on_request
    handle_with-answer_of l req w p s =
        let a = answer_of l w req in
        (
          ap (λ q. (q.0.1, handed q.1))
                (handle-sent_to groups reply_of deliver_plain l req w (take_peer p))
              ∙ ap (λ q. (q, a.1)) (delivery-on_success (answer_of l w) a.0 (take_peer p)),
          ap (λ q. (q.0.1, handed q.1))
                (handle-sent_to groups reply_of (deliver_frames (id_of req)) l req w (take_ref s))
              ∙ ap (λ q. (q, a.1))
                  (delivery-on_request (answer_of l w) (id_of req) a.0 (take_ref s)),
        )
