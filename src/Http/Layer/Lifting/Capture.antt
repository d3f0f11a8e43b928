-- ===== src/Http/Layer/Lifting/Capture.antt =====
-- A layer whose response is kept, and the same layer whose response is sent.
use rite.Prelude.{
  ℕ, ◌≡◌, refl, sym, ap, ◌∙◌, List, Option, none, some, map, Bool, true, false, if◌then◌else◌,
}
use rite.Outcome.{Outcome, ok, throws}
use rite.Http.Request.{HttpRequest}
use rite.Http.Response.{HttpResponse}
use rite.Http.Endpoint.{Parameters}
use rite.Http.Layer.{
  Extension, Endpoint, Layer, Handled, completed, queued, find_endpoint, received, prepared,
  after_finish, after_handler, run, waited, launch, refuse, handle,
}
use rite.Http.Layer.Lifting.{
  lift_extension, lift_endpoint, lift_layer, lift_found, received-lift_extension,
  prepared-lift_extension, flushed-lift_extension, find_endpoint-lift_endpoint,
}

abbrev pub keep :
    {W A : Type 0}
    → (HttpResponse → W → A)
    → HttpResponse
    → W × Option A
    → (W × Option A) × Outcome (Unit {0})
keep reply r s = ((s.0, some (reply r s.0)), ok tt)

abbrev pub send :
    {W A P : Type 0}
    → (HttpResponse → W → A)
    → (A → P → P)
    → HttpResponse
    → W × P
    → (W × P) × Outcome (Unit {0})
send reply deliver r s = ((s.0, deliver (reply r s.0) s.1), ok tt)

abbrev pub delivery : {A P : Type 0} → (A → P → P) → Option A → P → P
delivery deliver none p = p
delivery deliver (some a) p = deliver a p

module _ {W A P : Type 0} (groups : List ℕ → List ℕ → Option (List (List ℕ)))
    (reply : HttpResponse → W → A) (deliver : A → P → P) where
  -- What was kept, sent to `p`.
  abbrev pub sent_to : {R : Type 0} → P → (W × Option A) × R → (W × P) × R
  sent_to p q = ((q.0.0, delivery deliver q.0.1 p), q.1)

  after_handler-keep :
      (xs : List (Extension W)) (w : W) (o : Outcome (HttpRequest × HttpResponse)) (p : P)
      → after_handler groups (send reply deliver) (map (lift_extension P) xs) ((w, p), o)
        ≡ sent_to p
            (after_handler groups (keep reply) (map (lift_extension (Option A)) xs) ((w, none), o))
  unfolding after_handler after_finish
  after_handler-keep xs w (throws e) p = refl
  after_handler-keep xs w (ok (req, r)) p =
      let q = prepared groups xs req r w in
      rw
        (
          prepared-lift_extension P groups xs req r w p,
          prepared-lift_extension (Option A) groups xs req r w none,
        )
        (rw
          (
            flushed-lift_extension P groups xs q.0.0 q.0.1 q.1 (deliver (reply q.0.1 q.1) p),
            flushed-lift_extension (Option A) groups xs q.0.0 q.0.1 q.1 (some (reply q.0.1 q.1)),
          )
          refl)

  waited-keep :
      (s : (W × Option A) × Outcome (Unit {0})) (p : P)
      → waited groups (send reply deliver) (sent_to p s) ≡ sent_to p (waited groups (keep reply) s)
  unfolding waited
  waited-keep (s, ok u) p = refl
  waited-keep (s, throws e) p = refl

  -- How the task is launched, when what it comes to is given.
  abbrev launched_send :
      Bool → Bool → W × P → (W × P) × Outcome (Unit {0}) → (W × P) × Outcome Handled
  launched_send pool apart s result =
      if pool
      then (s, ok queued)
      else if apart
      then (result.0, ok completed)
      else waited groups (send reply deliver) result

  abbrev launched_keep :
      Bool
      → Bool
      → W × Option A
      → (W × Option A) × Outcome (Unit {0})
      → (W × Option A) × Outcome Handled
  launched_keep pool apart s result =
      if pool
      then (s, ok queued)
      else if apart
      then (result.0, ok completed)
      else waited groups (keep reply) result

  launched-keep :
      (pool apart : Bool) (w : W) (s : (W × Option A) × Outcome (Unit {0})) (p : P)
      → launched_send pool apart (w, p) (sent_to p s)
        ≡ sent_to p (launched_keep pool apart (w, none) s)
  launched-keep true apart w s p = refl
  launched-keep false true w s p = refl
  launched-keep false false w s p = waited-keep s p

  launch-keep :
      (xs : List (Extension W)) (e : Endpoint W) (ps : Parameters) (req : HttpRequest) (w : W)
      (p : P)
      → launch groups
          (send reply deliver)
          (map (lift_extension P) xs)
          (lift_endpoint P e)
          ps
          req
          (w, p)
        ≡ sent_to p (
            launch groups
              (keep reply)
              (map (lift_extension (Option A)) xs)
              (lift_endpoint (Option A) e)
              ps
              req
              (w, none))
  unfolding launch run
  launch-keep xs e ps req w p =
      let handled = e.handler req ps w in
      let kept =
        after_handler groups (keep reply) (map (lift_extension (Option A)) xs)
          ((handled.0, none), handled.1) in
      ap (launched_send e.thread_pool e.asynchronous (w, p))
        (after_handler-keep xs handled.0 handled.1 p)
      ∙ launched-keep e.thread_pool e.asynchronous w kept p

  refuse-keep :
      (l : Layer W) (req : HttpRequest) (w : W) (p : P)
      → refuse groups (send reply deliver) (lift_layer P l) req (w, p)
        ≡ sent_to p (refuse groups (keep reply) (lift_layer (Option A) l) req (w, none))
  unfolding refuse waited
  refuse-keep l req w p = refl

  -- What `handle` does behind the search for an endpoint.
  abbrev found_send :
      Layer W
      → HttpRequest
      → W × P
      → Option (Endpoint (W × P) × Parameters)
      → (W × P) × Outcome Handled
  found_send l req s found = elim found [
    | some (e, ps) ↦
        launch groups (send reply deliver) (map (lift_extension P) l.extensions) e ps req s
    | none ↦ refuse groups (send reply deliver) (lift_layer P l) req s
  ]

  abbrev found_keep :
      Layer W
      → HttpRequest
      → W × Option A
      → Option (Endpoint (W × Option A) × Parameters)
      → (W × Option A) × Outcome Handled
  found_keep l req s found = elim found [
    | some (e, ps) ↦
        launch groups (keep reply) (map (lift_extension (Option A)) l.extensions) e ps req s
    | none ↦ refuse groups (keep reply) (lift_layer (Option A) l) req s
  ]

  found-keep :
      (l : Layer W) (req : HttpRequest) (w : W) (p : P) (found : Option (Endpoint W × Parameters))
      → found_send l req (w, p) (lift_found P found)
        ≡ sent_to p (found_keep l req (w, none) (lift_found (Option A) found))
  found-keep l req w p none = refuse-keep l req w p
  found-keep l req w p (some (e, ps)) = launch-keep l.extensions e ps req w p

  handle-send :
      (l : Layer W) (req : HttpRequest) (w : W) (p : P)
      → let r = received groups l.extensions req w in
        handle groups (send reply deliver) (lift_layer P l) req (w, p)
        ≡ found_send l r.0 (r.1, p) (lift_found P (find_endpoint groups l.endpoints r.0))
  unfolding handle
  handle-send l req w p =
      let r = received groups l.extensions req w in
      ap (λ q. found_send l q.0 q.1 (find_endpoint groups (map (lift_endpoint P) l.endpoints) q.0))
        (received-lift_extension P groups l.extensions req w p)
      ∙ ap (found_send l r.0 (r.1, p)) (find_endpoint-lift_endpoint P groups l.endpoints r.0)

  handle-keep :
      (l : Layer W) (req : HttpRequest) (w : W)
      → let r = received groups l.extensions req w in
        handle groups (keep reply) (lift_layer (Option A) l) req (w, none)
        ≡ found_keep l r.0
            (r.1, none)
            (lift_found (Option A) (find_endpoint groups l.endpoints r.0))
  unfolding handle
  handle-keep l req w =
      let r = received groups l.extensions req w in
      ap
        (λ q.
          found_keep l q.0 q.1
            (find_endpoint groups (map (lift_endpoint (Option A)) l.endpoints) q.0))
        (received-lift_extension (Option A) groups l.extensions req w none)
      ∙ ap (found_keep l r.0 (r.1, none))
          (find_endpoint-lift_endpoint (Option A) groups l.endpoints r.0)

  -- Whatever the endpoints, the handlers and the extensions of a layer are, as long as they leave the
  -- connection alone: `handle` with a `finish` that sends the response ends as it does with one that
  -- keeps it, leaves the application and its extensions in the same state, and leaves the connection
  -- as it is after sending what was kept, or as it was if no response was made.
  pub handle-sent_to :
      (l : Layer W) (req : HttpRequest) (w : W) (p : P)
      → handle groups (send reply deliver) (lift_layer P l) req (w, p)
        ≡ sent_to p (handle groups (keep reply) (lift_layer (Option A) l) req (w, none))
  handle-sent_to l req w p =
      let r = received groups l.extensions req w in
      handle-send l req w p
      ∙ found-keep l r.0 r.1 p (find_endpoint groups l.endpoints r.0)
      ∙ sym (ap (sent_to p) (handle-keep l req w))
