-- ===== src/Http/Layer.antt =====
-- `layer` of include/http/behaviour.hpp: the endpoints of an application and its extensions, and how a
-- request becomes a response. `W` is the state of the application, its extensions and the connection,
-- which the calls change. A handler is given the request by reference; the hooks of an extension are
-- taken not to throw.
pub mod Dispatch
pub mod Answers
pub mod Lifting
pub mod Tests
use rite.Prelude.{
  ℕ, List, [], ◌∷◌, Bool, true, false, Option, none, some, ◌==◌, bit_and, if◌then◌else◌,
}
use rite.Outcome.{Outcome, ok, throws}
use rite.Http.Request.{HttpRequest}
use rite.Http.Response.{HttpResponse}
use rite.Http.Endpoint.{CompiledPath, Parameters, match_path}

pub record Extension (W : Type 0) : Type 0 where
  pub on_request : HttpRequest → W → HttpRequest × W
  pub pre_send : HttpRequest → HttpResponse → W → (HttpRequest × HttpResponse) × W
  pub post_send : HttpRequest → HttpResponse → W → (HttpRequest × HttpResponse) × W

-- `thread_pool` is whether there is one.
pub record Endpoint (W : Type 0) : Type 0 where
  pub method : ℕ
  pub path : CompiledPath
  pub handler : HttpRequest → Parameters → W → W × Outcome (HttpRequest × HttpResponse)
  pub asynchronous : Bool
  pub thread_pool : Bool

pub record Layer (W : Type 0) : Type 0 where
  pub endpoints : List (Endpoint W)
  pub extensions : List (Extension W)
  pub not_found : HttpRequest → W → (HttpRequest × HttpResponse) × W

-- How `handle` returns: the handler has run, or its task is in the queue of a thread pool.
pub data Handled : Type 0 where
  completed queued : Handled

module _ {W : Type 0} (groups : List ℕ → List ℕ → Option (List (List ℕ))) where
  pub accepts : Endpoint W → HttpRequest → Option Parameters
  unfolding match_path
  accepts e req =
      let matched = match_path groups e.path req.path in
      if bit_and e.method req.method == 0 then none else matched

  -- `none` is the exception eNoEndpoint.
  pub find_endpoint : List (Endpoint W) → HttpRequest → Option (Endpoint W × Parameters)
  unfolding accepts
  find_endpoint [] req = none
  find_endpoint (e ∷ es) req = elim (accepts e req) [
    | some ps ↦ some (e, ps)
    | none ↦ find_endpoint es req
  ]

  pub received : List (Extension W) → HttpRequest → W → HttpRequest × W
  received [] req w = (req, w)
  received (x ∷ xs) req w = let (req', w') = x.on_request req w in received xs req' w'

  pub prepared :
      List (Extension W) → HttpRequest → HttpResponse → W → (HttpRequest × HttpResponse) × W
  prepared [] req r w = ((req, r), w)
  prepared (x ∷ xs) req r w = let ((req', r'), w') = x.pre_send req r w in prepared xs req' r' w'

  pub flushed : List (Extension W) → HttpRequest → HttpResponse → W → W
  flushed [] req r w = w
  flushed (x ∷ xs) req r w = let ((req', r'), w') = x.post_send req r w in flushed xs req' r' w'

  module _ (finish : HttpResponse → W → W × Outcome (Unit {0})) where
    -- Behind `finish`.
    pub after_finish :
        List (Extension W)
        → HttpRequest
        → HttpResponse
        → W × Outcome (Unit {0})
        → W × Outcome (Unit {0})
    unfolding flushed
    after_finish xs req r (w, ok u) = (flushed xs req r w, ok tt)
    after_finish xs req r (w, throws e) = (w, throws e)

    pub after_handler :
        List (Extension W) → W × Outcome (HttpRequest × HttpResponse) → W × Outcome (Unit {0})
    unfolding prepared after_finish
    after_handler xs (w, ok (req, r)) =
        let ((req', r'), w') = prepared xs req r w in after_finish xs req' r' (finish r' w')
    after_handler xs (w, throws e) = (w, throws e)

    -- The task.
    pub run :
        List (Extension W) → Endpoint W → Parameters → HttpRequest → W → W × Outcome (Unit {0})
    unfolding after_handler
    run xs e ps req w = after_handler xs (e.handler req ps w)

    pub waited : W × Outcome (Unit {0}) → W × Outcome Handled
    waited (w, ok u) = (w, ok completed)
    waited (w, throws e) = (w, throws e)

    -- A deferred task runs in `handler.get()`. The destructor of the future of an asynchronous one waits
    -- for it, and drops what it throws.
    pub launch :
        List (Extension W) → Endpoint W → Parameters → HttpRequest → W → W × Outcome Handled
    unfolding run waited
    launch xs e ps req w =
        let (w', result) = run xs e ps req w in
        if e.thread_pool
        then (w, ok queued)
        else if e.asynchronous
        then (w', ok completed)
        else waited (w', result)

    pub refuse : Layer W → HttpRequest → W → W × Outcome Handled
    unfolding waited
    refuse l req w = let ((req', r), w') = l.not_found req w in waited (finish r w')

    unfoldable pub handle : Layer W → HttpRequest → W → W × Outcome Handled
    unfolding received find_endpoint launch refuse
    handle l req w =
        let (req', w') = received l.extensions req w in
        elim (find_endpoint l.endpoints req') [
          | some (e, ps) ↦ launch l.extensions e ps req' w'
          | none ↦ refuse l req' w'
        ]
