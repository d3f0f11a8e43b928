-- ===== src/Http/Layer/Answers.antt =====
-- How often the server is given a response.
use rite.Prelude.{
  ℕ, ◌+◌, ◌≤◌, ◌≡◌, refl, ap, ◌∙◌, subst, inl, inr, List, [], ◌∷◌, arith, All, true, when, Option,
  none, some, Option-cases,
}
use rite.Outcome.{Outcome, ok, throws}
use rite.Http.Request.{HttpRequest}
use rite.Http.Response.{HttpResponse}
use rite.Http.Endpoint.{Parameters}
use rite.Http.Layer.{
  Extension, Endpoint, Layer, Handled, completed, queued, find_endpoint, accepts, received,
  prepared, flushed, after_finish, after_handler, run, waited, launch, refuse, handle,
}

-- `answered` counts the calls of `finish`: the hooks and the handlers make none of their own, and an
-- asynchronous handler does not throw.
pub record IsSilent {W : Type 0} (answered : W → ℕ) (x : Extension W) : Type 0 where
  pub quiet_request : (req : HttpRequest) (w : W) → answered (x.on_request req w).1 ≡ answered w
  pub quiet_send :
      (req : HttpRequest) (r : HttpResponse) (w : W) → answered (x.pre_send req r w).1 ≡ answered w
  pub quiet_sent :
      (req : HttpRequest) (r : HttpResponse) (w : W) → answered (x.post_send req r w).1 ≡ answered w

pub record IsCalm {W : Type 0} (answered : W → ℕ) (e : Endpoint W) : Type 0 where
  pub quiet :
      (req : HttpRequest) (ps : Parameters) (w : W) → answered (e.handler req ps w).0 ≡ answered w
  pub returns :
      e.asynchronous ≡ true
      → (req : HttpRequest) (ps : Parameters) (w : W)
      → (x : HttpRequest × HttpResponse) × ((e.handler req ps w).1 ≡ ok x)

pub record IsCalmLayer {W : Type 0} (answered : W → ℕ) (l : Layer W) : Type 0 where
  pub extensions : All (IsSilent answered) l.extensions
  pub endpoints : All (IsCalm answered) l.endpoints
  pub not_found : (req : HttpRequest) (w : W) → answered (l.not_found req w).1 ≡ answered w

module _ {W : Type 0} (groups : List ℕ → List ℕ → Option (List (List ℕ)))
    (finish : HttpResponse → W → W × Outcome (Unit {0})) (answered : W → ℕ)
    (counts : (r : HttpResponse) (w : W) → answered (finish r w).0 ≡ answered w + 1) where
  -- Once if the handler has run, never if its task waits in a queue, and once at most if an exception leaves
  -- `handle`.
  abbrev pub IsAnswer : ℕ → W × Outcome Handled → Type 0
  IsAnswer n (w, ok completed) = answered w ≡ n + 1
  IsAnswer n (w, ok queued) = answered w ≡ n
  IsAnswer n (w, throws e) = answered w ≤ n + 1

  received-quiet :
      (xs : List (Extension W)) (req : HttpRequest) (w : W)
      → All (IsSilent answered) xs
      → answered (received groups xs req w).1 ≡ answered w
  unfolding received
  received-quiet [] req w h = refl
  received-quiet (x ∷ xs) req w (h, hs) =
      let s = x.on_request req w in received-quiet xs s.0 s.1 hs ∙ h.quiet_request req w

  prepared-quiet :
      (xs : List (Extension W)) (req : HttpRequest) (r : HttpResponse) (w : W)
      → All (IsSilent answered) xs
      → answered (prepared groups xs req r w).1 ≡ answered w
  unfolding prepared
  prepared-quiet [] req r w h = refl
  prepared-quiet (x ∷ xs) req r w (h, hs) =
      let s = x.pre_send req r w in prepared-quiet xs s.0.0 s.0.1 s.1 hs ∙ h.quiet_send req r w

  flushed-quiet :
      (xs : List (Extension W)) (req : HttpRequest) (r : HttpResponse) (w : W)
      → All (IsSilent answered) xs
      → answered (flushed groups xs req r w) ≡ answered w
  unfolding flushed
  flushed-quiet [] req r w h = refl
  flushed-quiet (x ∷ xs) req r w (h, hs) =
      let s = x.post_send req r w in flushed-quiet xs s.0.0 s.0.1 s.1 hs ∙ h.quiet_sent req r w

  after_finish-quiet :
      (xs : List (Extension W)) (req : HttpRequest) (r : HttpResponse) (s : W × Outcome (Unit {0}))
      → All (IsSilent answered) xs
      → answered (after_finish groups finish xs req r s).0 ≡ answered s.0
  unfolding after_finish
  after_finish-quiet xs req r (w, ok u) h = flushed-quiet xs req r w h
  after_finish-quiet xs req r (w, throws e) h = refl

  after_handler-once :
      (xs : List (Extension W)) (x : HttpRequest × HttpResponse) (w : W)
      → All (IsSilent answered) xs
      → answered (after_handler groups finish xs (w, ok x)).0 ≡ answered w + 1
  unfolding after_handler
  after_handler-once xs (req, r) w h =
      let p = prepared groups xs req r w in
      after_finish-quiet xs p.0.0 p.0.1 (finish p.0.1 p.1) h
      ∙ counts p.0.1 p.1
      ∙ ap (λ n. n + 1) (prepared-quiet xs req r w h)

  waited-IsAnswer :
      (n : ℕ) (s : W × Outcome (Unit {0}))
      → answered s.0 ≡ n + 1
      → IsAnswer n (waited groups finish s)
  unfolding waited
  waited-IsAnswer n (w, ok u) h = h
  waited-IsAnswer n (w, throws e) h = omega (arith, h)

  waited-handler :
      (xs : List (Extension W)) (s : W × Outcome (HttpRequest × HttpResponse)) (n : ℕ)
      → All (IsSilent answered) xs
      → answered s.0 ≡ n
      → IsAnswer n (waited groups finish (after_handler groups finish xs s))
  unfolding after_handler waited
  waited-handler xs (w, ok x) n h e =
      waited-IsAnswer n (after_handler groups finish xs (w, ok x))
        (omega (arith, after_handler-once xs x w h, e))
  waited-handler xs (w, throws x) n h e = omega (arith, e)

  launch-IsAnswer :
      (xs : List (Extension W)) (e : Endpoint W) (ps : Parameters) (req : HttpRequest) (w : W)
      → All (IsSilent answered) xs
      → IsCalm answered e
      → IsAnswer (answered w) (launch groups finish xs e ps req w)
  unfolding launch run
  launch-IsAnswer xs e ps req w h calm =
      let P = IsAnswer (answered w) in
      let s = e.handler req ps w in
      when P e.thread_pool _ _ (λ pool. refl)
        (λ no_pool.
          when P e.asynchronous _ _
            (λ apart.
              let (x, returned) = calm.returns apart req ps w in
              ap (λ o. answered (after_handler groups finish xs (s.0, o)).0) returned
              ∙ after_handler-once xs x s.0 h
              ∙ ap (λ n. n + 1) (calm.quiet req ps w))
            (λ here. waited-handler xs s (answered w) h (calm.quiet req ps w)))

  CalmFound : Option (Endpoint W × Parameters) → Type 0
  CalmFound none = Unit {0}
  CalmFound (some (e, ps)) = IsCalm answered e

  find_endpoint-CalmFound :
      (es : List (Endpoint W)) (req : HttpRequest)
      → All (IsCalm answered) es
      → CalmFound (find_endpoint groups es req)
  unfolding find_endpoint CalmFound
  find_endpoint-CalmFound [] req h = tt
  find_endpoint-CalmFound (a ∷ es) req (h, hs) = elim (Option-cases (accepts groups a req)) [
    | inl e ↦ rw (e, find_endpoint) (find_endpoint-CalmFound es req hs)
    | inr (ps, e) ↦ rw (e, find_endpoint) h
  ]

  refuse-IsAnswer :
      (l : Layer W) (req : HttpRequest) (w : W)
      → IsCalmLayer answered l
      → IsAnswer (answered w) (refuse groups finish l req w)
  unfolding refuse
  refuse-IsAnswer l req w calm =
      let p = l.not_found req w in
      waited-IsAnswer (answered w) (finish p.0.1 p.1)
        (counts p.0.1 p.1 ∙ ap (λ n. n + 1) (calm.not_found req w))

  -- An application is given at most one response per request: `handle` calls `finish` exactly once
  -- if it completes, not at all if the handler went to a thread pool, and at most once if it throws.
  -- Neither the hooks nor the handlers call `finish` themselves, and asynchronous handlers do not throw.
  pub handle-IsAnswer :
      (l : Layer W) (req : HttpRequest) (w : W)
      → IsCalmLayer answered l
      → IsAnswer (answered w) (handle groups finish l req w)
  unfolding handle CalmFound
  handle-IsAnswer l req w calm =
      let s = received groups l.extensions req w in
      let same = received-quiet l.extensions req w calm.extensions in
      elim (Option-cases (find_endpoint groups l.endpoints s.0)) [
        | inl e ↦
            rw (e, handle)
              (subst (λ n. IsAnswer n (refuse groups finish l s.0 s.1)) same
                (refuse-IsAnswer l s.0 s.1 calm))
        | inr ((e, ps), found) ↦
            let of_list = find_endpoint-CalmFound l.endpoints s.0 calm.endpoints in
            rw (found, handle)
              (subst (λ n. IsAnswer n (launch groups finish l.extensions e ps s.0 s.1)) same
                (launch-IsAnswer l.extensions e ps s.0 s.1 calm.extensions
                  (subst CalmFound found of_list)))
      ]
