-- ===== src/Http/Layer/Lifting.antt =====
-- A layer over more state than its own: what it makes of a response is the argument `finish`, and the
-- rest of the state is not its business.
pub mod Capture
use rite.Prelude.{
  ℕ, ◌≡◌, refl, sym, ap, ◌∙◌, List, [], ◌∷◌, Option, none, some, map, Bool, true, false,
  if◌then◌else◌, ◌==◌, bit_and,
}
use rite.Outcome.{Outcome, ok, throws}
use rite.Http.Request.{HttpRequest}
use rite.Http.Response.{HttpResponse}
use rite.Http.Endpoint.{Parameters}
use rite.Http.Layer.{
  Extension, Endpoint, Layer, accepts, find_endpoint, received, prepared, flushed,
}

module _ {W : Type 0} (S : Type 0) where
  abbrev pub lift_extension : Extension W → Extension (W × S)
  lift_extension x = record {
    on_request = λ req s. let (req', w') = x.on_request req s.0 in (req', (w', s.1));
    pre_send = λ req r s. let (rr, w') = x.pre_send req r s.0 in (rr, (w', s.1));
    post_send = λ req r s. let (rr, w') = x.post_send req r s.0 in (rr, (w', s.1));
  }

  abbrev pub lift_endpoint : Endpoint W → Endpoint (W × S)
  lift_endpoint e = record {
    method = e.method;
    path = e.path;
    handler = λ req ps s. let (w', o) = e.handler req ps s.0 in ((w', s.1), o);
    asynchronous = e.asynchronous;
    thread_pool = e.thread_pool;
  }

  abbrev pub lift_layer : Layer W → Layer (W × S)
  lift_layer l = record {
    endpoints = map lift_endpoint l.endpoints;
    extensions = map lift_extension l.extensions;
    not_found = λ req s. let (rr, w') = l.not_found req s.0 in (rr, (w', s.1));
  }

  abbrev pub lift_found : Option (Endpoint W × Parameters) → Option (Endpoint (W × S) × Parameters)
  lift_found none = none
  lift_found (some (e, ps)) = some (lift_endpoint e, ps)

  module _ (groups : List ℕ → List ℕ → Option (List (List ℕ))) where
    pub received-lift_extension :
        (xs : List (Extension W)) (req : HttpRequest) (w : W) (s : S)
        → received groups (map lift_extension xs) req (w, s)
          ≡ ((received groups xs req w).0, ((received groups xs req w).1, s))
    unfolding received
    received-lift_extension [] req w s = refl
    received-lift_extension (x ∷ xs) req w s =
        let r = x.on_request req w in received-lift_extension xs r.0 r.1 s

    pub prepared-lift_extension :
        (xs : List (Extension W)) (req : HttpRequest) (r : HttpResponse) (w : W) (s : S)
        → prepared groups (map lift_extension xs) req r (w, s)
          ≡ ((prepared groups xs req r w).0, ((prepared groups xs req r w).1, s))
    unfolding prepared
    prepared-lift_extension [] req r w s = refl
    prepared-lift_extension (x ∷ xs) req r w s =
        let q = x.pre_send req r w in prepared-lift_extension xs q.0.0 q.0.1 q.1 s

    pub flushed-lift_extension :
        (xs : List (Extension W)) (req : HttpRequest) (r : HttpResponse) (w : W) (s : S)
        → flushed groups (map lift_extension xs) req r (w, s) ≡ (flushed groups xs req r w, s)
    unfolding flushed
    flushed-lift_extension [] req r w s = refl
    flushed-lift_extension (x ∷ xs) req r w s =
        let q = x.post_send req r w in flushed-lift_extension xs q.0.0 q.0.1 q.1 s

    abbrev later_found :
        Option Parameters
        → Endpoint W
        → Option (Endpoint (W × S) × Parameters)
        → Option (Endpoint (W × S) × Parameters)
    later_found o e later = elim o as (λ _. Option (Endpoint (W × S) × Parameters)) [
      | some ps ↦ some (lift_endpoint e, ps)
      | none ↦ later
    ]

    step-lift_found :
        (e : Endpoint W) (o : Option Parameters) (later : Option (Endpoint W × Parameters))
        → later_found o e (lift_found later)
          ≡ lift_found (elim o as (λ _. Option (Endpoint W × Parameters)) [
            | some ps ↦ some (e, ps)
            | none ↦ later
          ])
    step-lift_found e none later = refl
    step-lift_found e (some ps) later = refl

    pub find_endpoint-lift_endpoint :
        (es : List (Endpoint W)) (req : HttpRequest)
        → find_endpoint groups (map lift_endpoint es) req ≡ lift_found (find_endpoint groups es req)
    unfolding find_endpoint accepts
    find_endpoint-lift_endpoint [] req = refl
    find_endpoint-lift_endpoint (e ∷ es) req =
        ap (later_found (accepts groups e req) e) (find_endpoint-lift_endpoint es req)
        ∙ step-lift_found e (accepts groups e req) (find_endpoint groups es req)
