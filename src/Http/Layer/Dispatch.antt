-- ===== src/Http/Layer/Dispatch.antt =====
-- Which endpoint gets a request.
use rite.Prelude.{
  ℕ, ◌≡◌, ◌≢◌, ◌⊎◌, bit_and, ==-ne, ==_iff, ℕ_discrete, refl, ap, inl, inr, List, [], ◌∷◌, ◌++◌,
  All, Option, none, some, Option-cases,
}
use rite.Http.Request.{HttpRequest}
use rite.Http.Endpoint.{Parameters, match_path}
use rite.Http.Layer.{Endpoint, accepts, find_endpoint}

module _ {W : Type 0} (groups : List ℕ → List ℕ → Option (List (List ℕ))) where
  -- The method of the request is not among those of the endpoint, or its path does not match.
  abbrev pub Refuses : HttpRequest → Endpoint W → Type 0
  Refuses req e = (bit_and e.method req.method ≡ 0) ⊎ (match_path groups e.path req.path ≡ none)

  -- The endpoint is in the list, it accepts the request, and none before it does.
  pub record IsFirst (es : List (Endpoint W)) (req : HttpRequest) (e : Endpoint W) (ps : Parameters)
      : Type 0 where
    pub before : List (Endpoint W)
    pub after : List (Endpoint W)
    pub split : es ≡ before ++ (e ∷ after)
    pub refused : All (Refuses req) before
    pub has_method : bit_and e.method req.method ≢ 0
    pub matched : match_path groups e.path req.path ≡ some ps

  -- What a search for an endpoint means.
  abbrev pub Finding : List (Endpoint W) → HttpRequest → Option (Endpoint W × Parameters) → Type 0
  Finding es req none = All (Refuses req) es
  Finding es req (some (e, ps)) = IsFirst es req e ps

  further :
      (a : Endpoint W) (es : List (Endpoint W)) (req : HttpRequest)
      (found : Option (Endpoint W × Parameters))
      → Refuses req a
      → Finding es req found
      → Finding (a ∷ es) req found
  further a es req none h f = (h, f)
  further a es req (some (e, ps)) h f = record {
    before = a ∷ f.before;
    after = f.after;
    split = ap (λ l. a ∷ l) f.split;
    refused = (h, f.refused);
    has_method = f.has_method;
    matched = f.matched;
  }

  accepts-none : (e : Endpoint W) (req : HttpRequest) → accepts groups e req ≡ none → Refuses req e
  unfolding accepts
  accepts-none e req h = elim (ℕ_discrete (bit_and e.method req.method) 0) [
    | yes z ↦ inl z
    | no n ↦ inr (rw (==-ne (bit_and e.method req.method) 0 n) at h)
  ]

  accepts-some :
      (e : Endpoint W) (req : HttpRequest) (ps : Parameters)
      → accepts groups e req ≡ some ps
      → (bit_and e.method req.method ≢ 0) × (match_path groups e.path req.path ≡ some ps)
  unfolding accepts
  accepts-some e req ps h = elim (ℕ_discrete (bit_and e.method req.method) 0) [
    | yes z ↦ let gone = rw ((==_iff (bit_and e.method req.method) 0).1 z) at h in absurd cc
    | no n ↦ (n, rw (==-ne (bit_and e.method req.method) 0 n) at h)
  ]

  -- On every list of endpoints and every request, the search gives the first endpoint that has the
  -- method of the request and whose path matches, with its parameters; and if it gives none, then
  -- each endpoint lacks the method or its path does not match.
  pub find_endpoint-Finding :
      (es : List (Endpoint W)) (req : HttpRequest) → Finding es req (find_endpoint groups es req)
  unfolding find_endpoint
  find_endpoint-Finding [] req = tt
  find_endpoint-Finding (e ∷ es) req = elim (Option-cases (accepts groups e req)) [
    | inl h ↦
        rw (h, find_endpoint)
          (further e es req (find_endpoint groups es req) (accepts-none e req h)
            (find_endpoint-Finding es req))
    | inr (ps, h) ↦
        rw (h, find_endpoint)
          (record {
            before = [];
            after = es;
            split = refl;
            refused = tt;
            has_method = (accepts-some e req ps h).0;
            matched = (accepts-some e req ps h).1;
          })
  ]
