-- ===== src/Odin/Pages/Cards/Rounds.antt =====
-- The loop over the metrics of `card`.
use rite.Prelude.{ℕ, ◌≡◌, refl, ◌∙◌, List, [], ◌∷◌, All, Option, none, some, true, joined, map}
use rite.Text.{codes}
use rite.Outcome.{ok}
use rite.Http.Request.{HttpRequest}
use rite.Http.Query.{get_all}
use rite.Server.Packets.{Answer}
use rite.Server.Content.{html_response}
use rite.Odin.{Odin}
use rite.Odin.Percentiles.{OdinPercentiles, calculate_percentiles}
use rite.Odin.Render.Searching.{IsPlain}
use rite.Odin.Render.Checking.{is_plain, is_plain→IsPlain}
use rite.Odin.Pages.{
  kept, Shown, percentile_card, counter_card, metric_card, cards, with_html, card_page, card,
}
use rite.Odin.Pages.Cards.{
  card_html, entry_of, entry_of-both, lefts, percentile_html, metric_html, Shows,
  percentile_card-Shows, counter_card-Shows,
}

module _ (print_number : ℕ → List ℕ) (print_double : ℕ → List ℕ) (rps : List ℕ) (o : Odin) where
  abbrev Round : Type 0
  Round = List ℕ × (Shown print_number print_double rps o × List ℕ)

  abbrev html_of : List ℕ → (OdinPercentiles → ℕ) → List ℕ
  html_of = percentile_html print_number print_double rps o

  abbrev Showing : Shown print_number print_double rps o → List ℕ → Type 0
  Showing = Shows print_number print_double rps o

  abbrev percentile_round : List ℕ → List ℕ → (OdinPercentiles → ℕ) → Option OdinPercentiles → Round
  percentile_round key name pick cached =
      (key, (percentile_card print_number print_double rps o name pick cached, html_of name pick))

  abbrev counter_round : List ℕ → List ℕ → List ℕ → List ℕ → Option OdinPercentiles → Round
  counter_round key name value explanation cached = (
    key,
    (
      counter_card print_number print_double rps o name value explanation cached,
      card_html name value explanation,
    ),
  )

  -- The rounds of the loop with the cards that they show.
  abbrev rounds : Option OdinPercentiles → List Round
  rounds cached =
      percentile_round (codes "P99") (codes "99th Percentile") (λ p. p.p99) cached
      ∷ percentile_round (codes "P90") (codes "90th Percentile") (λ p. p.p90) cached
      ∷ percentile_round (codes "P75") (codes "75th Percentile") (λ p. p.p75) cached
      ∷ percentile_round (codes "P50") (codes "50th Percentile") (λ p. p.p50) cached
      ∷ counter_round (codes "RPS") (codes "RPS") rps (codes "Requests per second") cached
      ∷ counter_round (codes "total_served") (codes "Total Requests")
          (print_number o.requests_served) (codes "Requests since server start") cached
      ∷ counter_round (codes "2xx") (codes "OK") (print_number o.ok_count)
          (codes "Responses sent with status code 200-299") cached
      ∷ counter_round (codes "4xx") (codes "Client Error") (print_number o.client_error)
          (codes "Responses sent with status code 400-499") cached
      ∷ counter_round (codes "5xx") (codes "Server Error") (print_number o.server_error)
          (codes "Responses sent with status code 500-599") cached
      ∷ []

  metric_card-rounds :
      (metric : List ℕ) (cached : Option OdinPercentiles)
      → metric_card print_number print_double rps o metric cached
        ≡ entry_of metric (lefts (rounds cached)) (ok (cached, []))
  unfolding metric_card
  metric_card-rounds metric cached = refl

  pub cards_answer : Option (List (List ℕ)) → Answer
  cards_answer none = html_response print_number 400 []
  cards_answer (some metrics) = with_html (
      html_response print_number 200
        (joined (map (metric_html print_number print_double rps o) metrics)))

  module _ (numbers : (n : ℕ) → IsPlain (print_number n))
      (doubles : (n : ℕ) → IsPlain (print_double n)) (rate : IsPlain rps) where
    percentile_row :
        (name : List ℕ) (pick : OdinPercentiles → ℕ) (cached : Option OdinPercentiles)
        → is_plain name ≡ true
        → kept o cached ≡ calculate_percentiles o
        → Showing
            (percentile_card print_number print_double rps o name pick cached)
            (html_of name pick)
    percentile_row name pick cached p e =
        percentile_card-Shows print_number print_double rps o name pick cached doubles
          (is_plain→IsPlain name p) e

    counter_row :
        (name value explanation : List ℕ) (cached : Option OdinPercentiles)
        → is_plain name ≡ true
        → is_plain explanation ≡ true
        → IsPlain value
        → kept o cached ≡ calculate_percentiles o
        → Showing
            (counter_card print_number print_double rps o name value explanation cached)
            (card_html name value explanation)
    counter_row name value explanation cached p q v e =
        counter_card-Shows print_number print_double rps o name value explanation cached
          (is_plain→IsPlain name p) v (is_plain→IsPlain explanation q) e

    rounds-Shows :
        (cached : Option OdinPercentiles)
        → kept o cached ≡ calculate_percentiles o
        → All (λ r. Showing r.1.0 r.1.1) (rounds cached)
    rounds-Shows cached e = (
      percentile_row _ (λ p. p.p99) cached refl e,
      (
        percentile_row _ (λ p. p.p90) cached refl e,
        (
          percentile_row _ (λ p. p.p75) cached refl e,
          (
            percentile_row _ (λ p. p.p50) cached refl e,
            (
              counter_row _ _ _ cached refl refl rate e,
              (
                counter_row _ _ _ cached refl refl (numbers o.requests_served) e,
                (
                  counter_row _ _ _ cached refl refl (numbers o.ok_count) e,
                  (
                    counter_row _ _ _ cached refl refl (numbers o.client_error) e,
                    (counter_row _ _ _ cached refl refl (numbers o.server_error) e, tt),
                  ),
                ),
              ),
            ),
          ),
        ),
      ),
    )

    cards-joined :
        (metrics : List (List ℕ)) (cached : Option OdinPercentiles)
        → kept o cached ≡ calculate_percentiles o
        → cards print_number print_double rps o metrics cached
          ≡ ok (joined (map (metric_html print_number print_double rps o) metrics))
    unfolding cards
    cards-joined [] cached e = refl
    cards-joined (metric ∷ metrics) cached e =
        let (c, still, shown) =
          entry_of-both Showing metric (rounds cached) (ok (cached, [])) [] (rounds-Shows cached e)
            (cached, e, refl) in
        rw (metric_card-rounds metric cached ∙ shown, cards-joined metrics c still) refl

    card_page-answer :
        (metrics : Option (List (List ℕ)))
        → card_page print_number print_double rps o metrics ≡ ok (cards_answer metrics)
    unfolding card_page cards_answer kept
    card_page-answer none = refl
    card_page-answer (some metrics) = rw (cards-joined metrics none refl) refl

    -- The cards: without a parameter `metric` the answer is 400, and otherwise 200 with the card of
    -- each metric that is in the table, in the order of the query and with nothing for a metric that
    -- is not. All percentiles are those of the samples, also where an earlier card has worked them
    -- out, if numbers and the request rate are printed without a `%`.
    pub card-card_table :
        (req : HttpRequest)
        → card print_number print_double rps o req
          ≡ ok (cards_answer (get_all (λ text. text) (codes "metric") req.query))
    unfolding card
    card-card_table req = card_page-answer (get_all (λ text. text) (codes "metric") req.query)
