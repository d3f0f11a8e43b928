-- ===== src/Odin/Pages/Cards.antt =====
-- The cards with the numbers.
pub mod Rounds
use rite.Prelude.{
  ℕ, ◌≡◌, ◌≢◌, refl, ap, ◌∙◌, List, [], ◌∷◌, ◌++◌, All, All-append, Option, none, some, true,
  Bool-cases, inl, inr, bytes_eq, if◌then◌else◌, joined, map,
}
use rite.Text.{codes}
use rite.Outcome.{ok, ◌>>=◌}
use rite.Http.Request.{HttpRequest}
use rite.Http.Query.{get_all}
use rite.Server.Packets.{Answer}
use rite.Server.Content.{html_response}
use rite.Odin.{Odin}
use rite.Odin.Percentiles.{OdinPercentiles, calculate_percentiles}
use rite.Odin.Templates.{card_template}
use rite.Odin.Render.Searching.{IsPlain, differ}
use rite.Odin.Render.Filling.{Piece, literal, slot, written, filled, render-written}
use rite.Odin.Render.Checking.{is_plain, All-clear→IsClear, is_plain→IsPlain}
use rite.Odin.Pages.{
  values_of, render_card, sample_explanation, kept, Shown, percentile_card, counter_card,
  metric_card, cards, with_html, card_page, card,
}

-- The template of a card in its pieces.
abbrev pub card_pieces : List Piece
card_pieces =
    literal (codes "\n<div class=\"card\">\n<p class=\"tooltip inline\">")
    ∷ slot (codes "name")
    ∷ literal (codes "\n<span role=\"tooltip-text\">")
    ∷ slot (codes "explanation")
    ∷ literal (codes "</span></p>\n<p class=\"big\">")
    ∷ slot (codes "value")
    ∷ literal (codes "</p>\n</div>\n")
    ∷ []

written-card_pieces : written card_pieces ≡ card_template
written-card_pieces = refl

pub card_html : List ℕ → List ℕ → List ℕ → List ℕ
card_html name value explanation =
    written (map (filled (values_of name value explanation)) card_pieces)

render_card-plain :
    (name value explanation : List ℕ)
    → IsPlain name
    → IsPlain value
    → IsPlain explanation
    → render_card name value explanation ≡ ok (card_html name value explanation)
unfolding render_card card_html differ
render_card-plain name value explanation n v e =
    render-written (values_of name value explanation) card_pieces (
      (n, All-clear→IsClear (codes "name") card_pieces refl),
      (
        (v, All-clear→IsClear (codes "value") card_pieces refl),
        ((e, All-clear→IsClear (codes "explanation") card_pieces refl), tt),
      ),
    )

-- The entry of a metric in a table, or what stands for a metric that is not in it.
abbrev pub entry_of {ℓ} : {A : Type ℓ} → List ℕ → List (List ℕ × A) → A → A
entry_of metric [] missing = missing
entry_of metric ((key, a) ∷ rows) missing =
    if bytes_eq metric key then a else entry_of metric rows missing

abbrev pub lefts {ℓ} : {A B : Type ℓ} → List (List ℕ × (A × B)) → List (List ℕ × A)
lefts rows = map (λ r. (r.0, r.1.0)) rows

abbrev pub rights {ℓ} : {A B : Type ℓ} → List (List ℕ × (A × B)) → List (List ℕ × B)
rights rows = map (λ r. (r.0, r.1.1)) rows

-- Two tables with the same keys.
pub entry_of-both {ℓ} :
    {A B : Type ℓ} (R : A → B → Type ℓ) (metric : List ℕ) (rows : List (List ℕ × (A × B))) (a : A)
    (b : B)
    → All (λ r. R r.1.0 r.1.1) rows
    → R a b
    → R (entry_of metric (lefts rows) a) (entry_of metric (rights rows) b)
entry_of-both R metric [] a b all h = h
entry_of-both R metric ((key, x) ∷ rows) a b all h = elim (Bool-cases (bytes_eq metric key)) [
  | inl e ↦ rw e all.0
  | inr e ↦ rw e (entry_of-both R metric rows a b all.1 h)
]

module _ (print_number : ℕ → List ℕ) (print_double : ℕ → List ℕ) (rps : List ℕ) (o : Odin) where
  abbrev pub percentile_html : List ℕ → (OdinPercentiles → ℕ) → List ℕ
  percentile_html name pick =
      card_html name (print_double (pick (calculate_percentiles o)) ++ codes "ms")
        sample_explanation

  -- The card of each metric.
  abbrev pub card_table : List (List ℕ × List ℕ)
  card_table =
      (codes "P99", percentile_html (codes "99th Percentile") (λ p. p.p99))
      ∷ (codes "P90", percentile_html (codes "90th Percentile") (λ p. p.p90))
      ∷ (codes "P75", percentile_html (codes "75th Percentile") (λ p. p.p75))
      ∷ (codes "P50", percentile_html (codes "50th Percentile") (λ p. p.p50))
      ∷ (codes "RPS", card_html (codes "RPS") rps (codes "Requests per second"))
      ∷ (
        codes "total_served",
        card_html (codes "Total Requests") (print_number o.requests_served)
            (codes "Requests since server start"),
      )
      ∷ (
        codes "2xx",
        card_html (codes "OK") (print_number o.ok_count)
            (codes "Responses sent with status code 200-299"),
      )
      ∷ (
        codes "4xx",
        card_html (codes "Client Error") (print_number o.client_error)
            (codes "Responses sent with status code 400-499"),
      )
      ∷ (
        codes "5xx",
        card_html (codes "Server Error") (print_number o.server_error)
            (codes "Responses sent with status code 500-599"),
      )
      ∷ []

  abbrev pub metric_html : List ℕ → List ℕ
  metric_html metric = entry_of metric card_table []

  -- A round that shows a card, and that keeps no percentiles but those of the samples.
  abbrev pub Shows : Shown print_number print_double rps o → List ℕ → Type 0
  Shows x html =
      (c : Option OdinPercentiles) × (kept o c ≡ calculate_percentiles o) × (x ≡ ok (c, html))

  pub percentile_card-Shows :
      (name : List ℕ) (pick : OdinPercentiles → ℕ) (cached : Option OdinPercentiles)
      → ((n : ℕ) → IsPlain (print_double n))
      → IsPlain name
      → kept o cached ≡ calculate_percentiles o
      → Shows
          (percentile_card print_number print_double rps o name pick cached)
          (percentile_html name pick)
  unfolding percentile_card kept
  percentile_card-Shows name pick cached digits plain e =
      let calculated = pick (calculate_percentiles o) in
      let value = print_double calculated ++ codes "ms" in
      let tame : IsPlain value =
        All-append (λ c. c ≢ b'%') (print_double calculated) (codes "ms") (digits calculated)
          (is_plain→IsPlain (codes "ms") refl) in
      let shown =
        render_card-plain name value sample_explanation plain tame
          (is_plain→IsPlain sample_explanation refl) in
      (
        some (kept o cached),
        e,
        ap
              (λ p.
                render_card name (print_double (pick p) ++ codes "ms") sample_explanation
                >>= λ text. ok (some (kept o cached), text))
              e
            ∙ ap (λ r. r >>= λ text. ok (some (kept o cached), text)) shown,
      )

  pub counter_card-Shows :
      (name value explanation : List ℕ) (cached : Option OdinPercentiles)
      → IsPlain name
      → IsPlain value
      → IsPlain explanation
      → kept o cached ≡ calculate_percentiles o
      → Shows
          (counter_card print_number print_double rps o name value explanation cached)
          (card_html name value explanation)
  unfolding counter_card
  counter_card-Shows name value explanation cached n v x e =
      (cached, e, rw (render_card-plain name value explanation n v x) refl)
