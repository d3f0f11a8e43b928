-- ===== src/Odin/Pages.antt =====
-- The pages of modules/odin/src/odin.cpp. `print_number` is std::to_string and std::format of whole
-- numbers, `print_double` std::format of a double that is a whole number, `numeric_host` what
-- getnameinfo writes for an address (host and port), `rps` the request rate as it is shown, and
-- `read_size` the reading of a size_t from a stream. The values of a template are in the order of
-- their initialiser. A page of the program's own style sheet is left out.
pub mod Cards
pub mod Rows
mod Tests
use rite.Prelude.{
  ℕ, zero, suc, ◌/◌, List, [], ◌∷◌, ◌++◌, Option, none, some, bytes_eq, if◌then◌else◌, length, min,
}
use rite.Text.{codes}
use rite.Outcome.{Outcome, ok, ◌>>=◌}
use rite.Http.Request.{HttpRequest}
use rite.Http.Response.{put_header}
use rite.Http.Query.{get_one, get_all}
use rite.Server.Packets.{Answer}
use rite.Server.Content.{html_response}
use rite.Odin.{Odin, OdinHttpRequest}
use rite.Odin.Percentiles.{OdinPercentiles, calculate_percentiles}
use rite.Odin.Render.{render}
use rite.Odin.Templates.{page_head, page_end, index_text, row_template, card_template}

unfoldable pub body_ : List ℕ → List ℕ
body_ inner = page_head ++ (inner ++ page_end)

abbrev pub values_of : List ℕ → List ℕ → List ℕ → List (List ℕ × List ℕ)
values_of name value explanation =
    (codes "name", name) ∷ (codes "value", value) ∷ (codes "explanation", explanation) ∷ []

unfoldable pub render_card : List ℕ → List ℕ → List ℕ → Outcome (List ℕ)
unfolding render
render_card name value explanation = render (values_of name value explanation) card_template

abbrev pub sample_explanation : List ℕ
sample_explanation = codes "The sample size for percentiles is the most recent 32768 requests."

-- `if (!percentile) percentile = calculate_percentiles()`.
unfoldable pub kept : Odin → Option OdinPercentiles → OdinPercentiles
kept o none = calculate_percentiles o
kept o (some p) = p

abbrev pub address_text : (numeric_host : List ℕ → List ℕ × List ℕ) → List ℕ → List ℕ
address_text numeric_host ip = let (host, port) = numeric_host ip in host ++ (b':' ∷ port)

abbrev pub row_count : (read_size : List ℕ → ℕ) → HttpRequest → ℕ
row_count read_size req = elim (get_one read_size (codes "num") req.query) [
  | some n ↦ n
  | none ↦ 20
]

abbrev pub with_html : Answer → Answer
with_html a = record a {
  response = put_header (codes "Content-Type") (codes "text/html") a.response;
}

module _ (print_number : ℕ → List ℕ) where
  unfoldable pub index : HttpRequest → Answer
  unfolding body_
  index req = html_response print_number 200 (body_ index_text)

  module _ (numeric_host : List ℕ → List ℕ × List ℕ) where
    abbrev pub row_values : OdinHttpRequest → List (List ℕ × List ℕ)
    row_values r =
        (codes "method", print_number r.method)
        ∷ (codes "path", r.path)
        ∷ (codes "ip", address_text numeric_host r.ip)
        ∷ (codes "size", print_number (r.request_body_len / 1024))
        ∷ (codes "request_time", [])
        ∷ (codes "processing_time", print_number r.processing_time)
        ∷ []

    unfoldable pub serialize_odin_request : OdinHttpRequest → Outcome (List ℕ)
    unfolding render
    serialize_odin_request r = render (row_values r) row_template

    -- The loop over the ring buffer, up to a number of its elements.
    unfoldable pub list_rows : ℕ → List OdinHttpRequest → Outcome (List ℕ)
    unfolding serialize_odin_request
    list_rows zero ring = ok []
    list_rows (suc n) [] = ok []
    list_rows (suc n) (r ∷ ring) = do
      row ← serialize_odin_request r
      rest ← list_rows n ring
      ok (row ++ rest)

    unfoldable pub request_list : (read_size : List ℕ → ℕ) → HttpRequest → Odin → Outcome Answer
    unfolding list_rows
    request_list read_size req o = do
      body ← list_rows (min (row_count read_size req) (length o.ring_buffer)) o.ring_buffer
      ok (html_response print_number 200 body)

  module _ (print_double : ℕ → List ℕ) (rps : List ℕ) (o : Odin) where
    abbrev pub Shown : Type 0
    Shown = Outcome (Option OdinPercentiles × List ℕ)

    pub percentile_card : List ℕ → (OdinPercentiles → ℕ) → Option OdinPercentiles → Shown
    unfolding render_card kept
    percentile_card name pick cached = do
      text ← render_card name (print_double (pick (kept o cached)) ++ codes "ms") sample_explanation
      ok (some (kept o cached), text)

    pub counter_card : List ℕ → List ℕ → List ℕ → Option OdinPercentiles → Shown
    unfolding render_card
    counter_card name value explanation cached = do
      text ← render_card name value explanation
      ok (cached, text)

    -- A round of the loop over the metrics.
    metric_card : List ℕ → Option OdinPercentiles → Shown
    unfolding percentile_card counter_card
    metric_card metric cached =
        if bytes_eq metric (codes "P99")
        then percentile_card (codes "99th Percentile") (λ p. p.p99) cached
        else if bytes_eq metric (codes "P90")
        then percentile_card (codes "90th Percentile") (λ p. p.p90) cached
        else if bytes_eq metric (codes "P75")
        then percentile_card (codes "75th Percentile") (λ p. p.p75) cached
        else if bytes_eq metric (codes "P50")
        then percentile_card (codes "50th Percentile") (λ p. p.p50) cached
        else if bytes_eq metric (codes "RPS")
        then counter_card (codes "RPS") rps (codes "Requests per second") cached
        else if bytes_eq metric (codes "total_served")
        then counter_card (codes "Total Requests") (print_number o.requests_served)
            (codes "Requests since server start") cached
        else if bytes_eq metric (codes "2xx")
        then counter_card (codes "OK") (print_number o.ok_count)
            (codes "Responses sent with status code 200-299") cached
        else if bytes_eq metric (codes "4xx")
        then counter_card (codes "Client Error") (print_number o.client_error)
            (codes "Responses sent with status code 400-499") cached
        else if bytes_eq metric (codes "5xx")
        then counter_card (codes "Server Error") (print_number o.server_error)
            (codes "Responses sent with status code 500-599") cached
        else ok (cached, [])

    cards : List (List ℕ) → Option OdinPercentiles → Outcome (List ℕ)
    unfolding metric_card
    cards [] cached = ok []
    cards (metric ∷ metrics) cached = do
      shown ← metric_card metric cached
      rest ← cards metrics shown.0
      ok (shown.1 ++ rest)

    card_page : Option (List (List ℕ)) → Outcome Answer
    unfolding cards put_header
    card_page none = ok (html_response print_number 400 [])
    card_page (some metrics) = do
      output ← cards metrics none
      ok (with_html (html_response print_number 200 output))

    pub card : HttpRequest → Outcome Answer
    unfolding card_page
    card req = card_page (get_all (λ text. text) (codes "metric") req.query)
