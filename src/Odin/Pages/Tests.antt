-- ===== src/Odin/Pages/Tests.antt =====
-- The theorems on the pages at concrete requests.
use rite.Prelude.{ℕ, ◌+◌, ◌%◌, ◌≡◌, refl, List, [], ◌∷◌, arith, map}
use rite.Text.{codes}
use rite.Outcome.{ok}
use rite.Http.Request.{HttpRequest, empty_request, header}
use rite.Http.Query.{get_all}
use rite.Odin.{no_timing, created, timed, admin_user}
use rite.Odin.Recent.{Sent}
use rite.Odin.Render.{render}
use rite.Odin.Render.Searching.{IsPlain, differ}
use rite.Odin.Render.Filling.{Piece, literal, slot, written, filled, render-written}
use rite.Odin.Render.Checking.{All-clear→IsClear, is_plain→IsPlain}
use rite.Odin.Pages.{card}
use rite.Odin.Pages.Cards.Rounds.{cards_answer, card-card_table}

abbrev greeting : List Piece
greeting =
    literal (codes "Dear ") ∷ slot (codes "name") ∷ literal (codes ", ") ∷ slot (codes "rest") ∷ []

abbrev names : List (List ℕ × List ℕ)
names = (codes "name", codes "reader") ∷ []

render-written_example :
    render names (codes "Dear %name, %rest") ≡ ok (written (map (filled names) greeting))
unfolding differ
render-written_example =
    render-written names greeting
      ((is_plain→IsPlain (codes "reader") refl, All-clear→IsClear (codes "name") greeting refl), tt)

greeting_filled : written (map (filled names) greeting) ≡ codes "Dear reader, %rest"
unfolding header
greeting_filled = refl

abbrev digit : ℕ → List ℕ
digit n = (48 + n % 10) ∷ []

digit-IsPlain : (n : ℕ) → IsPlain (digit n)
digit-IsPlain n = omega arith

abbrev local_host : List ℕ → List ℕ × List ℕ
local_host ip = (codes "::1", codes "80")

abbrev list_request : HttpRequest
list_request = record empty_request {
  path = codes "/list";
  query = (codes "metric", codes "2xx") ∷ [];
}

abbrev seen : List Sent
seen =
    (3000000, codes "::1", list_request, timed no_timing)
    ∷ (4000000, [], list_request, admin_user)
    ∷ []

abbrev ten : List ℕ → ℕ
ten text = 10

card-card_table_example :
    card digit digit (codes "0.5") created list_request
    ≡ ok (
        cards_answer digit digit
          (codes "0.5")
          created
          (get_all (λ text. text) (codes "metric") list_request.query))
card-card_table_example =
    card-card_table digit digit (codes "0.5") created digit-IsPlain digit-IsPlain
      (is_plain→IsPlain (codes "0.5") refl) list_request
