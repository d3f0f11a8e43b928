-- ===== src/Odin/Pages/Rows.antt =====
-- The list of requests.
use rite.Prelude.{◌++◌, Option, none, some, ℕ, ◌/◌, ◌≡◌, refl, List, [], ◌∷◌}
use rite.Text.{codes}
use rite.Http.Request.{HttpRequest}
use rite.Http.Query.{get_one}
use rite.Odin.{OdinHttpRequest}
use rite.Odin.Templates.{row_template}
use rite.Odin.Render.Searching.{IsPlain}
use rite.Odin.Render.Filling.{Piece, literal, slot, written}
use rite.Odin.Pages.{address_text}

-- The template of a row in its pieces.
abbrev pub row_pieces : List Piece
row_pieces =
    literal (
      codes
        "\n<div class=\"flex row gap justify-between -request\">\n<span class=\"-method\" x-http-method=\"")
    ∷ slot (codes "method")
    ∷ literal (codes "\">")
    ∷ slot (codes "method")
    ∷ literal (codes "</span>\n<div class=\"flex column items-center\">\n<span class=\"-path\">")
    ∷ slot (codes "path")
    ∷ literal (codes "</span>\n<span class=\"muted -ip\">")
    ∷ slot (codes "ip")
    ∷ literal (codes "</span>\n</div>\n<span>")
    ∷ slot (codes "size")
    ∷ literal (codes " KiB</span>\n<span>")
    ∷ slot (codes "request_time")
    ∷ literal (codes "</span>\n<span>")
    ∷ slot (codes "processing_time")
    ∷ literal (codes " us</span>\n</div>\n")
    ∷ []

written-row_pieces : written row_pieces ≡ row_template
written-row_pieces = refl

abbrev pub or_twenty : Option ℕ → ℕ
or_twenty (some n) = n
or_twenty none = 20

-- What the query asks for, and 20 if it asks for nothing.
abbrev pub rows_asked : (List ℕ → ℕ) → HttpRequest → ℕ
rows_asked read_size req = or_twenty (get_one read_size (codes "num") req.query)

-- A row as it is shown.
pub row_html : (method path address size processing_time : List ℕ) → List ℕ
row_html method path address size processing_time =
    codes
      "\n<div class=\"flex row gap justify-between -request\">\n<span class=\"-method\" x-http-method=\""
    ++ (method
        ++ (codes "\">"
            ++ (method
                ++ (codes
                      "</span>\n<div class=\"flex column items-center\">\n<span class=\"-path\">"
                    ++ (path
                        ++ (codes "</span>\n<span class=\"muted -ip\">"
                            ++ (address
                                ++ (codes "</span>\n</div>\n<span>"
                                    ++ (size
                                        ++ (codes " KiB</span>\n<span></span>\n<span>"
                                            ++ (processing_time
                                                ++ codes " us</span>\n</div>\n")))))))))))

module _ (print_number : ℕ → List ℕ) (numeric_host : List ℕ → List ℕ × List ℕ) where
  -- A request whose path and address have no `%` in them.
  abbrev pub IsTame : OdinHttpRequest → Type 0
  IsTame r = IsPlain r.path × IsPlain (address_text numeric_host r.ip)

  -- The row of a request, and how many rows the query asks for.
  pub row_page : OdinHttpRequest → List ℕ
  row_page r =
      row_html (print_number r.method) r.path
        ((numeric_host r.ip).0 ++ (b':' ∷ (numeric_host r.ip).1))
        (print_number (r.request_body_len / 1024)) (print_number r.processing_time)
