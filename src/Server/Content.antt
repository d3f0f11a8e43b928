-- ===== src/Server/Content.antt =====
-- The constructors of `http_response` of include/http/response.hpp, its content length and its
-- cookies. `print_number` is std::to_string, and `read_number` std::stoll.
pub mod Delivery
mod Tests
use rite.Prelude.{ℕ, List, [], ◌∷◌, ◌++◌, Option, none, some, length}
use rite.Text.{codes}
use rite.Outcome.{Outcome, ok}
use rite.Http.Request.{header}
use rite.Http.Response.{HttpResponse, put_header}
use rite.Server.Packets.{Answer}

abbrev pub length_key : List ℕ
length_key = codes "Content-Length"

module _ (print_number : ℕ → List ℕ) where
  unfoldable pub set_content_length : ℕ → HttpResponse → HttpResponse
  unfolding put_header
  set_content_length size r = put_header length_key (print_number size) r

  -- Status, content type and body, all of which is one buffer, the last one.
  unfoldable pub content_response : ℕ → List ℕ → List ℕ → Answer
  unfolding set_content_length put_header
  content_response code content_type body = record {
    response = set_content_length (length body) (
        put_header (codes "content-type") content_type
          (record { status_code = code; headers = [] }));
    chunks = [];
    final = body;
  }

  abbrev pub html_response : ℕ → List ℕ → Answer
  html_response code body = content_response code (codes "text/html") body

module _ (read_number : List ℕ → Outcome ℕ) where
  unfoldable pub content_length : HttpResponse → Outcome ℕ
  unfolding header
  content_length r = elim (header length_key r.headers) [
    | none ↦ ok 0
    | some text ↦ read_number text
  ]

-- `cookies().set(key, value)` of a value whose text is given.
pub set_cookie : List ℕ → List ℕ → HttpResponse → HttpResponse
unfolding put_header
set_cookie key text r = put_header (codes "set-cookie") (key ++ (b'=' ∷ text)) r
