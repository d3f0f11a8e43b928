-- ===== src/Http/Response.antt =====
-- `serializer<http_response>` of src/http/serializer.cpp, and the headers and the status of
-- `http_response` of include/http/response.hpp. The body is streamed through a channel of another
-- library and is not part of the response here.
pub mod RoundTrip
use rite.Prelude.{ℕ, List, [], ◌∷◌, ◌++◌}
use rite.Text.{codes}
use rite.Http.Request.{set_header}

pub record HttpResponse : Type 0 where
  pub status_code : ℕ
  pub headers : List (List ℕ × List ℕ)

pub set_status_code : ℕ → HttpResponse → HttpResponse
set_status_code code r = record r { status_code = code }

-- `set_header`, which replaces a value that is there.
unfoldable pub put_header : List ℕ → List ℕ → HttpResponse → HttpResponse
unfolding set_header
put_header key value r = record r { headers = set_header key value r.headers }

unfoldable pub header_line : List ℕ × List ℕ → List ℕ
header_line (key, value) = key ++ (58 ∷ 32 ∷ (value ++ (13 ∷ 10 ∷ [])))

unfoldable pub header_lines : List (List ℕ × List ℕ) → List ℕ
unfolding header_line
header_lines [] = []
header_lines (kv ∷ kvs) = header_line kv ++ header_lines kvs

-- `print_number` is `std::ostream << int`.
module _ (print_number : ℕ → List ℕ) where
  unfoldable pub serialize_response : HttpResponse → List ℕ
  unfolding header_lines
  serialize_response r =
      codes "HTTP/1.1 "
      ++ print_number r.status_code
      ++ (13 ∷ 10 ∷ header_lines r.headers)
      ++ (13 ∷ 10 ∷ [])
