-- ===== src/Http/Request.antt =====
-- `http_request` of include/http/request.hpp, with its method, version, headers and query of
-- include/http/method.hpp, version.hpp, header_map.hpp and query_parameters.hpp. Of the context only
-- the stream id that HTTP/2 stores is kept, and the pointer to the client is left out.
pub mod Headers
pub mod Order
use rite.Prelude.{
  ℕ, List, [], ◌∷◌, Option, none, some, bytes_eq, if◌then◌else◌, ◌||◌, ◌&&◌, ◌==◌, Bool, true,
  false, ltb,
}
use rite.Text.{codes}

-- The enumerators of `http_method` are bits.
abbrev pub get : ℕ
get = 1

abbrev pub head : ℕ
head = 2

abbrev pub post : ℕ
post = 4

abbrev pub put : ℕ
put = 8

abbrev pub delete : ℕ
delete = 16

abbrev pub connect : ℕ
connect = 32

abbrev pub options : ℕ
options = 64

abbrev pub trace : ℕ
trace = 128

abbrev pub patch : ℕ
patch = 256

pub data HttpVersion : Type 0 where
  http_1_0 http_1_1 http_2_0 http_3_0 : HttpVersion

pub record HttpRequest : Type 0 where
  pub path : List ℕ
  pub query : List (List ℕ × List ℕ)
  pub method : ℕ
  pub body : List ℕ
  pub headers : List (List ℕ × List ℕ)
  pub stream_id : Option ℕ
  pub version : HttpVersion

-- `http_request{}`.
abbrev pub empty_request : HttpRequest
empty_request = record {
  path = [];
  query = [];
  method = 0;
  body = [];
  headers = [];
  stream_id = none;
  version = http_1_0;
}

-- `operator<` on strings, which a std::map is ordered by.
unfoldable pub text_lt : List ℕ → List ℕ → Bool
text_lt [] [] = false
text_lt [] (y ∷ ys) = true
text_lt (x ∷ xs) [] = false
text_lt (x ∷ xs) (y ∷ ys) = if ltb x y then true else x == y && text_lt xs ys

-- `headers_[key] = value` on a std::map, the list of its entries in their order.
unfoldable pub set_header {ℓ} : {A : Type ℓ} → List ℕ → A → List (List ℕ × A) → List (List ℕ × A)
unfolding text_lt
set_header key value [] = (key, value) ∷ []
set_header key value ((k, v) ∷ rest) =
    if bytes_eq k key
    then (k, value) ∷ rest
    else if text_lt key k
    then (key, value) ∷ (k, v) ∷ rest
    else (k, v) ∷ set_header key value rest

-- `header(key)`.
unfoldable pub header {ℓ} : {A : Type ℓ} → List ℕ → List (List ℕ × A) → Option A
header key [] = none
header key ((k, v) ∷ rest) = if bytes_eq k key then some v else header key rest

-- The chain of comparisons with the nine method names, the same in both protocols.
unfoldable pub method_named : List ℕ → Option ℕ
method_named name =
    if bytes_eq name (codes "GET")
    then some get
    else if bytes_eq name (codes "HEAD")
    then some head
    else if bytes_eq name (codes "POST")
    then some post
    else if bytes_eq name (codes "PUT")
    then some put
    else if bytes_eq name (codes "DELETE")
    then some delete
    else if bytes_eq name (codes "CONNECT")
    then some connect
    else if bytes_eq name (codes "OPTIONS")
    then some options
    else if bytes_eq name (codes "TRACE")
    then some trace
    else if bytes_eq name (codes "PATCH")
    then some patch
    else none

unfoldable pub version_named : List ℕ → Option HttpVersion
version_named name =
    if bytes_eq name (codes "HTTP/1.1")
    then some http_1_1
    else if bytes_eq name (codes "HTTP/2.0")
    then some http_2_0
    else if bytes_eq name (codes "HTTP/3.0")
    then some http_3_0
    else if bytes_eq name (codes "HTTP/1.0")
    then some http_1_0
    else none

-- `method_ == POST || method_ == PUT`.
abbrev pub has_body : ℕ → Bool
has_body method = method == post || method == put
