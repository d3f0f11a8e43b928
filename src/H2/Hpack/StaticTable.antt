-- ===== src/H2/Hpack/StaticTable.antt =====
-- `h2::hpack::STATIC_HEADER_TABLE` of src/protocols/h2/hpack.cpp, in the order of its initialiser.
use Prim.Native.String.{String}
use rite.Prelude.{ℕ, List, [], ◌∷◌}
use rite.Text.{codes}

-- `h2::hpack::header`.
pub record Header : Type 0 where
  pub key : List ℕ
  pub value : List ℕ

abbrev entry : ℕ → String → String → ℕ × Header
entry index key value = (index, record { key = codes key; value = codes value })

unfoldable pub static_header_table : List (ℕ × Header)
static_header_table =
    entry 1 ":authority" ""
    ∷ entry 2 ":method" "GET"
    ∷ entry 3 ":method" "POST"
    ∷ entry 4 ":path" "/"
    ∷ entry 5 ":path" "/index.html"
    ∷ entry 6 ":scheme" "http"
    ∷ entry 7 ":scheme" "https"
    ∷ entry 8 ":status" "200"
    ∷ entry 9 ":status" "204"
    ∷ entry 10 ":status" "206"
    ∷ entry 11 ":status" "304"
    ∷ entry 12 ":status" "400"
    ∷ entry 13 ":status" "404"
    ∷ entry 14 ":status" "500"
    ∷ entry 15 "accept-charset" ""
    ∷ entry 16 "accept-encoding" "gzip, deflate"
    ∷ entry 17 "accept-language" ""
    ∷ entry 18 "accept-ranges" ""
    ∷ entry 19 "accept" ""
    ∷ entry 20 "access-control-allow-origin" ""
    ∷ entry 21 "age" ""
    ∷ entry 22 "allow" ""
    ∷ entry 23 "authorization" ""
    ∷ entry 24 "cache-control" ""
    ∷ entry 25 "content-disposition" ""
    ∷ entry 26 "content-encoding" ""
    ∷ entry 27 "content-language" ""
    ∷ entry 28 "content-length" ""
    ∷ entry 29 "content-location" ""
    ∷ entry 30 "content-range" ""
    ∷ entry 31 "content-type" ""
    ∷ entry 32 "cookie" ""
    ∷ entry 33 "date" ""
    ∷ entry 34 "etag" ""
    ∷ entry 35 "expect" ""
    ∷ entry 36 "expires" ""
    ∷ entry 37 "from" ""
    ∷ entry 38 "host" ""
    ∷ entry 39 "if-match" ""
    ∷ entry 40 "if-modified-since" ""
    ∷ entry 41 "if-none-match" ""
    ∷ entry 42 "if-range" ""
    ∷ entry 43 "if-unmodified-since" ""
    ∷ entry 44 "last-modified" ""
    ∷ entry 45 "link" ""
    ∷ entry 46 "location" ""
    ∷ entry 47 "max-forwards" ""
    ∷ entry 48 "proxy-authenticate" ""
    ∷ entry 49 "proxy-authorization" ""
    ∷ entry 50 "range" ""
    ∷ entry 51 "referer" ""
    ∷ entry 52 "refresh" ""
    ∷ entry 53 "retry-after" ""
    ∷ entry 54 "server" ""
    ∷ entry 55 "set-cookie" ""
    ∷ entry 56 "strict-transport-security" ""
    ∷ entry 57 "transfer-encoding" ""
    ∷ entry 58 "user-agent" ""
    ∷ entry 59 "vary" ""
    ∷ entry 60 "via" ""
    ∷ entry 61 "www-authenticate" ""
    ∷ []
