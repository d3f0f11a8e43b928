-- ===== src/H2/Connection/Process/ReceptionTests.antt =====
-- A request of a client at work.
use rite.Prelude.{ℕ, ◌+◌, ◌≡◌, refl, List, [], ◌∷◌, ◌++◌, arith, Bool, not, ◌||◌, ◌==◌, length}
use rite.Text.{codes}
use rite.H2.Huffman.{lookup}
use rite.H2.VarInt
use rite.H2.VarInt.RoundTrip.{add_flags}
use rite.H2.Hpack.StaticTable.{Header, static_header_table}
use rite.H2.Hpack.Indexing.{Entry}
use rite.H2.Hpack.Strings.{as_is}
use rite.H2.Hpack.Blocks.{
  static, dynamic, known, Field, indexed_field, added_field, Block, nothing, field,
}
use rite.H2.Connection.{Connection, idle, stream_at}
use rite.H2.Connection.Requests.{get_header}
use rite.H2.Connection.Requests.Asking.{Wish, Asks}
use rite.H2.Connection.Process.Tests.{new}
use rite.H2.Connection.Process.Reception.{IsReady}
use rite.Http.Escape.{escape, hex_digit}

abbrev pub wish : Wish
wish = record { path = codes "/a b"; method = codes "GET" }

abbrev pub wish_headers : List Header
wish_headers =
    record { key = codes ":method"; value = codes "GET" }
    ∷ record { key = codes ":path"; value = codes "/a%20b" }
    ∷ []

abbrev url_safe : ℕ → Bool
url_safe c = not (c == 32 || c == 37 || c == 43)

abbrev pub waiting : Connection
waiting = record new { state = idle }

abbrev path_line : Header
path_line = record { key = codes ":path"; value = codes "/a%20b" }

abbrev path_text : List ℕ
path_text = add_flags 0 (VarInt.encode 7 (length (codes "/a%20b"))) ++ codes "/a%20b"

abbrev method_bytes : List ℕ
method_bytes = add_flags 128 (VarInt.encode 7 2)

-- The method is in the static table; the path is spelled and added to the dynamic table.
abbrev pub first_block : List ℕ
first_block = method_bytes ++ ((add_flags 64 (VarInt.encode 6 4) ++ ([] ++ path_text)) ++ [])

-- The path is what the dynamic table has.
abbrev pub second_block : List ℕ
second_block = method_bytes ++ (add_flags 128 (VarInt.encode 7 (62 + 0)) ++ [])

second_block_run : second_block ≡ 0x82 ∷ 0xBE ∷ []
unfolding VarInt.encode
second_block_run = refl

abbrev pub learned_path : List Header
learned_path = path_line ∷ []

method_entry : Entry static_header_table (2, record { key = codes ":method"; value = codes "GET" })
unfolding lookup static_header_table
method_entry = refl

path_entry : Entry static_header_table (4, record { key = codes ":path"; value = codes "/" })
unfolding lookup static_header_table
path_entry = refl

method-Field :
    (table : List Header)
    → Field table method_bytes (record { key = codes ":method"; value = codes "GET" }) []
method-Field table = indexed_field 2 _ (static 2 _ (omega arith) method_entry)

path-Field :
    (table : List Header)
    → Field table (add_flags 64 (VarInt.encode 6 4) ++ ([] ++ path_text)) path_line learned_path
path-Field table =
    added_field 4 (codes ":path") [] (codes "/a%20b") path_text
      (known 4 (record { key = codes ":path"; value = codes "/" })
        (static 4 _ (omega arith) path_entry))
      (as_is (codes "/a%20b") (omega arith))

pub first-Block : Block [] first_block wish_headers learned_path
first-Block = field (method-Field []) (field (path-Field []) nothing)

pub second-Block : Block learned_path second_block wish_headers learned_path
second-Block =
    field (method-Field learned_path)
      (field (indexed_field (62 + 0) path_line (dynamic 0 path_line (omega arith) refl)) nothing)

pub length-first_block : length first_block ≡ 9
unfolding VarInt.encode
length-first_block = refl

pub length-second_block : length second_block ≡ 2
unfolding VarInt.encode
length-second_block = refl

pub wish-Asks : Asks wish wish_headers
unfolding escape get_header hex_digit
wish-Asks = record {
  safe = url_safe;
  percent_escaped = refl;
  plus_escaped = refl;
  bytes = omega arith;
  no_query = ground arith;
  path_there = refl;
  method_there = refl;
}

pub waiting-IsReady : IsReady [] waiting
unfolding stream_at
waiting-IsReady = record {
  idling = refl;
  whole = refl;
  pristine = refl;
  known = refl;
  nothing_decoded = refl;
  bodiless = λ i. refl;
}
