-- ===== src/H2/Hpack/Tests.antt =====
-- Concrete runs of the header decoder and encoder, and the theorems at concrete inputs.
use rite.Prelude.{◌≡◌, ◌≢◌, refl, List, [], ◌∷◌, ◌++◌, arith}
use rite.Text.{codes, to_lower}
use rite.Outcome.{ok, throws, HpackError, hpack_error, stuck}
use rite.H2.Huffman.Tests.{length-encode_x, length-encode_accept}
use rite.H2.Hpack.StaticTable.{Header, static_header_table}
use rite.H2.Hpack.{
  Parser, empty_header, header_by_index, parse_field, parse_fields, parse_block, parse,
}
use rite.H2.Hpack.Serializer.{key_indexed, search_index, serialize, finish}
use rite.H2.Hpack.Indexing.{with_zero, www_authenticate, header_by_index_zero}
use rite.H2.Hpack.Progress.{parse_block-ne-stuck, unchecked_fields, parse_fields-unchecked_fields}
use rite.H2.Hpack.Fields.{IsSendable}
use rite.H2.Hpack.RoundTrip.{accept_all, arrived, parse-finish}
use rite.H2.VarInt.{decode, decode_groups}

abbrev fresh : Parser
fresh = record { header_map = []; decoded = []; static_table = static_header_table }

abbrev get_root : List Header
get_root =
    record { key = codes ":method"; value = codes "GET" }
    ∷ record { key = codes ":path"; value = codes "/" }
    ∷ []

-- The bytes 0x82 and 0x84 are `:method: GET` and `:path: /`.
parse_get_root :
    parse_block 5 (0x82 ∷ 0x84 ∷ []) fresh
    ≡ (record fresh { decoded = get_root }, ok HpackError.done)
unfolding parse_block static_header_table decode decode_groups parse_field
parse_get_root = refl

search_accept :
    search_index static_header_table (record { key = codes "Accept"; value = codes "x" })
    ≡ key_indexed 19
unfolding search_index static_header_table to_lower
search_accept = refl

abbrev accept_x : Header
accept_x = record { key = codes "Accept"; value = codes "x" }

abbrev with_x : Parser
with_x = record fresh { header_map = accept_x ∷ [] }

header_by_index_zero_example :
    (header_by_index 0 with_x ≡ (with_zero with_x, ok empty_header))
    × (header_by_index 62 (with_zero with_x)
        ≡ (with_zero with_x, throws (hpack_error HpackError.unknown_header)))
    × (header_by_index 63 (with_zero with_x) ≡ (with_zero with_x, ok accept_x))
    × (header_by_index 61 (with_zero with_x)
        ≡ (with_zero with_x, ok (record { key = www_authenticate; value = [] })))
header_by_index_zero_example =
    header_by_index_zero with_x 0 accept_x refl (omega arith) (omega arith) refl

parse_block-ne-stuck_example : (parse_block 5 (0x82 ∷ 0x84 ∷ []) fresh).1 ≢ throws stuck
parse_block-ne-stuck_example = parse_block-ne-stuck 5 (0x82 ∷ 0x84 ∷ []) fresh

parse_fields-unchecked_fields_example :
    parse_fields 2 (0x82 ∷ 0x84 ∷ []) fresh ≡ unchecked_fields 2 (0x82 ∷ 0x84 ∷ []) fresh
parse_fields-unchecked_fields_example = parse_fields-unchecked_fields 2 (0x82 ∷ 0x84 ∷ []) fresh

accept_known : to_lower (codes "Accept") ≢ www_authenticate
unfolding to_lower
accept_known = λ e. cc

accept_x-IsSendable : IsSendable accept_x
accept_x-IsSendable = record {
  key_text = (omega arith, omega (arith, length-encode_accept));
  value_text = (omega arith, omega (arith, length-encode_x));
  known = accept_known;
}

parse-finish_example :
    (parse (finish (serialize static_header_table [] (accept_x ∷ [])) 1).1 with_x
      ≡ (accept_all (accept_x ∷ []) with_x, ok HpackError.done))
    × ((accept_all (accept_x ∷ []) with_x).decoded ≡ [] ++ arrived (accept_x ∷ []))
parse-finish_example =
    parse-finish (accept_x ∷ []) 1 with_x refl (omega arith) (accept_x-IsSendable, tt)
