-- ===== src/Server/Tests.antt =====
-- Concrete runs of the HTTPS server, and the theorems at concrete inputs.
use rite.Prelude.{
  ℕ, ◌+◌, ◌/◌, ◌%◌, ◌≡◌, ◌≢◌, refl, List, [], ◌∷◌, ◌++◌, true, false, arith, length, All,
}
use rite.Text.{codes, to_lower}
use rite.Outcome.{ok, HpackError}
use rite.H2.Frame.{Frame}
use rite.H2.Huffman.Tests.{length-encode_status, length-encode_200}
use rite.H2.Hpack.Serializer.{serialize, search_index, field_wire, mark_first}
use rite.H2.VarInt.{encode_groups}
use rite.H2.VarInt
use rite.H2.Hpack.StaticTable.{static_header_table}
use rite.H2.Hpack.{parse}
use rite.H2.Hpack.Fields.{IsSendable}
use rite.H2.Hpack.Indexing.{www_authenticate}
use rite.H2.Hpack.RoundTrip.{accept_all, arrived}
use rite.H2.Connection.Process.Tests.{fresh, new}
use rite.Http.Response.{HttpResponse}
use rite.Server.Respond.{Buffer, respond, body_frames, response_headers, finish_buffer}
use rite.Server.Respond.Slices.{receive, delivered, ends_filled, IsSlice, body_frames-IsSlice}
use rite.Server.Respond.Wire.{read_frames}
use rite.Server.Respond.Delivery.{header_block, headers_frame, lines_of, respond-received}

abbrev three_digits : ℕ → List ℕ
three_digits n = (48 + n / 100) ∷ (48 + n / 10 % 10) ∷ (48 + n % 10) ∷ []

-- A body of one buffer, ended by `buffer::finish()`, and one whose last buffer is not empty.
abbrev unended : List Buffer
unended = record { bytes = codes "hi"; last = false } ∷ finish_buffer ∷ []

abbrev ended : List Buffer
ended = record { bytes = codes "h"; last = false } ∷ record { bytes = codes "i"; last = true } ∷ []

body_frames-IsSlice_example : All (IsSlice 1) (body_frames 1 ended).0
body_frames-IsSlice_example = body_frames-IsSlice 1 ended

abbrev accepted_page : HttpResponse
accepted_page = record { status_code = 200; headers = [] }

status_known : to_lower (codes ":status") ≢ www_authenticate
unfolding to_lower
status_known = λ e. cc

page-IsSendable : All IsSendable (lines_of three_digits accepted_page)
page-IsSendable = (
  record {
    key_text = (omega arith, omega (arith, length-encode_status));
    value_text = (omega arith, omega (arith, length-encode_200));
    known = status_known;
  },
  tt,
)

short_block : length (header_block three_digits accepted_page) ≡ 1
unfolding header_block response_headers serialize field_wire mark_first search_index
    static_header_table to_lower VarInt.encode
short_block = refl

respond-received_example :
    (added : List ℕ) × (frames : List Frame) × ((respond three_digits 1 accepted_page ended
        new).sent
      ≡ new.sent ++ added)
    × (read_frames (length added) added new ≡ headers_frame three_digits 1 accepted_page ∷ frames)
    × (parse (headers_frame three_digits 1 accepted_page) fresh
        ≡ (accept_all (lines_of three_digits accepted_page) fresh, ok HpackError.done))
    × ((accept_all (lines_of three_digits accepted_page) fresh).decoded
        ≡ fresh.decoded ++ arrived (lines_of three_digits accepted_page))
    × (receive frames ≡ (delivered ended, ends_filled ended))
respond-received_example =
    respond-received three_digits 1 accepted_page ended new new fresh (omega arith)
      (omega (arith, short_block)) page-IsSendable refl refl refl
