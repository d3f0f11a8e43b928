-- ===== src/H2/Hpack/RoundTrip.antt =====
-- A header list through the serializer and back through the parser.
use rite.Prelude.{
  ℕ, zero, suc, ◌≤◌, ◌<◌, ◌≡◌, refl, sym, ap, ◌∙◌, bit_or, true, false, ◌==◌, List, [], ◌∷◌, ◌++◌,
  arith, All, length, length-append, append-nil, append_assoc, map, ==-ne,
}
use rite.Outcome.{ok, HpackError}
use rite.H2.Frame.{Frame}
use rite.H2.Headers.Layout.{payload_plain}
use rite.H2.Headers
use rite.H2.Headers.{has_flag, padded, priority, end_headers, end_stream}
use rite.H2.VarInt.Limits.{encode_head}
use rite.H2.Hpack.StaticTable.{Header, static_header_table}
use rite.H2.Hpack.{Parser, parse_fields, parse_block, parse, caught}
use rite.H2.Hpack.Serializer.{
  Where, fully_indexed, key_indexed, literal, mark_first, field_wire, search_index, serialize,
  finish,
}
use rite.H2.Hpack.Indexing.{IsPristine}
use rite.H2.Hpack.Searching.{search_index-Found}
use rite.H2.Hpack.Fields.{parse_one, received, accept, IsSendable, parse_one-field_wire}

abbrev where_is : Header → Where
where_is = search_index static_header_table

abbrev wire_of : Header → List ℕ
wire_of h = field_wire (where_is h) h

abbrev wires : List Header → List ℕ
wires [] = []
wires (h ∷ hs) = wire_of h ++ wires hs

serialize-wires :
    (payload : List ℕ) (hs : List Header)
    → serialize static_header_table payload hs ≡ payload ++ wires hs
unfolding serialize
serialize-wires payload [] = sym (append-nil payload)
serialize-wires payload (h ∷ hs) =
    serialize-wires (payload ++ wire_of h) hs ∙ append_assoc payload (wire_of h) (wires hs)

-- The headers as they arrive, and the parser behind them.
abbrev pub arrived : List Header → List Header
arrived = map (λ h. received (where_is h) h)

abbrev pub accept_all : List Header → Parser → Parser
accept_all [] p = p
accept_all (h ∷ hs) p = accept_all hs (accept (where_is h) h p)

accept_all-decoded :
    (hs : List Header) (p : Parser) → (accept_all hs p).decoded ≡ p.decoded ++ arrived hs
accept_all-decoded [] p = sym (append-nil p.decoded)
accept_all-decoded (h ∷ hs) p =
    accept_all-decoded hs (accept (where_is h) h p)
    ∙ append_assoc p.decoded (received (where_is h) h ∷ []) (arrived hs)

pub parse_fields_step :
    (fuel : ℕ) (bytes rest : List ℕ) (p q : Parser)
    → length rest < length bytes
    → parse_one bytes p ≡ (q, ok rest)
    → parse_fields (suc fuel) bytes p ≡ parse_fields fuel rest q
unfolding parse_fields
parse_fields_step fuel [] rest p q h e = absurd (omega arith)
parse_fields_step fuel (b ∷ bytes) rest p q h e =
    rw e (rw (==-ne (length rest) (length (b ∷ bytes)) (omega arith)))

IsPristine-accept : (w : Where) (h : Header) (p : Parser) → IsPristine p → IsPristine (accept w h p)
IsPristine-accept w h p pristine = pristine

wire_some : (w : Where) (h : Header) → 0 < length (field_wire w h)
unfolding field_wire mark_first
wire_some (fully_indexed i) h =
    let (first, tail, shape, small) = encode_head 7 i in rw (shape, mark_first) (omega arith)
wire_some (key_indexed i) h =
    let (first, tail, shape, small) = encode_head 6 i in rw (shape, mark_first) (omega arith)
wire_some literal h = omega arith

-- The loop takes the wire form of a whole header list.
parse_fields-wires :
    (hs : List Header) (fuel : ℕ) (p : Parser)
    → IsPristine p
    → All IsSendable hs
    → length (wires hs) ≤ fuel
    → parse_fields fuel (wires hs) p ≡ (accept_all hs p, ok tt)
unfolding parse_fields
parse_fields-wires [] fuel p pristine s enough = refl
parse_fields-wires (h ∷ hs) zero p pristine s enough =
    absurd (omega (arith, wire_some (where_is h) h, length-append (wire_of h) (wires hs)))
parse_fields-wires (h ∷ hs) (suc fuel) p pristine s enough =
    let longer : length (wires hs) < length (wire_of h ++ wires hs) =
      omega (arith, wire_some (where_is h) h, length-append (wire_of h) (wires hs)) in
    parse_fields_step fuel (wire_of h ++ wires hs) (wires hs) p (accept (where_is h) h p) longer
      (parse_one-field_wire (where_is h) h (wires hs) p pristine s.0 (search_index-Found h))
    ∙ parse_fields-wires hs fuel (accept (where_is h) h p) pristine s.1 (omega arith)

-- The flags of a frame that carries a header block to its end, without padding and priority.
abbrev pub IsWhole : ℕ → Type 0
IsWhole flags =
    (has_flag flags padded ≡ false)
    × (has_flag flags priority ≡ false)
    × (has_flag flags (bit_or end_headers end_stream) ≡ true)

parse_block-wires :
    (hs : List Header) (flags : ℕ) (p : Parser)
    → has_flag flags (bit_or end_headers end_stream) ≡ true
    → IsPristine p
    → All IsSendable hs
    → parse_block flags (wires hs) p ≡ (accept_all hs p, ok HpackError.done)
unfolding parse_block caught
parse_block-wires hs flags p ends pristine s =
    rw (parse_fields-wires hs (length (wires hs)) p pristine s (omega arith)) (rw ends)

pub parse_ok :
    (f : Frame) (block : List ℕ) (p : Parser)
    → Headers.payload f
      ≡ ok (record { pad_length = 0; stream_dependency = 0; weight = 0; block = block })
    → parse f p ≡ parse_block f.flags block p
unfolding parse
parse_ok f block p e = rw e

wires_some : (hs : List Header) → 0 < length hs → 0 < length (wires hs)
wires_some [] some = some
wires_some (h ∷ hs) some =
    omega (arith, wire_some (where_is h) h, length-append (wire_of h) (wires hs))

-- The parser takes the header block that the serializer writes, from a frame that has all of it.
pub parse-whole :
    (hs : List Header) (f : Frame) (p : Parser)
    → IsWhole f.flags
    → f.payload ≡ serialize static_header_table [] hs
    → IsPristine p
    → 0 < length hs
    → All IsSendable hs
    → (parse f p ≡ (accept_all hs p, ok HpackError.done))
      × ((accept_all hs p).decoded ≡ p.decoded ++ arrived hs)
parse-whole hs f p (plain, unweighted, ends) e pristine some s =
    let block : f.payload ≡ wires hs = e ∙ serialize-wires [] hs in
    let filled : (length f.payload == 0) ≡ false =
      ==-ne (length f.payload) 0 (omega (arith, wires_some hs some, ap length block)) in
    let taken = payload_plain f (plain, unweighted) ∙ rw filled refl in
    (
      parse_ok f f.payload p taken
          ∙ ap (λ b. parse_block f.flags b p) block
          ∙ parse_block-wires hs f.flags p ends pristine s,
      accept_all-decoded hs p,
    )

-- The round trip of header lists: what the serializer writes for a list of at least one header, all
-- of them strings of bytes whose Huffman forms are shorter than 2 ^ 32 bytes and none with the key
-- `www-authenticate`, and finishes into a HEADERS frame for any stream, the parser takes in full,
-- from any state in which the static table is untouched. It reports `done` and has then decoded
-- these headers in their order, after what it had decoded before, with lower-case keys where the
-- key was in the static table.
pub parse-finish :
    (hs : List Header) (stream_id : ℕ) (p : Parser)
    → IsPristine p
    → 0 < length hs
    → All IsSendable hs
    → (parse (finish (serialize static_header_table [] hs) stream_id).1 p
        ≡ (accept_all hs p, ok HpackError.done))
      × ((accept_all hs p).decoded ≡ p.decoded ++ arrived hs)
unfolding finish
parse-finish hs stream_id p pristine some s =
    parse-whole hs (finish (serialize static_header_table [] hs) stream_id).1 p (refl, refl, refl)
      refl pristine some s
