-- ===== src/H2/Hpack/Strings.antt =====
-- Strings on the wire: `parse_string` reads back what the serializer writes.
use rite.Prelude.{
  ℕ, ◌+◌, ◌%◌, ◌^◌, ◌<◌, ◌≡◌, refl, ap, ◌∙◌, List, [], ◌∷◌, ◌++◌, arith, All, Bool, true, false,
  sym, length, length-append, take, drop, take_length-append, drop_length-append, append_assoc,
  bit_and, bit_or, le→ltb_false,
}
use rite.Prelude.Bits.{set_seven, set_six, bit_seven}
use rite.Outcome.{ok}
use rite.H2.VarInt
use rite.H2.VarInt.Limits.{encode_head}
use rite.H2.VarInt.RoundTrip.{add_flags, decode-encode}
use rite.H2.Huffman
use rite.H2.Huffman.{hpack_decoder}
use rite.H2.Huffman.RoundTrip
use rite.H2.Headers.{has_flag}
use rite.H2.Hpack.{parse_string, read_string}
use rite.H2.Hpack.Serializer.{mark_first, string_wire}

-- What the serializer does to a first byte only sets flags above the prefix.
pub mark_seven :
    (v : ℕ)
    → mark_first (λ b. bit_or b 0x80) (VarInt.encode 7 v) ≡ add_flags 128 (VarInt.encode 7 v)
unfolding mark_first
mark_seven v =
    let (first, tail, e, small) = encode_head 7 v in
    rw e (ap (λ b. b ∷ tail) (omega (arith, set_seven first (omega arith))))

pub mark_six :
    (v : ℕ)
    → mark_first (λ b. bit_or (bit_and b 0x3F) 0x40) (VarInt.encode 6 v)
      ≡ add_flags 64 (VarInt.encode 6 v)
unfolding mark_first
mark_six v =
    let (first, tail, e, small) = encode_head 6 v in
    rw e (ap (λ b. b ∷ tail) (omega (arith, set_six first (omega arith))))

-- The bytes behind a flagged integer are what `pos` points to after `pos += len`.
pub drop-add_flags :
    (flags : ℕ) (wire rest : List ℕ) → drop (length wire) (add_flags flags wire ++ rest) ≡ rest
drop-add_flags flags [] rest = refl
drop-add_flags flags (b ∷ wire) rest = drop_length-append wire rest

abbrev pub IsText : List ℕ → Type 0
IsText text = All (λ c. c < 256) text × (length (Huffman.encode hpack_decoder text) < 2 ^ 32)

read_string-huffman :
    (text rest : List ℕ)
    → All (λ c. c < 256) text
    → let huffman = Huffman.encode hpack_decoder text in
      read_string true (length huffman) (huffman ++ rest) ≡ ok (text, rest)
unfolding read_string
read_string-huffman text rest h =
    let huffman = Huffman.encode hpack_decoder text in
    rw (
      le→ltb_false (length (huffman ++ rest)) (length huffman)
          (omega (arith, length-append huffman rest)),
      take_length-append huffman rest,
      drop_length-append huffman rest,
      RoundTrip.decode-encode_text text h,
    )

parse_string_step :
    (first : ℕ) (tail : List ℕ) {size len : ℕ} {flag : Bool}
    → VarInt.decode 7 (first ∷ tail) ≡ ok (size, len)
    → has_flag first 0x80 ≡ flag
    → parse_string (first ∷ tail) ≡ read_string flag size (drop len (first ∷ tail))
unfolding parse_string
parse_string_step first tail {size} {len} e f =
    rw (e, parse_string) (ap (λ b. read_string b size (drop len (first ∷ tail))) f)

-- A length with the Huffman flag, in front of the string.
parse_flagged :
    (wire rest : List ℕ) (size : ℕ)
    → 0 < length wire
    → All (λ b. b < 128) (take 1 wire)
    → VarInt.decode 7 (add_flags 128 wire ++ rest) ≡ ok (size, length wire)
    → parse_string (add_flags 128 wire ++ rest) ≡ read_string true size rest
parse_flagged [] rest size some small e = absurd (omega arith)
parse_flagged (b ∷ wire) rest size some small e =
    parse_string_step (128 + b) (wire ++ rest) e (ground (arith, bit_seven (128 + b)))
    ∙ ap (read_string true size) (drop_length-append wire rest)

parse_unflagged :
    (wire rest : List ℕ) (size : ℕ)
    → 0 < length wire
    → All (λ b. b < 128) (take 1 wire)
    → VarInt.decode 7 (wire ++ rest) ≡ ok (size, length wire)
    → parse_string (wire ++ rest) ≡ read_string false size rest
parse_unflagged [] rest size some small e = absurd (omega arith)
parse_unflagged (b ∷ wire) rest size some small e =
    parse_string_step b (wire ++ rest) e (ground (arith, bit_seven b))
    ∙ ap (read_string false size) (drop_length-append wire rest)

read_string-plain :
    (text rest : List ℕ) → read_string false (length text) (text ++ rest) ≡ ok (text, rest)
unfolding read_string
read_string-plain text rest = rw (
  le→ltb_false (length (text ++ rest)) (length text) (omega (arith, length-append text rest)),
  take_length-append text rest,
  drop_length-append text rest,
)

abbrev pub huffman_wire : List ℕ → List ℕ
huffman_wire text =
    add_flags 128 (VarInt.encode 7 (length (Huffman.encode hpack_decoder text)))
    ++ Huffman.encode hpack_decoder text

-- A string as a client may send it: with its Huffman form, or with the bytes themselves.
pub data TextWire : List ℕ → List ℕ → Type 0 where
  coded : (text : List ℕ) → IsText text → TextWire text (huffman_wire text)
  as_is :
      (text : List ℕ)
      → length text < 2 ^ 32
      → TextWire text (add_flags 0 (VarInt.encode 7 (length text)) ++ text)

parse_string-huffman_wire :
    (text rest : List ℕ) → IsText text → parse_string (huffman_wire text ++ rest) ≡ ok (text, rest)
parse_string-huffman_wire text rest (bytes, short) =
    let huffman = Huffman.encode hpack_decoder text in
    let n = length huffman in
    let (first, tail, e, small) = encode_head 7 n in
    rw (append_assoc (add_flags 128 (VarInt.encode 7 n)) huffman rest) (
      parse_flagged (VarInt.encode 7 n) (huffman ++ rest) n (rw e (omega arith))
        (rw e (omega arith))
        (decode-encode 7 n 128 (huffman ++ rest) (omega arith) (omega arith) short refl
          (omega arith))
      ∙ read_string-huffman text rest bytes)

length-add_flags : (flags : ℕ) (wire : List ℕ) → length (add_flags flags wire) ≡ length wire
length-add_flags flags [] = refl
length-add_flags flags (b ∷ wire) = refl

parse_string-as_is :
    (text rest : List ℕ)
    → length text < 2 ^ 32
    → parse_string ((add_flags 0 (VarInt.encode 7 (length text)) ++ text) ++ rest) ≡ ok (text, rest)
parse_string-as_is text rest short =
    let n = length text in
    let wire = VarInt.encode 7 n in
    let (first, tail, e, small) = encode_head 7 n in
    rw (append_assoc (add_flags 0 wire) text rest) (
      parse_unflagged (add_flags 0 wire) (text ++ rest) n (rw e (omega arith)) (rw e (omega arith))
        (decode-encode 7 n 0 (text ++ rest) (omega arith) (omega arith) short refl (omega arith)
          ∙ ap (λ l. ok (n, l)) (sym (length-add_flags 0 wire)))
      ∙ read_string-plain text rest)

pub parse_string-TextWire :
    {text wire : List ℕ} (rest : List ℕ)
    → TextWire text wire
    → parse_string (wire ++ rest) ≡ ok (text, rest)
parse_string-TextWire rest (coded text fit) = parse_string-huffman_wire text rest fit
parse_string-TextWire rest (as_is text short) = parse_string-as_is text rest short

-- `parse_string` reads back any byte string that the serializer wrote, and leaves `pos` behind it,
-- if the Huffman form is shorter than 2 ^ 32 bytes.
pub parse_string-string_wire :
    (text rest : List ℕ) → IsText text → parse_string (string_wire text ++ rest) ≡ ok (text, rest)
unfolding string_wire
parse_string-string_wire text rest (bytes, short) =
    let n = length (Huffman.encode hpack_decoder text) in
    let fits : n % 2 ^ 32 ≡ n = omega arith in
    rw (fits, mark_seven n) (parse_string-huffman_wire text rest (bytes, short))
