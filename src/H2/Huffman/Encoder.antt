-- ===== src/H2/Huffman/Encoder.antt =====
-- The encoder of `huffman` seen as a writer of bits.
use native.Mathlib.Nat.{pow-le-pow_right, one-le-pow, mul-lt-mul_of_pos_right, mul-le-mul_right}
use native.Mathlib.Numerals.{add-one}
use rite.Prelude.{
  ℕ, zero, suc, ◌+◌, ◌-◌, ◌*◌, ◌/◌, ◌%◌, ◌^◌, ◌≤◌, ◌<◌, ◌≡◌, refl, sym, ap, ◌∙◌, List, [], ◌∷◌,
  ◌++◌, arith, if◌then◌else◌, All, All-append, replicate, append-nil, append_assoc, ltb, ◌==◌,
  Bool-cases, inl, inr, ==_iff,
}
use rite.H2.Huffman.{
  Huffman, Encoding, start_encoding, encode_bit, encode_code, code_of, length_of, encode_string,
  pad, encode,
}
use rite.H2.Huffman.Bits.{
  code_bits, bytes_bits, IsBit, code_bits-IsBit, bytes_bits-append, bytes_bits_one, add_bit,
  code_bits_ones, pow-add,
}

-- What the encoder has written, the bits of the unfinished byte last.
pub written : Encoding → List ℕ
written s = bytes_bits s.output ++ code_bits s.byte s.bit_position

pub record IsPartial (s : Encoding) : Type 0 where
  pub position : s.bit_position < 8
  pub fits : s.byte < 2 ^ s.bit_position
  pub whole : All (λ b. b < 256) s.output

put_bits : Encoding → List ℕ → Encoding
put_bits s [] = s
put_bits s (b ∷ bs) = put_bits (encode_bit s b) bs

half_byte : (s : Encoding) → IsPartial s → s.byte < 128
half_byte s p =
    let room : 2 ^ s.bit_position ≤ 2 ^ 7 =
      pow-le-pow_right {n = 2} (omega arith) {i = s.bit_position} {j = 7} (omega arith) in
    omega arith

store_byte :
    (out : List ℕ) (byte p b : ℕ)
    → p + 1 ≡ 8
    → byte < 128
    → b < 2
    → bytes_bits (out ++ ((byte * 2 % 256 + b) ∷ []))
      ≡ (bytes_bits out ++ code_bits byte p) ++ (b ∷ [])
store_byte out byte p b full small h =
    bytes_bits-append out _
    ∙ ap (◌++◌ (bytes_bits out)) (bytes_bits_one _ ∙ rw (← full) (add_bit byte p b small h))
    ∙ sym (append_assoc (bytes_bits out) (code_bits byte p) (b ∷ []))

encode_bit-IsPartial : (s : Encoding) (b : ℕ) → IsBit b → IsPartial s → IsPartial (encode_bit s b)
unfolding encode_bit
encode_bit-IsPartial s b h p = elim (Bool-cases (s.bit_position + 1 == 8)) [
  | inl e ↦ rw e (record {
    position = omega arith;
    fits = omega arith;
    whole = All-append (λ c. c < 256) s.output _ p.whole (omega (arith, half_byte s p));
  })
  | inr e ↦ rw e (record {
    position = ground arith;
    fits = rw add-one (omega (arith, half_byte s p));
    whole = p.whole;
  })
]

encode_bit-written :
    (s : Encoding) (b : ℕ)
    → IsBit b
    → IsPartial s
    → written (encode_bit s b) ≡ written s ++ (b ∷ [])
unfolding encode_bit written
encode_bit-written s b h p = elim (Bool-cases (s.bit_position + 1 == 8)) [
  | inl e ↦ rw e (
      unfold code_bits in
      append-nil _
      ∙ store_byte s.output s.byte s.bit_position b ((==_iff _ _).0 e) (half_byte s p) h)
  | inr e ↦ rw e (
      ap (◌++◌ (bytes_bits s.output)) (add_bit s.byte s.bit_position b (half_byte s p) h)
      ∙ sym (append_assoc (bytes_bits s.output) (code_bits s.byte s.bit_position) (b ∷ [])))
]

put_bits-written :
    (bs : List ℕ) (s : Encoding)
    → All IsBit bs
    → IsPartial s
    → IsPartial (put_bits s bs) × (written (put_bits s bs) ≡ written s ++ bs)
unfolding put_bits
put_bits-written [] s h p = (p, sym (append-nil _))
put_bits-written (b ∷ bs) s h p =
    let next = put_bits-written bs (encode_bit s b) h.1 (encode_bit-IsPartial s b h.0 p) in
    (
      next.0,
      next.1
          ∙ ap (λ l. l ++ bs) (encode_bit-written s b h.0 p)
          ∙ append_assoc (written s) (b ∷ []) bs,
    )

encode_code-put_bits :
    (code n : ℕ) (s : Encoding) → encode_code code n s ≡ put_bits s (code_bits code n)
unfolding encode_code put_bits code_bits
encode_code-put_bits code zero s = refl
encode_code-put_bits code (suc n) s = encode_code-put_bits code n (encode_bit s (code / 2 ^ n % 2))

-- The codes of the characters of a string, one after the other.
unfoldable pub message_bits : Huffman → List ℕ → List ℕ
message_bits h [] = []
message_bits h (c ∷ cs) = code_bits (code_of h c) (length_of h c) ++ message_bits h cs

encode_string-written :
    (h : Huffman) (cs : List ℕ) (s : Encoding)
    → IsPartial s
    → IsPartial (encode_string h cs s)
      × (written (encode_string h cs s) ≡ written s ++ message_bits h cs)
unfolding encode_string message_bits
encode_string-written h [] s p = (p, sym (append-nil _))
encode_string-written h (c ∷ cs) s p =
    let bits = code_bits (code_of h c) (length_of h c) in
    let here = put_bits-written bits s (code_bits-IsBit _ _) p in
    let next = encode_string-written h cs (put_bits s bits) here.0 in
    rw (encode_code-put_bits (code_of h c) (length_of h c) s)
      (next.0, next.1 ∙ ap (λ l. l ++ message_bits h cs) here.1 ∙ append_assoc (written s) bits _)

-- How many ones fill the last byte.
pub padding : Encoding → ℕ
padding s = if ltb 0 s.bit_position then 8 - s.bit_position else 0

last_byte :
    (out : List ℕ) (byte p k : ℕ)
    → p + k ≡ 8
    → byte < 2 ^ p
    → bytes_bits (out ++ ((byte * 2 ^ k % 256 + (2 ^ k - 1)) ∷ []))
      ≡ (bytes_bits out ++ code_bits byte p) ++ replicate k 1
last_byte out byte p k e small =
    let positive : 1 ≤ 2 ^ k = one-le-pow k 2 (omega arith) in
    let total : 2 ^ 8 ≡ 2 ^ p * 2 ^ k = ap (λ (t : ℕ). 2 ^ t) (sym e) ∙ pow-add 2 p k in
    let shifted : byte * 2 ^ k < 2 ^ p * 2 ^ k = mul-lt-mul_of_pos_right small positive in
    let exact : byte * 2 ^ k % 256 ≡ byte * 2 ^ k = omega arith in
    rw exact (
      bytes_bits-append out _
      ∙ ap (◌++◌ (bytes_bits out)) (bytes_bits_one _ ∙ rw (← e) (code_bits_ones byte p k))
      ∙ sym (append_assoc (bytes_bits out) (code_bits byte p) (replicate k 1)))

no_padding :
    (out : List ℕ) (byte p : ℕ)
    → 0 ≡ p
    → bytes_bits out ≡ (bytes_bits out ++ code_bits byte p) ++ []
unfolding code_bits
no_padding out byte p e = rw (← e, append-nil) (sym (append-nil _))

pad-written :
    (s : Encoding) → IsPartial s → bytes_bits (pad s) ≡ written s ++ replicate (padding s) 1
unfolding pad written padding
pad-written s p = elim (Bool-cases (ltb 0 s.bit_position)) [
  | inl e ↦
      rw e (last_byte s.output s.byte s.bit_position (8 - s.bit_position) (omega arith) p.fits)
  | inr e ↦ rw e (no_padding s.output s.byte s.bit_position (ground arith))
]

stored_byte : (byte p k : ℕ) → p + k ≡ 8 → byte < 2 ^ p → byte * 2 ^ k % 256 + (2 ^ k - 1) < 256
stored_byte byte p k e small =
    let positive : 1 ≤ 2 ^ k = one-le-pow k 2 (omega arith) in
    let total : 2 ^ 8 ≡ 2 ^ p * 2 ^ k = ap (λ (t : ℕ). 2 ^ t) (sym e) ∙ pow-add 2 p k in
    let room : (byte + 1) * 2 ^ k ≤ 2 ^ p * 2 ^ k = mul-le-mul_right (2 ^ k) (omega arith) in
    omega arith

pad-bytes : (s : Encoding) → IsPartial s → All (λ b. b < 256) (pad s)
unfolding pad
pad-bytes s p = elim (Bool-cases (ltb 0 s.bit_position)) [
  | inl e ↦ rw e (
      All-append (λ b. b < 256) s.output _ p.whole
        (stored_byte s.byte s.bit_position (8 - s.bit_position) (omega arith) p.fits, tt))
  | inr e ↦ rw e p.whole
]

padding-lt : (s : Encoding) → padding s < 8
unfolding padding
padding-lt s = ground arith

start-IsPartial : IsPartial start_encoding
start-IsPartial = omega arith

-- What `encode` writes, read as bits, is the codes of the characters followed by fewer than eight
-- ones.
pub encode-message_bits :
    (h : Huffman) (cs : List ℕ)
    → (k : ℕ) × (k < 8) × (bytes_bits (encode h cs) ≡ message_bits h cs ++ replicate k 1)
unfolding encode
encode-message_bits h cs =
    let s = encode_string h cs start_encoding in
    let all = encode_string-written h cs start_encoding start-IsPartial in
    (
      padding s,
      padding-lt s,
      pad-written s all.0
          ∙ ap (λ l. l ++ replicate (padding s) 1)
              (all.1 ∙ unfold written bytes_bits code_bits in refl),
    )

-- `encode` writes bytes.
encode-bytes : (h : Huffman) (cs : List ℕ) → All (λ b. b < 256) (encode h cs)
unfolding encode
encode-bytes h cs = pad-bytes _ (encode_string-written h cs start_encoding start-IsPartial).0
