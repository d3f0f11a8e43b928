-- ===== src/H2/Huffman/RoundTrip.antt =====
-- Decoding what the encoder wrote, with the table of HPACK.
use rite.Prelude.{
  ℕ, ◌+◌, ◌*◌, ◌%◌, ◌^◌, ◌<◌, ◌≡◌, refl, sym, ap, ◌∙◌, List, [], ◌∷◌, ◌++◌, arith, All, replicate,
  append-nil, append_assoc,
}
use rite.H2.Huffman.{
  Huffman, hpack_decoder, min_bit_size, encode, decode, Decoding, start_decoding, decode_bit,
  matched, code_of, length_of, lookup, or_default,
}
use rite.H2.Huffman.Bits.{code_bits}
use rite.H2.Huffman.Encoder.{message_bits, encode-message_bits}
use rite.H2.Huffman.Decoder.{feed, feed-append, decode-feed}
use rite.H2.Huffman.Codes.{feed-symbol, feed-padding}

-- The decoder never reads its output.
abbrev after : List ℕ → Decoding → Decoding
after out s = record s { output = out ++ s.output }

matched-after :
    (h : Huffman) (least : ℕ) (out : List ℕ) (s : Decoding)
    → matched h least (after out s) ≡ after out (matched h least s)
unfolding matched
matched-after h least out s =
    ground (arith, append_assoc out s.output (or_default 0 (lookup s.code h.reverse_map) ∷ []))

decode_bit-after :
    (h : Huffman) (least : ℕ) (out : List ℕ) (s : Decoding) (b : ℕ)
    → decode_bit h least (after out s) b ≡ after out (decode_bit h least s b)
unfolding decode_bit
decode_bit-after h least out s b =
    let shifted : Decoding = record s {
      code = (s.code * 2 + b) % 2 ^ 32;
      bits_checked = s.bits_checked + 1;
    } in
    rw (matched-after h least out shifted) (ground arith)

feed-after :
    (h : Huffman) (least : ℕ) (out bs : List ℕ) (s : Decoding)
    → feed h least bs (after out s) ≡ after out (feed h least bs s)
unfolding feed
feed-after h least out [] s = refl
feed-after h least out (b ∷ bs) s =
    ap (feed h least bs) (decode_bit-after h least out s b)
    ∙ feed-after h least out bs (decode_bit h least s b)

abbrev run : List ℕ → Decoding → Decoding
run = feed hpack_decoder (min_bit_size hpack_decoder)

start_after :
    (out : List ℕ) → record { code = 0; bits_checked = 0; output = out } ≡ after out start_decoding
start_after out = ap (λ o. record { code = 0; bits_checked = 0; output = o }) (sym (append-nil out))

symbol_after :
    (out : List ℕ) (c : ℕ)
    → c < 256
    → run
        (code_bits (code_of hpack_decoder c) (length_of hpack_decoder c))
        (record { code = 0; bits_checked = 0; output = out })
      ≡ record { code = 0; bits_checked = 0; output = out ++ (c ∷ []) }
symbol_after out c h =
    ap (run (code_bits (code_of hpack_decoder c) (length_of hpack_decoder c))) (start_after out)
    ∙ feed-after hpack_decoder _ out _ start_decoding
    ∙ ap (after out) (feed-symbol c h)

padding_after :
    (out : List ℕ) (k : ℕ)
    → k < 8
    → (run (replicate k 1) (record { code = 0; bits_checked = 0; output = out })).output ≡ out
padding_after out k h =
    ap (λ s. (run (replicate k 1) s).output) (start_after out)
    ∙ ap (λ (s : Decoding). s.output)
        (feed-after hpack_decoder _ out (replicate k 1) start_decoding)
    ∙ ap (◌++◌ out) (feed-padding k h)
    ∙ append-nil out

feed-message_bits :
    (cs out : List ℕ)
    → All (λ c. c < 256) cs
    → run (message_bits hpack_decoder cs) (record { code = 0; bits_checked = 0; output = out })
      ≡ record { code = 0; bits_checked = 0; output = out ++ cs }
unfolding message_bits
feed-message_bits [] out h = rw append-nil (unfold feed in refl)
feed-message_bits (c ∷ cs) out h =
    let bits = code_bits (code_of hpack_decoder c) (length_of hpack_decoder c) in
    let least = min_bit_size hpack_decoder in
    feed-append hpack_decoder least bits (message_bits hpack_decoder cs) _
    ∙ ap (run (message_bits hpack_decoder cs)) (symbol_after out c h.0)
    ∙ feed-message_bits cs (out ++ (c ∷ [])) h.1
    ∙ ap (λ o. record { code = 0; bits_checked = 0; output = o }) (append_assoc out (c ∷ []) cs)

-- `decoder().decode(decoder().encode(s))` is `s` for every string `s` of bytes.
pub decode-encode_text :
    (cs : List ℕ) → All (λ c. c < 256) cs → decode hpack_decoder (encode hpack_decoder cs) ≡ cs
decode-encode_text cs h =
    let (k, small, bits) = encode-message_bits hpack_decoder cs in
    let least = min_bit_size hpack_decoder in
    decode-feed hpack_decoder (encode hpack_decoder cs)
    ∙ ap (λ l. (run l start_decoding).output) bits
    ∙ ap (λ (s : Decoding). s.output)
        (feed-append hpack_decoder least (message_bits hpack_decoder cs) (replicate k 1)
          start_decoding)
    ∙ ap (λ s. (run (replicate k 1) s).output) (feed-message_bits cs [] h)
    ∙ padding_after cs k small
