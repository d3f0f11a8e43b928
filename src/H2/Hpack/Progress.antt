-- ===== src/H2/Hpack/Progress.antt =====
-- How far a round of the parser's loop moves, and the loop's fuel.
use rite.Prelude.{
  ℕ, zero, suc, ◌-◌, ◌≤◌, ◌<◌, ◌≡◌, refl, ◌≢◌, inl, inr, List, [], ◌∷◌, arith, Bool, true, false,
  length, drop, length-drop, Bool-cases, ◌==◌, Option-cases, ltb, get_elem?, ==-ne, ap, ◌∙◌, bit_or,
}
use rite.Outcome.{
  Outcome, ok, throws, hpack_error, frame_state, invalid_argument, length_error, out_of_range,
  runtime_error, no_endpoint, aborted, exited, undefined, stuck, Outcome-cases,
}
use rite.H2.VarInt
use rite.H2.VarInt.Limits.{decode_moves, decode-ne-stuck}
use rite.H2.Huffman.{lookup}
use rite.H2.Headers.{has_flag, end_headers, end_stream}
use rite.H2.Hpack.StaticTable.{Header}
use rite.H2.Hpack.{
  Parser, M, continue, lift, pure, ◌>>=◌, header_by_index, static_entry, dynamic_entry,
  parse_string, string_body, read_string, key_of, push_decoded, push_front, indexed,
  literal_indexed, table_update, not_indexed, parse_field, parse_fields, caught, parse_block,
}

-- A value with a property, or a failure that is not the end of the fuel.
abbrev Ends : {A : Type 0} → (A → Type 0) → Outcome A → Type 0
Ends P (ok a) = P a
Ends P (throws e) = e ≢ stuck

Ends-intro :
    {A : Type 0} (P : A → Type 0) (o : Outcome A)
    → ((a : A) → o ≡ ok a → P a)
    → o ≢ throws stuck
    → Ends P o
Ends-intro P (ok a) good fine = good a refl
Ends-intro P (throws e) good fine = λ h. fine (ap throws h)

-- The rule of a step that another one follows.
Ends-bind :
    {A B : Type 0} (P : A → Type 0) (Q : B → Type 0) (r : Parser × Outcome A) (f : A → M B)
    → Ends P r.1
    → ((a : A) (p : Parser) → P a → Ends Q (f a p).1)
    → Ends Q (continue r f).1
Ends-bind P Q (p, ok a) f h k = k a p h
Ends-bind P Q (p, throws e) f h k = h

abbrev Shorter : ℕ → List ℕ → Type 0
Shorter n rest = length rest < n

abbrev Within : ℕ → List ℕ × List ℕ → Type 0
Within n r = length r.1 ≤ n

abbrev Bounded : ℕ → ℕ × ℕ → Type 0
Bounded n r = (1 ≤ r.1) × (r.1 ≤ n)

decode-Ends : (n : ℕ) (bytes : List ℕ) → Ends (Bounded (length bytes)) (VarInt.decode n bytes)
decode-Ends n bytes =
    Ends-intro (Bounded (length bytes)) (VarInt.decode n bytes)
      (λ r e. decode_moves n bytes r.0 r.1 e) (decode-ne-stuck n bytes)

read_string-Ends :
    (flag : Bool) (size n : ℕ) (tail : List ℕ)
    → length tail ≤ n
    → Ends (Within n) (read_string flag size tail)
unfolding read_string
read_string-Ends true size n tail h = elim (Bool-cases (ltb (length tail) size)) [
  | inl e ↦ rw e (λ x. cc)
  | inr e ↦ rw e (omega (arith, length-drop size tail))
]
read_string-Ends false size n tail h = elim (Bool-cases (ltb (length tail) size)) [
  | inl e ↦ rw e (λ x. cc)
  | inr e ↦ rw e (omega (arith, length-drop size tail))
]

parse_string-Ends :
    (n : ℕ) (bytes : List ℕ) → length bytes ≤ n → Ends (Within n) (parse_string bytes)
unfolding parse_string string_body
parse_string-Ends n [] h = λ x. cc
parse_string-Ends n (b ∷ bytes) h = elim (Outcome-cases (VarInt.decode 7 (b ∷ bytes))) [
  | inl ((size, len), e) ↦
      rw (e, parse_string)
        (read_string-Ends (has_flag b 0x80) size n (drop len (b ∷ bytes))
          (omega (arith, length-drop len (b ∷ bytes))))
  | inr (f, e) ↦ rw (e, parse_string) (λ x. decode-ne-stuck 7 (b ∷ bytes) (e ∙ ap throws x))
]

abbrev Any : Header → Type 0
Any h = Unit {0}

static_entry-Ends : (i : ℕ) (p : Parser) → Ends Any (static_entry i p).1
unfolding static_entry
static_entry-Ends i p = elim (Option-cases (lookup i p.static_table)) [
  | inl e ↦ rw (e, static_entry) tt
  | inr (h, e) ↦ rw (e, static_entry) tt
]

dynamic_entry-Ends : (i : ℕ) (p : Parser) → Ends Any (dynamic_entry i p).1
unfolding dynamic_entry
dynamic_entry-Ends i p = elim (Option-cases (get_elem? p.header_map i)) [
  | inl e ↦ rw (e, dynamic_entry) (λ x. cc)
  | inr (h, e) ↦ rw (e, dynamic_entry) tt
]

header_by_index-Ends : (i : ℕ) (p : Parser) → Ends Any (header_by_index i p).1
unfolding header_by_index
header_by_index-Ends i p = elim (Bool-cases (ltb i (length p.static_table))) [
  | inl e ↦ rw e (static_entry-Ends i p)
  | inr e ↦ rw e (dynamic_entry-Ends _ p)
]

key_of-Ends :
    (i n : ℕ) (tail : List ℕ) (p : Parser) → length tail ≤ n → Ends (Within n) (key_of i tail p).1
unfolding key_of
key_of-Ends i n tail p h = elim (Bool-cases (i == 0)) [
  | inl e ↦ rw e (parse_string-Ends n tail h)
  | inr e ↦
      rw e
        (Ends-bind Any (Within n) (header_by_index i p) _ (header_by_index-Ends i p) (λ a q _. h))
]

indexed-Ends : (bytes : List ℕ) (p : Parser) → Ends (Shorter (length bytes)) (indexed bytes p).1
unfolding indexed push_decoded
indexed-Ends bytes p =
    Ends-bind (Bounded (length bytes)) (Shorter (length bytes)) (lift (VarInt.decode 7 bytes) p) _
      (decode-Ends 7 bytes)
      λ r q b.
        Ends-bind Any (Shorter (length bytes)) (header_by_index r.0 q) _
          (header_by_index-Ends r.0 q) (λ h q' _. omega (arith, length-drop r.1 bytes, b))

literal_indexed-Ends :
    (bytes : List ℕ) (p : Parser) → Ends (Shorter (length bytes)) (literal_indexed bytes p).1
unfolding literal_indexed push_decoded push_front
literal_indexed-Ends bytes p =
    let n = length bytes in
    Ends-bind (Bounded n) (Shorter n) (lift (VarInt.decode 6 bytes) p) _ (decode-Ends 6 bytes)
      λ r q b.
        Ends-bind (Within (n - 1)) (Shorter n) (key_of r.0 (drop r.1 bytes) q) _
          (key_of-Ends r.0 (n - 1) (drop r.1 bytes) q (omega (arith, length-drop r.1 bytes, b)))
          λ k q' kb.
            Ends-bind (Within (n - 1)) (Shorter n) (lift (parse_string k.1) q') _
              (parse_string-Ends (n - 1) k.1 kb) (λ v q'' vb. omega (arith, b, vb))

not_indexed-Ends :
    (bytes : List ℕ) (p : Parser) → Ends (Shorter (length bytes)) (not_indexed bytes p).1
unfolding not_indexed push_decoded
not_indexed-Ends bytes p =
    let n = length bytes in
    Ends-bind (Bounded n) (Shorter n) (lift (VarInt.decode 4 bytes) p) _ (decode-Ends 4 bytes)
      λ r q b.
        Ends-bind (Within (n - 1)) (Shorter n) (key_of r.0 (drop r.1 bytes) q) _
          (key_of-Ends r.0 (n - 1) (drop r.1 bytes) q (omega (arith, length-drop r.1 bytes, b)))
          λ k q' kb.
            Ends-bind (Within (n - 1)) (Shorter n) (lift (parse_string k.1) q') _
              (parse_string-Ends (n - 1) k.1 kb) (λ v q'' vb. omega (arith, b, vb))

table_update-Ends :
    (bytes : List ℕ) (p : Parser) → Ends (Shorter (length bytes)) (table_update bytes p).1
unfolding table_update
table_update-Ends bytes p =
    Ends-bind (Bounded (length bytes)) (Shorter (length bytes)) (lift (VarInt.decode 5 bytes) p) _
      (decode-Ends 5 bytes) (λ r q b. omega (arith, length-drop r.1 bytes, b))

-- Every kind of field takes a byte at least, or throws.
parse_field-Ends :
    (start : ℕ) (bytes : List ℕ) (p : Parser)
    → Ends (Shorter (length bytes)) (parse_field start bytes p).1
unfolding parse_field
parse_field-Ends start bytes p = elim (Bool-cases (has_flag start 0x80)) [
  | inl e ↦ rw e (indexed-Ends bytes p)
  | inr e ↦ rw e (elim (Bool-cases (has_flag start 0x40)) [
    | inl f ↦ rw f (literal_indexed-Ends bytes p)
    | inr f ↦ rw f (elim (Bool-cases (has_flag start 0x20)) [
      | inl g ↦ rw g (table_update-Ends bytes p)
      | inr g ↦ rw g (not_indexed-Ends bytes p)
    ])
  ])
]

abbrev Done : Unit {0} → Type 0
Done u = Unit {0}

parse_fields-Ends :
    (fuel : ℕ) (bytes : List ℕ) (p : Parser)
    → length bytes ≤ fuel
    → Ends Done (parse_fields fuel bytes p).1
unfolding parse_fields
parse_fields-Ends fuel [] p h = tt
parse_fields-Ends zero (b ∷ bytes) p h = absurd (omega arith)
parse_fields-Ends (suc fuel) (b ∷ bytes) p h =
    Ends-bind (Shorter (length (b ∷ bytes))) Done (parse_field b (b ∷ bytes) p) _
      (parse_field-Ends b (b ∷ bytes) p)
      λ next q shorter.
        rw (==-ne (length next) (length (b ∷ bytes)) (omega (arith, shorter)))
          (parse_fields-Ends fuel next q (omega (arith, shorter)))

Ends-ne-stuck : {A : Type 0} (P : A → Type 0) (o : Outcome A) → Ends P o → o ≢ throws stuck
Ends-ne-stuck P (ok a) h e = cc
Ends-ne-stuck P (throws f) h e = h (cc e)

caught-ne-stuck :
    (flags : ℕ) (o : Outcome (Unit {0})) → o ≢ throws stuck → caught flags o ≢ throws stuck
unfolding caught
caught-ne-stuck flags (ok a) h =
    elim (Bool-cases (has_flag flags (bit_or end_headers end_stream))) [
      | inl e ↦ rw e (λ x. cc)
      | inr e ↦ rw e (λ x. cc)
    ]
caught-ne-stuck flags (throws (hpack_error e)) h = λ x. cc
caught-ne-stuck flags (throws (frame_state e)) h = λ x. cc
caught-ne-stuck flags (throws invalid_argument) h = λ x. cc
caught-ne-stuck flags (throws length_error) h = λ x. cc
caught-ne-stuck flags (throws out_of_range) h = λ x. cc
caught-ne-stuck flags (throws runtime_error) h = λ x. cc
caught-ne-stuck flags (throws no_endpoint) h = λ x. cc
caught-ne-stuck flags (throws aborted) h = λ x. cc
caught-ne-stuck flags (throws exited) h = λ x. cc
caught-ne-stuck flags (throws undefined) h = λ x. cc
caught-ne-stuck flags (throws stuck) h = absurd (h refl)

-- On every header block and from every state, the loop of `parse` ends: the fuel, which is the
-- length of the block, is enough.
pub parse_block-ne-stuck :
    (flags : ℕ) (block : List ℕ) (p : Parser) → (parse_block flags block p).1 ≢ throws stuck
unfolding parse_block
parse_block-ne-stuck flags block p =
    caught-ne-stuck flags _
      (Ends-ne-stuck Done _ (parse_fields-Ends (length block) block p (omega arith)))

-- The loop of `parse` without the check that `pos` has moved.
pub unchecked_fields : ℕ → List ℕ → M (Unit {0})
unchecked_fields fuel [] = pure tt
unchecked_fields zero (start ∷ rest) = lift (throws stuck)
unchecked_fields (suc fuel) (start ∷ rest) =
    parse_field start (start ∷ rest) >>= λ next. unchecked_fields fuel next

continue_eq :
    {A B : Type 0} (P : A → Type 0) (r : Parser × Outcome A) (f g : A → M B)
    → Ends P r.1
    → ((a : A) (p : Parser) → P a → f a p ≡ g a p)
    → continue r f ≡ continue r g
continue_eq P (p, ok a) f g h k = k a p h
continue_eq P (p, throws e) f g h k = refl

-- The check for an infinite loop never fires: with or without it the loop does the same on every
-- header block, from every state.
pub parse_fields-unchecked_fields :
    (fuel : ℕ) (block : List ℕ) (p : Parser)
    → parse_fields fuel block p ≡ unchecked_fields fuel block p
unfolding parse_fields unchecked_fields
parse_fields-unchecked_fields fuel [] p = refl
parse_fields-unchecked_fields zero (b ∷ rest) p = refl
parse_fields-unchecked_fields (suc fuel) (b ∷ rest) p =
    continue_eq (Shorter (length (b ∷ rest))) (parse_field b (b ∷ rest) p) _ _
      (parse_field-Ends b (b ∷ rest) p)
      λ next q shorter.
        rw (==-ne (length next) (length (b ∷ rest)) (omega (arith, shorter)))
          (parse_fields-unchecked_fields fuel next q)
