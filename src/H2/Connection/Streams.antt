-- ===== src/H2/Connection/Streams.antt =====
-- The streams of a connection by their identifiers.
use rite.Prelude.{
  ℕ, arith, ◌≡◌, refl, sym, ap, ◌≢◌, false, ==-ne, ◌∙◌, inl, inr, List, [], ◌∷◌, false, some, ◌==◌,
  ==_iff, Bool-cases,
}
use rite.H2.Huffman.{lookup, assign}
use rite.H2.Connection.{Connection, stream_at, set_stream, update_stream}
use rite.H2.Connection.Requests.{Stream}

lookup-assign {ℓ} :
    {V : Type ℓ} (k : ℕ) (v : V) (m : List (ℕ × V)) → lookup k (assign k v m) ≡ some v
unfolding lookup assign
lookup-assign k v [] = rw ((==_iff k k).1 refl) refl
lookup-assign k v ((j, w) ∷ m) = elim (Bool-cases (j == k)) [
  | inl e ↦ rw e (rw (e, lookup) refl)
  | inr e ↦ rw e (rw (e, lookup) (lookup-assign k v m))
]

lookup-assign_other {ℓ} :
    {V : Type ℓ} (i k : ℕ) (v : V) (m : List (ℕ × V)) → i ≢ k → lookup i (assign k v m) ≡ lookup i m
unfolding lookup assign
lookup-assign_other i k v [] ne = rw (==-ne k i (λ e. ne (sym e))) refl
lookup-assign_other i k v ((j, w) ∷ m) ne = elim (Bool-cases (j == k)) [
  | inl e ↦
      let other : (j == i) ≡ false = ==-ne j i (λ z. ne (sym z ∙ (==_iff j k).0 e)) in
      rw (e, assign) (rw (other, lookup) refl)
  | inr e ↦
      rw (e, assign)
        (elim (Bool-cases (j == i)) [
          | inl h ↦ rw (h, lookup) refl
          | inr h ↦ rw (h, lookup) (lookup-assign_other i k v m ne)
        ])
]

-- A stream that is changed is what the change makes of it.
pub stream_at-update_stream :
    (id : ℕ) (f : Stream → Stream) (c : Connection)
    → stream_at id (update_stream id f c) ≡ f (stream_at id c)
unfolding stream_at set_stream
stream_at-update_stream id f c =
    rw (lookup-assign id (f (stream_at id c)) c.streams, stream_at) refl

stream_at-set_stream : (id : ℕ) (s : Stream) (c : Connection) → stream_at id (set_stream id s c) ≡ s
unfolding stream_at set_stream
stream_at-set_stream id s c = rw (lookup-assign id s c.streams, stream_at) refl

stream_at-set_stream_other :
    (i id : ℕ) (s : Stream) (c : Connection)
    → i ≢ id
    → stream_at i (set_stream id s c) ≡ stream_at i c
unfolding stream_at set_stream
stream_at-set_stream_other i id s c ne =
    rw (lookup-assign_other i id s c.streams ne, stream_at) refl

-- No stream has a body.
abbrev pub IsBodiless : Connection → Type 0
IsBodiless c = (i : ℕ) → (stream_at i c).body ≡ []

pub set_stream-IsBodiless :
    (id : ℕ) (s : Stream) (c : Connection)
    → s.body ≡ []
    → IsBodiless c
    → IsBodiless (set_stream id s c)
set_stream-IsBodiless id s c e b i = elim (Bool-cases (i == id)) [
  | inl h ↦
      let same : i ≡ id = (==_iff i id).0 h in
      ap (λ j. (stream_at j (set_stream id s c)).body) same
      ∙ ap (λ s. s.body) (stream_at-set_stream id s c)
      ∙ e
  | inr h ↦ ap (λ s. s.body) (stream_at-set_stream_other i id s c (ground arith)) ∙ b i
]
