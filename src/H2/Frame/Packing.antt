-- ===== src/H2/Frame/Packing.antt =====
-- `pack` and `unpack` undo one another on frame headers.
use rite.Prelude.{ℕ, ◌^◌, ◌≤◌, ◌<◌, ◌≡◌, refl, List, [], ◌∷◌, ◌++◌, arith, All, drop, length, true}
use rite.H2.Frame.{Frame, header_bytes, pack, unpack}

-- The ranges of the fields: 24 bits, 8 bits, 8 bits, 32 bits.
pub record IsWireHeader (f : Frame) : Type 0 where
  pub length_range : f.length < 2 ^ 24
  pub type_range : f.type < 256
  pub flags_range : f.flags < 256
  pub stream_range : f.stream_identifier < 2 ^ 32

pub length-header_bytes : (f : Frame) → length (header_bytes f) ≡ 9
unfolding header_bytes
length-header_bytes f = refl

header_bytes-bytes : (f : Frame) → IsWireHeader f → All (λ b. b < 256) (header_bytes f)
unfolding header_bytes
header_bytes-bytes f w = omega arith

pub unpack-header_bytes :
    (f g : Frame) (rest : List ℕ)
    → IsWireHeader f
    → unpack g (header_bytes f ++ rest) ≡ (true, record f { payload = g.payload })
unfolding unpack header_bytes
unpack-header_bytes f g rest w = ground arith

-- Unpacking the buffer that `pack` filled gives the four header fields back, when the buffer has
-- nine bytes and the fields fit their widths on the wire; what follows the header does not matter.
pub unpack-pack :
    (f g : Frame) (buffer : List ℕ)
    → IsWireHeader f
    → 9 ≤ length buffer
    → ((pack f buffer).0 ≡ true)
      × (unpack g (pack f buffer).1 ≡ (true, record f { payload = g.payload }))
      × (drop 9 (pack f buffer).1 ≡ drop 9 buffer)
unfolding pack header_bytes
unpack-pack f g [] w h = absurd (omega arith)
unpack-pack f g (b0 ∷ []) w h = absurd (omega arith)
unpack-pack f g (b0 ∷ b1 ∷ []) w h = absurd (omega arith)
unpack-pack f g (b0 ∷ b1 ∷ b2 ∷ []) w h = absurd (omega arith)
unpack-pack f g (b0 ∷ b1 ∷ b2 ∷ b3 ∷ []) w h = absurd (omega arith)
unpack-pack f g (b0 ∷ b1 ∷ b2 ∷ b3 ∷ b4 ∷ []) w h = absurd (omega arith)
unpack-pack f g (b0 ∷ b1 ∷ b2 ∷ b3 ∷ b4 ∷ b5 ∷ []) w h = absurd (omega arith)
unpack-pack f g (b0 ∷ b1 ∷ b2 ∷ b3 ∷ b4 ∷ b5 ∷ b6 ∷ []) w h = absurd (omega arith)
unpack-pack f g (b0 ∷ b1 ∷ b2 ∷ b3 ∷ b4 ∷ b5 ∷ b6 ∷ b7 ∷ []) w h = absurd (omega arith)
unpack-pack f g (b0 ∷ b1 ∷ b2 ∷ b3 ∷ b4 ∷ b5 ∷ b6 ∷ b7 ∷ b8 ∷ rest) w h =
    (refl, unpack-header_bytes f g rest w, refl)

-- Packing what `unpack` read from nine bytes gives the nine bytes back, and the fields that it
-- read fit their widths.
pack-unpack :
    (b0 b1 b2 b3 b4 b5 b6 b7 b8 : ℕ) (g : Frame)
    → let bytes = b0 ∷ b1 ∷ b2 ∷ b3 ∷ b4 ∷ b5 ∷ b6 ∷ b7 ∷ b8 ∷ [] in
      All (λ b. b < 256) bytes
      → IsWireHeader (unpack g bytes).1 × (header_bytes (unpack g bytes).1 ≡ bytes)
unfolding unpack header_bytes
pack-unpack b0 b1 b2 b3 b4 b5 b6 b7 b8 g h = (ground arith, ground arith)

-- The reserved bit of the stream identifier is not cleared: a header whose sixth byte is 128 or
-- more is read as a stream identifier that does not fit 31 bits.
unpack-reserved_bit :
    (b0 b1 b2 b3 b4 b5 b6 b7 b8 : ℕ) (rest : List ℕ) (g : Frame)
    → 128 ≤ b5
    → 2 ^ 31 ≤ (unpack g (b0 ∷ b1 ∷ b2 ∷ b3 ∷ b4 ∷ b5 ∷ b6 ∷ b7 ∷ b8 ∷ rest)).1.stream_identifier
unfolding unpack
unpack-reserved_bit b0 b1 b2 b3 b4 b5 b6 b7 b8 rest g h = omega arith
