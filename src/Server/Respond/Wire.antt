-- ===== src/Server/Respond/Wire.antt =====
-- Frames through the connection: what is written is read back.
use rite.Prelude.{
  ℕ, zero, suc, ◌≤◌, ◌<◌, ◌≡◌, refl, sym, ap, ◌∙◌, List, [], ◌∷◌, ◌++◌, arith, All, none, length,
  length-append, append_assoc, append-nil,
}
use rite.H2.Frame.{Frame, header_bytes, pack, max_frame_size}
use rite.H2.Frame.Packing.{IsWireHeader, length-header_bytes}
use rite.H2.Connection.{Connection, ReadFrame, got, unexpected, read_frame, write_frame}
use rite.H2.Connection.Reading.{settled, read_frame-whole}
use rite.Server.Respond.{write_frames}

abbrev pub frame_bytes : Frame → List ℕ
frame_bytes f = header_bytes f ++ f.payload

abbrev pub wires : List Frame → List ℕ
wires [] = []
wires (f ∷ fs) = frame_bytes f ++ wires fs

write_frame-sent : (f : Frame) (c : Connection) → (write_frame f c).sent ≡ c.sent ++ frame_bytes f
unfolding write_frame pack header_bytes
write_frame-sent f c = append_assoc c.sent _ f.payload

-- Writing frames adds their bytes to what was sent.
pub write_frames-sent :
    (fs : List Frame) (c : Connection) → (write_frames fs c).sent ≡ c.sent ++ wires fs
unfolding write_frames
write_frames-sent [] c = sym (append-nil c.sent)
write_frames-sent (f ∷ fs) c =
    write_frames-sent fs (write_frame f c)
    ∙ ap (λ l. l ++ wires fs) (write_frame-sent f c)
    ∙ append_assoc c.sent (frame_bytes f) (wires fs)

-- A peer that reads one frame after the other with `read_frame`.
next_frames : (List ℕ → Connection → List Frame) → Connection × ReadFrame → List Frame
next_frames later (c, got f rest) = f ∷ later rest c
next_frames later (c, unexpected e rest) = []

pub read_frames : ℕ → List ℕ → Connection → List Frame
unfolding next_frames
read_frames fuel [] c = []
read_frames zero (b ∷ bytes) c = []
read_frames (suc fuel) (b ∷ bytes) c = next_frames (read_frames fuel) (read_frame (b ∷ bytes) c)

pub record IsWireFrame (f : Frame) : Type 0 where
  pub header : IsWireHeader f
  pub measured : length f.payload ≡ f.length
  pub limited : f.length ≤ max_frame_size

read_frames_step :
    (fuel : ℕ) (bytes rest : List ℕ) (f : Frame) (c d : Connection)
    → 0 < length bytes
    → read_frame bytes c ≡ (d, got f rest)
    → read_frames (suc fuel) bytes c ≡ f ∷ read_frames fuel rest d
unfolding read_frames next_frames
read_frames_step fuel [] rest f c d h e = absurd (omega arith)
read_frames_step fuel (b ∷ bytes) rest f c d h e = rw e

-- The peer reads back the frames that were written, in their order.
pub read_frames-wires :
    (fs : List Frame) (fuel : ℕ) (c : Connection)
    → All IsWireFrame fs
    → c.unfinished_frame ≡ none
    → length fs ≤ fuel
    → read_frames fuel (wires fs) c ≡ fs
unfolding read_frames
read_frames-wires [] fuel c w fresh h = refl
read_frames-wires (f ∷ fs) zero c w fresh h = absurd (omega arith)
read_frames-wires (f ∷ fs) (suc fuel) c w fresh h =
    let whole = append_assoc (header_bytes f) f.payload (wires fs) in
    let some_bytes : 0 < length (wires (f ∷ fs)) = omega (
      arith,
      length-append (header_bytes f) f.payload,
      length-header_bytes f,
      length-append (frame_bytes f) (wires fs),
    ) in
    read_frames_step fuel (wires (f ∷ fs)) (wires fs) f c (settled c) some_bytes (
      ap (λ l. read_frame l c) whole
      ∙ read_frame-whole f (wires fs) c w.0.header w.0.measured w.0.limited fresh)
    ∙ ap (λ l. f ∷ l) (read_frames-wires fs fuel (settled c) w.1 refl (omega (arith, h)))

pub length-wires : (fs : List Frame) → length fs ≤ length (wires fs)
length-wires [] = omega arith
length-wires (f ∷ fs) = omega (
  arith,
  length-append (header_bytes f) f.payload,
  length-header_bytes f,
  length-append (frame_bytes f) (wires fs),
  length-wires fs,
)
