-- ===== src/H2/Frame/Tests.antt =====
-- Concrete headers, and the theorems at them.
use rite.Prelude.{◌≡◌, refl, [], ◌∷◌, arith, replicate, drop, true, false}
use rite.H2.Frame.{Frame, empty_frame, pack, unpack, type_settings, settings_ack}
use rite.H2.Frame.Packing.{unpack-pack}

abbrev ack_frame : Frame
ack_frame = record empty_frame {
  length = 6;
  type = type_settings;
  flags = settings_ack;
  stream_identifier = 3;
}

pack_ack : pack ack_frame (replicate 10 7) ≡ (true, 0 ∷ 0 ∷ 6 ∷ 4 ∷ 1 ∷ 0 ∷ 0 ∷ 0 ∷ 3 ∷ 7 ∷ [])
unfolding pack
pack_ack = refl

unpack_short : unpack ack_frame (1 ∷ 2 ∷ 3 ∷ []) ≡ (false, ack_frame)
unfolding unpack
unpack_short = refl

unpack-pack_example :
    ((pack ack_frame (replicate 10 7)).0 ≡ true)
    × (unpack empty_frame (pack ack_frame (replicate 10 7)).1 ≡ (true, ack_frame))
    × (drop 9 (pack ack_frame (replicate 10 7)).1 ≡ 7 ∷ [])
unpack-pack_example = unpack-pack ack_frame empty_frame (replicate 10 7) (omega arith) (omega arith)
