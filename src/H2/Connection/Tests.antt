-- ===== src/H2/Connection/Tests.antt =====
-- Concrete packets, and the theorems at them.
use rite.Prelude.{ℕ, ◌≡◌, refl, [], ◌∷◌, ◌++◌, arith, Bool, not, ◌==◌, ◌||◌}
use rite.Text.{codes}
use rite.H2.Frame.{Frame, header_bytes, type_data}
use rite.H2.Frame.Packing.{IsWireHeader}
use rite.H2.Hpack.StaticTable.{static_header_table}
use rite.H2.Hpack.{Parser}
use rite.H2.Connection.{Connection, accepted, read_frame, got}
use rite.H2.Connection.Reading.{settled, after, read_frame-after}

abbrev fresh : Parser
fresh = record { header_map = []; decoded = []; static_table = static_header_table }

abbrev new : Connection
new = accepted fresh

abbrev hello : Frame
hello = record {
  length = 5;
  type = type_data;
  flags = 1;
  stream_identifier = 3;
  payload = codes "hello";
}

hello-IsWireHeader : IsWireHeader hello
hello-IsWireHeader = record {
  length_range = omega arith;
  type_range = omega arith;
  flags_range = omega arith;
  stream_range = omega arith;
}

read_frame-after_example :
    read_frame
      (codes "o" ++ (9 ∷ []))
      (after ((header_bytes hello ++ codes "h") ∷ codes "el" ∷ codes "l" ∷ []) new)
    ≡ (settled new, got hello (9 ∷ []))
read_frame-after_example =
    read_frame-after hello (codes "h") (codes "el" ∷ codes "l" ∷ []) (codes "o") (9 ∷ []) new
      hello-IsWireHeader refl refl (omega arith) (omega arith) refl

abbrev unreserved : ℕ → Bool
unreserved c = not (c == 37 || c == 43 || c == 32)
