-- ===== src/H2/Connection/Reading.antt =====
-- Frames that arrive in pieces: `read_frame` over several packets.
use rite.Prelude.{
  ℕ, ◌+◌, ◌-◌, ◌≤◌, ◌<◌, ◌≡◌, refl, sym, ap, ◌∙◌, List, [], ◌∷◌, ◌++◌, arith, length, take, drop,
  min, none, some, length-append, append_assoc, append-nil, take_all, take_length-append,
  drop_length-append, lt→ltb, le→ltb_false, true,
}
use rite.H2.Frame.{Frame, header_bytes, unpack, empty_frame, max_frame_size}
use rite.H2.Frame.Packing.{IsWireHeader, unpack-header_bytes, length-header_bytes}
use rite.H2.Connection.{Connection, got, fill, read_header, read_frame}

abbrev waiting : Frame → Connection → Connection
waiting g c = record c { unfinished_frame = some g }

abbrev pub settled : Connection → Connection
settled c = record c { unfinished_frame = none }

abbrev plus : Frame → List ℕ → Frame
plus g bytes = record g { payload = g.payload ++ bytes }

fill_some :
    (g : Frame) (bytes : List ℕ) (c : Connection)
    → length g.payload + length bytes < g.length
    → (fill g bytes c).0 ≡ waiting (plus g bytes) c
unfolding fill
fill_some g bytes c h =
    let all : min (length bytes) (g.length - length g.payload) ≡ length bytes = omega arith in
    rw (all, take_all bytes)
      (rw (
        lt→ltb (length (g.payload ++ bytes)) g.length
          (omega (arith, length-append g.payload bytes))))

fill_rest :
    (g : Frame) (bytes rest : List ℕ) (c : Connection)
    → length g.payload + length bytes ≡ g.length
    → fill g (bytes ++ rest) c ≡ (settled c, got (plus g bytes) rest)
unfolding fill
fill_rest g bytes rest c h =
    let part : min (length (bytes ++ rest)) (g.length - length g.payload) ≡ length bytes =
      omega (arith, length-append bytes rest) in
    rw (part, take_length-append bytes rest, drop_length-append bytes rest)
      (rw (
        le→ltb_false (length (g.payload ++ bytes)) g.length
          (omega (arith, length-append g.payload bytes))))

-- The packets before the last, read one after the other.
abbrev pub join : List (List ℕ) → List ℕ
join [] = []
join (b ∷ bs) = b ++ join bs

abbrev pub after : List (List ℕ) → Connection → Connection
after [] c = c
after (b ∷ bs) c = after bs (read_frame b c).0

read_waiting :
    (g : Frame) (bytes : List ℕ) (c : Connection)
    → read_frame bytes (waiting g c) ≡ fill g bytes (waiting g c)
unfolding read_frame
read_waiting g bytes c = refl

-- Behind the frame header, the packets that do not complete the payload add to it.
after-waiting :
    (pieces : List (List ℕ)) (g : Frame) (c : Connection)
    → length g.payload + length (join pieces) < g.length
    → after pieces (waiting g c) ≡ waiting (plus g (join pieces)) c
after-waiting [] g c h = rw (append-nil g.payload)
after-waiting (b ∷ bs) g c h =
    let early : (read_frame b (waiting g c)).0 ≡ waiting (plus g b) c =
      ap (λ r. r.0) (read_waiting g b c)
      ∙ fill_some g b (waiting g c) (omega (arith, length-append b (join bs))) in
    ap (after bs) early
    ∙ after-waiting bs (plus g b) c
        (omega (arith, length-append b (join bs), length-append g.payload b))
    ∙ ap (λ l. waiting (record g { payload = l }) c) (append_assoc g.payload b (join bs))

bare : Frame → Frame
bare f = record f { payload = [] }

header_read : (f : Frame) (bytes : List ℕ) → take 9 (header_bytes f ++ bytes) ≡ header_bytes f
header_read f bytes =
    ap (λ n. take n (header_bytes f ++ bytes)) (sym (length-header_bytes f))
    ∙ take_length-append (header_bytes f) bytes

header_past : (f : Frame) (bytes : List ℕ) → drop 9 (header_bytes f ++ bytes) ≡ bytes
header_past f bytes =
    ap (λ n. drop n (header_bytes f ++ bytes)) (sym (length-header_bytes f))
    ∙ drop_length-append (header_bytes f) bytes

header_unpacked :
    (f : Frame) → IsWireHeader f → unpack empty_frame (header_bytes f) ≡ (true, bare f)
unfolding bare
header_unpacked f w =
    ap (unpack empty_frame) (sym (append-nil (header_bytes f)))
    ∙ unpack-header_bytes f empty_frame [] w

read_start :
    (f : Frame) (bytes : List ℕ) (c : Connection)
    → IsWireHeader f
    → c.unfinished_frame ≡ none
    → f.length ≤ max_frame_size
    → read_frame (header_bytes f ++ bytes) c ≡ fill (bare f) bytes c
unfolding read_frame read_header bare
read_start f bytes c w fresh fits =
    let long : 9 ≤ length (header_bytes f ++ bytes) =
      omega (arith, length-append (header_bytes f) bytes, length-header_bytes f) in
    rw (fresh, read_frame)
      (rw
        (
          header_read f bytes,
          header_past f bytes,
          header_unpacked f w,
          le→ltb_false (length (header_bytes f ++ bytes)) 9 long,
        )
        (rw (le→ltb_false max_frame_size f.length fits)))

-- A frame whose header arrives in one packet is read in full, however its payload is spread over
-- that packet and the ones after it: when the header fields fit their widths, `length` is the size of
-- the payload and at most MAX_FRAME_SIZE, and the last packet brings at least one byte of it, then
-- that last read gives the frame, stops behind its last byte, and leaves no unfinished frame.
pub read_frame-after :
    (f : Frame) (first : List ℕ) (pieces : List (List ℕ)) (last rest : List ℕ) (c : Connection)
    → IsWireHeader f
    → f.payload ≡ first ++ (join pieces ++ last)
    → length f.payload ≡ f.length
    → f.length ≤ max_frame_size
    → 0 < length last
    → c.unfinished_frame ≡ none
    → read_frame (last ++ rest) (after ((header_bytes f ++ first) ∷ pieces) c)
      ≡ (settled c, got f rest)
unfolding bare
read_frame-after f first pieces last rest c w split whole fits more fresh =
    let size =
      (ap length split
        ∙ length-append first (join pieces ++ last)
        ∙ ap (λ n. length first + n) (length-append (join pieces) last)) in
    let begun : (read_frame (header_bytes f ++ first) c).0
        ≡ waiting (record f { payload = first }) c =
      ap (λ r. r.0) (read_start f first c w fresh fits)
      ∙ fill_some (bare f) first c (omega (arith, size, whole)) in
    let g = record f { payload = first ++ join pieces } in
    let waited : after ((header_bytes f ++ first) ∷ pieces) c ≡ waiting g c =
      ap (after pieces) begun
      ∙ after-waiting pieces (record f { payload = first }) c (omega (arith, size, whole)) in
    let joined : first ++ join pieces ++ last ≡ f.payload =
      append_assoc first (join pieces) last ∙ sym split in
    ap (read_frame (last ++ rest)) waited
    ∙ read_waiting g (last ++ rest) c
    ∙ fill_rest g last rest (waiting g c)
        (omega (arith, size, whole, length-append first (join pieces)))
    ∙ ap (λ l. (settled c, got (record f { payload = l }) rest)) joined

-- A frame that is in the packet as a whole is read at once.
pub read_frame-whole :
    (f : Frame) (rest : List ℕ) (c : Connection)
    → IsWireHeader f
    → length f.payload ≡ f.length
    → f.length ≤ max_frame_size
    → c.unfinished_frame ≡ none
    → read_frame (header_bytes f ++ (f.payload ++ rest)) c ≡ (settled c, got f rest)
unfolding bare
read_frame-whole f rest c w whole fits fresh =
    read_start f (f.payload ++ rest) c w fresh fits
    ∙ fill_rest (bare f) f.payload rest c (omega (arith, whole))
