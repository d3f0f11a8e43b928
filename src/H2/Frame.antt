-- ===== src/H2/Frame.antt =====
-- `h2::frame` of include/protocols/h2.hpp: the nine-byte frame header and its constants.
-- An integer field is a number below two to its width; `frame::type` has uint8_t below it, so
-- every byte is a value of it. The field `data` is called `payload` here.
pub mod Packing
mod Tests
use rite.Prelude.{ℕ, ◌+◌, ◌*◌, ◌/◌, ◌%◌, ◌^◌, List, [], ◌∷◌, ◌++◌, Bool, true, false, drop}

pub record Frame : Type 0 where
  pub length : ℕ
  pub type : ℕ
  pub flags : ℕ
  pub stream_identifier : ℕ
  pub payload : List ℕ

-- The enumerators of `frame::type` that the code names.
abbrev pub type_data : ℕ
type_data = 0

abbrev pub type_headers : ℕ
type_headers = 1

abbrev pub type_rst_stream : ℕ
type_rst_stream = 3

abbrev pub type_settings : ℕ
type_settings = 4

abbrev pub type_ping : ℕ
type_ping = 6

abbrev pub type_window_update : ℕ
type_window_update = 8

abbrev pub type_continuation : ℕ
type_continuation = 9

-- The constants of `characteristics<SETTINGS>`, `<PING>` and `<DATA>`.
abbrev pub settings_ack : ℕ
settings_ack = 0x1

abbrev pub ping_ack : ℕ
ping_ack = 0x1

abbrev pub data_end_stream : ℕ
data_end_stream = 0x1

-- MAX_FRAME_SIZE and HTTP2_FRAME_SIZE.
abbrev pub max_frame_size : ℕ
max_frame_size = 1024 * 1024 * 4

abbrev pub frame_header_size : ℕ
frame_header_size = 9

-- `frame{}`: every field is zero or empty.
abbrev pub empty_frame : Frame
empty_frame = record { length = 0; type = 0; flags = 0; stream_identifier = 0; payload = [] }

-- The nine bytes that `pack` stores; `(x >> k) & 0xFF` is `x / 2 ^ k % 256`.
unfoldable pub header_bytes : Frame → List ℕ
header_bytes f =
    (f.length / 2 ^ 16 % 256)
    ∷ (f.length / 2 ^ 8 % 256)
    ∷ (f.length % 256)
    ∷ f.type
    ∷ f.flags
    ∷ (f.stream_identifier / 2 ^ 24 % 256)
    ∷ (f.stream_identifier / 2 ^ 16 % 256)
    ∷ (f.stream_identifier / 2 ^ 8 % 256)
    ∷ (f.stream_identifier % 256)
    ∷ []

-- `pack` writes to the front of a buffer that has nine bytes or more, and to no other.
unfoldable pub pack : Frame → List ℕ → Bool × List ℕ
unfolding header_bytes
pack f (b0 ∷ b1 ∷ b2 ∷ b3 ∷ b4 ∷ b5 ∷ b6 ∷ b7 ∷ b8 ∷ rest) = (true, header_bytes f ++ rest)
pack f buffer = (false, buffer)

-- `unpack` reads the same nine bytes, big-endian; the operands of each `|` share no bit, so it is `+`.
unfoldable pub unpack : Frame → List ℕ → Bool × Frame
unpack f (b0 ∷ b1 ∷ b2 ∷ b3 ∷ b4 ∷ b5 ∷ b6 ∷ b7 ∷ b8 ∷ rest) = (
  true,
  record f {
    length = b0 * 2 ^ 16 + b1 * 2 ^ 8 + b2;
    type = b3;
    flags = b4;
    stream_identifier = b5 * 2 ^ 24 + b6 * 2 ^ 16 + b7 * 2 ^ 8 + b8;
  },
)
unpack f buffer = (false, f)
