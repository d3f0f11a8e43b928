-- ===== src/H2/Headers.antt =====
-- `h2::payload<HEADERS>` of src/protocols/h2/headers.cpp and include/protocols/h2/headers.hpp: the
-- payload of a HEADERS frame with its padding and priority fields. Asserts are on, as the build
-- defines no NDEBUG.
pub mod Layout
mod Tests
use rite.Prelude.{
  ℕ, zero, suc, ◌+◌, ◌-◌, ◌*◌, ◌/◌, ◌%◌, ◌^◌, List, [], ◌∷◌, Bool, not, leb, ltb, ◌==◌,
  if◌then◌else◌, length, take, drop, bit_and,
}
use rite.Outcome.{
  Outcome, ok, throws, ◌>>=◌, frame_state, FrameState, length_error, aborted, undefined,
}
use rite.H2.Frame.{Frame}

-- The constants of `characteristics<HEADERS>`.
abbrev pub end_stream : ℕ
end_stream = 0x1

abbrev pub end_headers : ℕ
end_headers = 0x4

abbrev pub padded : ℕ
padded = 0x8

abbrev pub priority : ℕ
priority = 0x20

abbrev pub has_flag : ℕ → ℕ → Bool
has_flag flags mask = not (bit_and flags mask == 0)

pub record Payload : Type 0 where
  pub pad_length : ℕ
  pub stream_dependency : ℕ
  pub weight : ℕ
  pub block : List ℕ

-- ntohl on a little-endian host reverses the four bytes.
pub ntohl : ℕ → ℕ
ntohl x = x % 256 * 2 ^ 24 + x / 2 ^ 8 % 256 * 2 ^ 16 + x / 2 ^ 16 % 256 * 2 ^ 8 + x / 2 ^ 24 % 256

-- `pad_length = *(pos++)`, with what `pos` has not reached. On an empty payload this reads past
-- the end.
take_pad_length : List ℕ → Outcome (ℕ × List ℕ)
take_pad_length [] = throws undefined
take_pad_length (pad ∷ rest) = ok (pad, rest)

pub read_padding : Frame → Outcome (ℕ × List ℕ)
unfolding take_pad_length
read_padding frame =
    if has_flag frame.flags padded then take_pad_length frame.payload else ok (0, frame.payload)

-- The dependency, the weight and what is left. The four reads of the dependency are taken from left
-- to right. The check lets four bytes pass, and the fifth read, of the weight, is then past the end.
take_priority : List ℕ → Outcome (ℕ × ℕ × List ℕ)
unfolding ntohl
take_priority (b0 ∷ b1 ∷ b2 ∷ b3 ∷ b4 ∷ rest) =
    ok (ntohl (b0 * 2 ^ 24 + b1 * 2 ^ 16 + b2 * 2 ^ 8 + b3), b4, rest)
take_priority (b0 ∷ b1 ∷ b2 ∷ b3 ∷ []) = throws undefined
take_priority short = throws (frame_state FrameState.invalid)

pub read_priority : Frame → List ℕ → Outcome (ℕ × ℕ × List ℕ)
unfolding take_priority
read_priority frame rest =
    if has_flag frame.flags priority then take_priority rest else ok (0, 0, rest)

-- The assert, the call of `reserve` with the size that the code computes (the distance from the
-- front to `pos`, less the padding; as a size_t it is beyond max_size() when that is negative, and
-- `reserve` throws std::length_error), and the copy of the header block without the padding.
pub read_block : Frame → ℕ → ℕ → ℕ → List ℕ → Outcome Payload
read_block frame pad dependency weight rest =
    if leb (length rest) pad
    then throws aborted
    else if ltb (length frame.payload - length rest) pad
    then throws length_error
    else ok (record {
      pad_length = pad;
      stream_dependency = dependency;
      weight = weight;
      block = take (length rest - pad) rest;
    })

-- The constructor.
pub payload : Frame → Outcome Payload
payload frame = do
  (pad, rest) ← read_padding frame
  (dependency, weight, rest') ← read_priority frame rest
  read_block frame pad dependency weight rest'

-- `characteristics<HEADERS>::is_exclusive`.
pub is_exclusive : Payload → Bool
is_exclusive p = not (p.stream_dependency / 2 ^ 31 % 2 == 0)
