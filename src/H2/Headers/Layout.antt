-- ===== src/H2/Headers/Layout.antt =====
-- Which bytes of a HEADERS frame the constructor takes for the header block.
use rite.Prelude.{
  ℕ, ◌≤◌, ◌<◌, ◌≡◌, ◌∙◌, List, ◌++◌, arith, false, length, take_all, ◌==◌, if◌then◌else◌,
}
use rite.Outcome.{ok, throws, aborted}
use rite.H2.Frame.{Frame}
use rite.H2.Headers.{
  Payload, has_flag, padded, priority, read_padding, read_priority, read_block, payload,
}

abbrev pub IsPlain : Frame → Type 0
IsPlain f = (has_flag f.flags padded ≡ false) × (has_flag f.flags priority ≡ false)

plain_parts : (f : Frame) → IsPlain f → payload f ≡ read_block f 0 0 0 f.payload
unfolding payload read_padding read_priority
plain_parts f (p, q) = rw (p, q)

-- Without padding and priority the header block is the whole payload, when that is not empty; an
-- empty payload fails the assert.
pub payload_plain :
    (f : Frame)
    → IsPlain f
    → payload f ≡ (
        if length f.payload == 0
        then throws aborted
        else ok (record { pad_length = 0; stream_dependency = 0; weight = 0; block = f.payload }))
unfolding read_block
payload_plain f plain = plain_parts f plain ∙ ground (arith, take_all f.payload)

-- The part of the payload that a reader took, at most `most` bytes of it.
record Taken (whole rest : List ℕ) (most : ℕ) : Type 0 where
  front : List ℕ
  short : length front ≤ most
  split : whole ≡ front ++ rest

-- What a successful construction says of the frame.
pub record IsLaidOut (whole : List ℕ) (p : Payload) : Type 0 where
  pub front : List ℕ
  pub back : List ℕ
  pub split : whole ≡ front ++ p.block ++ back
  pub short : length front ≤ 6
  pub behind : length back ≡ p.pad_length
  pub filled : 0 < length p.block
  pub padding_fits : p.pad_length ≤ length front
