-- ===== src/H2/Headers/Tests.antt =====
-- Concrete HEADERS payloads, and the theorems at them.
use rite.Prelude.{ℕ, ◌≡◌, refl, List, [], ◌∷◌}
use rite.Outcome.{throws, length_error, undefined}
use rite.H2.Frame.{Frame, empty_frame, type_headers}
use rite.H2.Headers.{Payload, payload, read_padding, read_priority, read_block}

abbrev headers_frame : ℕ → List ℕ → Frame
headers_frame flags bytes = record empty_frame {
  type = type_headers;
  flags = flags;
  payload = bytes;
}

abbrev one_pad : Payload
one_pad = record { pad_length = 1; stream_dependency = 0; weight = 0; block = 0x82 ∷ [] }

-- Four bytes pass the check for the priority fields, and the fifth read is past the end.
payload_short_priority : payload (headers_frame 0x24 (0 ∷ 0 ∷ 0 ∷ 1 ∷ [])) ≡ throws undefined
unfolding payload read_padding read_priority
payload_short_priority = refl

-- Two bytes of padding behind no priority fields are refused.
payload_two_pads : payload (headers_frame 0xC (2 ∷ 0x82 ∷ 0x86 ∷ 0 ∷ 0 ∷ [])) ≡ throws length_error
unfolding payload read_padding read_priority read_block
payload_two_pads = refl
