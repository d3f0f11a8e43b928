-- ===== src/H2/Connection/Uri.antt =====
-- `uri_decode` of src/protocols/h2/connection.cpp.
pub mod RoundTrip
use rite.Prelude.{
  ℕ, ◌+◌, ◌-◌, ◌*◌, List, [], ◌∷◌, Bool, true, false, ◌&&◌, ◌||◌, leb, ◌==◌, if◌then◌else◌,
}

-- std::isxdigit, and the value of a digit in std::stoi with base 16.
unfoldable pub is_hex : ℕ → Bool
is_hex c = (leb 48 c && leb c 57) || (leb 65 c && leb c 70) || (leb 97 c && leb c 102)

unfoldable pub hex_value : ℕ → ℕ
hex_value c = if leb c 57 then c - 48 else if leb c 70 then c - 55 else c - 87

unfoldable pub plain : ℕ → ℕ
plain c = if c == b'+' then b' ' else c

unfoldable pub is_escape : ℕ → ℕ → ℕ → Bool
unfolding is_hex
is_escape c a b = c == b'%' && is_hex a && is_hex b

-- The loop over what is left of the string.
unfoldable pub uri_decode : List ℕ → List ℕ
unfolding plain is_escape hex_value
uri_decode [] = []
uri_decode (c ∷ []) = plain c ∷ []
uri_decode (c ∷ a ∷ []) = plain c ∷ plain a ∷ []
uri_decode (c ∷ a ∷ b ∷ rest) = elim (is_escape c a b) [
  | true ↦ (hex_value a * 16 + hex_value b) ∷ uri_decode rest
  | false ↦ plain c ∷ uri_decode (a ∷ b ∷ rest)
]
