-- ===== src/Text.antt =====
-- Byte strings: a std::string is the list of its bytes.
use Prim.Native.Char.{code}
use Prim.Native.String.{String}
use rite.Prelude.{ℕ, ◌+◌, List, [], ◌∷◌, ◌&&◌, leb, if◌then◌else◌, map}

-- The bytes of an ASCII literal.
abbrev pub codes : String → List ℕ
codes String.[] = []
codes (String.◌∷◌ c s) = code c ∷ codes s

-- std::tolower in the "C" locale, which the program never leaves.
pub lower : ℕ → ℕ
lower c = if leb b'A' c && leb c b'Z' then c + 32 else c

-- `to_lower` of src/protocols/h2/hpack.cpp.
unfoldable pub to_lower : List ℕ → List ℕ
unfolding lower
to_lower = map lower
