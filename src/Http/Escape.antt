-- ===== src/Http/Escape.antt =====
-- Percent-encoding as a client does it: the independent description that the two decoders, of
-- src/http/parser.cpp and src/protocols/h2/connection.cpp, are compared with.
use rite.Prelude.{ℕ, ◌+◌, ◌/◌, ◌%◌, List, [], ◌∷◌, Bool, leb, if◌then◌else◌}

unfoldable pub hex_digit : ℕ → ℕ
hex_digit n = if leb n 9 then 48 + n else 55 + n

abbrev pub escaped : ℕ → List ℕ → List ℕ
escaped c rest = 37 ∷ hex_digit (c / 16) ∷ hex_digit (c % 16) ∷ rest

-- The bytes that `safe` does not let through are escaped.
unfoldable pub escape : (ℕ → Bool) → List ℕ → List ℕ
escape safe [] = []
escape safe (c ∷ cs) = let rest = escape safe cs in if safe c then c ∷ rest else escaped c rest
