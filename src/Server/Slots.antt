-- ===== src/Server/Slots.antt =====
-- `connection<void>` of include/connection.hpp, and the slots in which the event loop of
-- include/server.hpp keeps the connections. Times are nanoseconds, but `keep_alive` is in
-- microseconds. `use_count()` is `taken` less `released`.
pub mod Lists
pub mod Lifetime
pub mod Reclaiming
mod Tests
use rite.Prelude.{
  ℕ, zero, suc, ◌+◌, ◌-◌, ◌/◌, List, [], ◌∷◌, Bool, true, false, ◌&&◌, ◌||◌, Option, none, some,
  ltb, leb, if◌then◌else◌, get_elem?, replicate, set_at,
}

pub record Client : Type 0 where
  pub last_active : ℕ
  pub keep_alive : ℕ
  pub taken : ℕ
  pub released : ℕ
  pub closed : Bool

-- The constructor: five seconds.
abbrev pub connected : ℕ → Client
connected now = record {
  last_active = now;
  keep_alive = 5000000;
  taken = 0;
  released = 0;
  closed = false;
}

abbrev pub was_active : ℕ → Client → Client
was_active now c = record c { last_active = now }

abbrev pub set_keep_alive : ℕ → Client → Client
set_keep_alive usecs c = record c { keep_alive = usecs }

abbrev pub take : Client → Client
take c = record c { taken = c.taken + 1 }

abbrev pub release : Client → Client
release c = record c { released = c.released + 1 }

abbrev pub close : Client → Client
close c = record c { closed = true }

abbrev pub idle : ℕ → Client → Bool
idle now c = ltb c.keep_alive ((now - c.last_active) / 1000)

-- `use_count() <= 0`.
abbrev pub unused : Client → Bool
unused c = leb c.taken c.released

-- The condition that the sentinel waits for, and the one on which it ends.
abbrev pub wakes : ℕ → Client → Bool
wakes now c = (idle now c && unused c) || c.closed

abbrev pub ends : ℕ → Client → Bool
ends now c = (idle now c && unused c) || (c.closed && unused c)

-- A pointer whose highest bit is set, or a connection.
pub data Slot : Type 0 where
  free : Slot
  busy : (client : Client) → Slot

-- `connections_.resize(max_connections, ...)`.
abbrev pub initial : ℕ → List Slot
initial max = replicate max free

-- `std::find_if` for a free slot.
pub next_free : List Slot → Option ℕ
next_free [] = none
next_free (free ∷ slots) = some 0
next_free (busy c ∷ slots) = elim (next_free slots) [ some i ↦ some (suc i) | none ↦ none ]

abbrev pub put : ℕ → Slot → List Slot → List Slot
put = set_at

-- A connection that finds no free slot is deleted.
pub accept : Client → List Slot → List Slot
unfolding next_free
accept c slots = elim (next_free slots) [ some i ↦ put i (busy c) slots | none ↦ slots ]

-- The two halves of a client event: the pointer that is read, if its highest bit is not set, and the
-- reference that is taken for `on_read`.
pub read_slot : ℕ → List Slot → Bool
read_slot i slots = elim (get_elem? slots i) [
  | some (busy c) ↦ true
  | some free ↦ false
  | none ↦ false
]

abbrev pub dispatched : ℕ → Client → Slot
dispatched now c = busy (was_active now (take c))

-- A round of the sentinel.
pub sentinel : ℕ → ℕ → List Slot → List Slot
sentinel now i slots = elim (get_elem? slots i) [
  | some (busy c) ↦ let freed = put i free slots in if ends now c then freed else slots
  | some free ↦ slots
  | none ↦ slots
]
