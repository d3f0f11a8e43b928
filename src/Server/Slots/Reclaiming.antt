-- ===== src/Server/Slots/Reclaiming.antt =====
-- When the sentinel frees a slot.
use rite.Prelude.{ℕ, ◌≤◌, ◌≡◌, refl, List, true, none, some, get_elem?}
use rite.Server.Slots.{Client, ends, Slot, free, busy, read_slot, sentinel}
use rite.Server.Slots.Lists.{put-same}
use rite.Server.Slots.Lifetime.{System, looked, checked, Steps, done, next}

-- The connection in a slot is the one that was there: no reference that was taken or released is
-- forgotten, and it stays closed. A new connection has none taken.
abbrev pub Keeps : ℕ → Client → List Slot → Type 0
Keeps i c slots =
    (d : Client) × (get_elem? slots i ≡ some (busy d))
    × (c.taken ≤ d.taken)
    × (c.released ≤ d.released)
    × (c.keep_alive ≡ d.keep_alive)

freed :
    (s : System) (i : ℕ) (c : Client)
    → get_elem? s.slots i ≡ some (busy c)
    → ends s.now c ≡ true
    → get_elem? (sentinel s.now i s.slots) i ≡ some free
unfolding sentinel
freed s i c here e = rw (here, sentinel) (rw e (put-same i free (busy c) s.slots here))

-- The event loop reads the pointer of a connection before it takes its reference: from every state in which it
-- is not at an event and a sentinel would free a slot, the loop can come to hold the pointer of a
-- deleted connection.
pub looked-freed :
    (s : System) (i : ℕ) (c : Client)
    → s.pending ≡ none
    → get_elem? s.slots i ≡ some (busy c)
    → ends s.now c ≡ true
    → (t : System) × Steps s t × (t.pending ≡ some i) × (get_elem? t.slots i ≡ some free)
unfolding read_slot
looked-freed s i c waiting here e = (
  record s { slots = sentinel s.now i s.slots; pending = some i },
  next (looked i waiting (rw (here, read_slot) refl)) (next (checked i) done),
  refl,
  freed s i c here e,
)
