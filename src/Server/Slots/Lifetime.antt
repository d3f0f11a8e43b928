-- ===== src/Server/Slots/Lifetime.antt =====
-- The event loop, the sentinels and the other threads, step by step. The loop reads the pointer of a
-- client event and takes the reference in two steps, between which the others may run. `take`,
-- `release` and `close` ask for nothing, so that a thread may release more references than it took,
-- and close a connection after it has given back its own.
use rite.Prelude.{ℕ, ◌+◌, ◌≡◌, List, true, Option, none, some, get_elem?}
use rite.Server.Slots.{
  Client, connected, take, release, close, Slot, busy, initial, put, accept, read_slot, dispatched,
  sentinel,
}

-- `pending` is the slot whose pointer the event loop has read.
pub record System : Type 0 where
  pub now : ℕ
  pub slots : List Slot
  pub pending : Option ℕ

abbrev pub started : ℕ → System
started max = record { now = 0; slots = initial max; pending = none }

pub data Step : System → System → Type 0 where
  tick : {s : System} → Step s (record s { now = s.now + 1 })
  accepted :
      {s : System}
      → s.pending ≡ none
      → Step s (record s { slots = accept (connected s.now) s.slots })
  looked :
      {s : System} (i : ℕ)
      → s.pending ≡ none
      → read_slot i s.slots ≡ true
      → Step s (record s { pending = some i })
  started_read :
      {s : System} (i : ℕ) (c : Client)
      → s.pending ≡ some i
      → get_elem? s.slots i ≡ some (busy c)
      → Step s (record s { slots = put i (dispatched s.now c) s.slots; pending = none })
  took :
      {s : System} (i : ℕ) (c : Client)
      → get_elem? s.slots i ≡ some (busy c)
      → Step s (record s { slots = put i (busy (take c)) s.slots })
  gave_back :
      {s : System} (i : ℕ) (c : Client)
      → get_elem? s.slots i ≡ some (busy c)
      → Step s (record s { slots = put i (busy (release c)) s.slots })
  shut :
      {s : System} (i : ℕ) (c : Client)
      → get_elem? s.slots i ≡ some (busy c)
      → Step s (record s { slots = put i (busy (close c)) s.slots })
  checked : {s : System} (i : ℕ) → Step s (record s { slots = sentinel s.now i s.slots })

pub data Steps : System → System → Type 0 where
  done : {s : System} → Steps s s
  next : {s t u : System} → Step s t → Steps t u → Steps s u
