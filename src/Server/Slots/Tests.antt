-- ===== src/Server/Slots/Tests.antt =====
-- A short run of the server, and the theorems at it.
use rite.Prelude.{◌≡◌, refl, [], ◌∷◌, true, none, some, get_elem?}
use rite.Server.Slots.{Client, connected, close, free, busy, next_free, accept, read_slot}
use rite.Server.Slots.Lifetime.{
  System, started, accepted, looked, started_read, shut, Steps, done, next,
}
use rite.Server.Slots.Reclaiming.{looked-freed}

abbrev client : Client
client = record (connected 0) { taken = 1 }

-- Two slots, of which the first one holds a connection with a reference.
abbrev reading : System
reading = record { now = 0; slots = busy client ∷ free ∷ []; pending = none }

abbrev shutting : System
shutting = record reading { slots = busy (close client) ∷ free ∷ [] }

shutting_run : Steps (started 2) shutting
unfolding accept next_free read_slot
shutting_run = next (accepted refl) (
    next (looked 0 refl refl)
      (next (started_read 0 (connected 0) refl refl) (next (shut 0 client refl) done)))

abbrev closed_client : Client
closed_client = record client { released = 1; closed = true }

abbrev unheld : System
unheld = record reading { slots = busy closed_client ∷ free ∷ [] }

looked-freed_example :
    (t : System) × Steps unheld t × (t.pending ≡ some 0) × (get_elem? t.slots 0 ≡ some free)
looked-freed_example = looked-freed unheld 0 closed_client refl refl refl
