-- ===== src/Session/Tests.antt =====
-- A concrete session, and the theorem at it.
use rite.Prelude.{ℕ, List, Bool, ◌≡◌, refl, [], ◌∷◌, ◌++◌, true, arith}
use rite.Text.{codes}
use rite.Outcome.{ok}
use rite.Http.Stream.{until, getline}
use rite.Http.Request.{set_header, header, text_lt}
use rite.Session.{SessionHandle, Files, open_session, load, read_entry, entry_value, save}
use rite.Session.Persistence.{IsEntry, open-save}

abbrev cart : SessionHandle
cart = record { id = codes "s1"; values = (codes "a", codes "1") ∷ (codes "b", []) ∷ [] }

abbrev no_files : Files
no_files = []

-- A directory where every identifier names a file of its own that can be written.
abbrev file_of : List ℕ → List ℕ
file_of id = codes "/tmp/_rite/" ++ id

abbrev can_write : List ℕ → Bool
can_write path = true

abbrev a_1-IsEntry : IsEntry (codes "a", codes "1")
a_1-IsEntry = record {
  key_equals = (omega arith, tt);
  key_line = (omega arith, tt);
  value_equals = (omega arith, tt);
  value_line = (omega arith, tt);
}

abbrev b-IsEntry : IsEntry (codes "b", [])
b-IsEntry = record {
  key_equals = (omega arith, tt);
  key_line = (omega arith, tt);
  value_equals = tt;
  value_line = tt;
}

a_before_b : text_lt (codes "a") (codes "b") ≡ true
unfolding text_lt
a_before_b = refl

-- A line without `=` takes the value of the line before.
stale_run :
    open_session file_of can_write
      (codes "s1")
      ((codes "/tmp/_rite/s1", codes "a=1" ++ (10 ∷ codes "b")) ∷ [])
    ≡ ok (record { id = codes "s1"; values = (codes "a", codes "1") ∷ (codes "b", codes "1") ∷ [] })
unfolding open_session load read_entry entry_value set_header header text_lt until getline
stale_run = refl

open-save_example :
    (open_session file_of can_write (codes "s1") (save file_of can_write cart no_files) ≡ ok cart)
    × (open_session file_of can_write (codes "s2") (save file_of can_write cart no_files)
        ≡ open_session file_of can_write (codes "s2") no_files)
open-save_example =
    open-save file_of can_write cart (codes "s2") no_files refl (a_1-IsEntry, (b-IsEntry, tt))
      ((a_before_b, tt), (tt, tt)) refl
