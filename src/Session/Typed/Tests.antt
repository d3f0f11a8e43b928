-- ===== src/Session/Typed/Tests.antt =====
-- A number in a session.
use rite.Prelude.{ℕ, Bool, true, ◌+◌, ◌-◌, ◌≡◌, refl, List, [], ◌∷◌, All, arith}
use rite.Text.{codes}
use rite.Outcome.{ok}
use rite.Http.Request.{set_header}
use rite.Session.{Files}
use rite.Session.Persistence.{IsEntry, IsOrdered}
use rite.Session.Typed.{
  untreated, treated, value, cast_error, TypedValues, set_as, get_as, get_text, text_of, texts_of,
  save_as, open_as,
}
use rite.Session.Typed.Reopening.{get_as-save_as}

abbrev file_of : List ℕ → List ℕ
file_of id = id

abbrev can_write : List ℕ → Bool
can_write path = true

-- The values are numbers of one digit, whatever the type.
abbrev print_digit : ℕ → ℕ → List ℕ
print_digit type n = (48 + n) ∷ []

abbrev read_digit : ℕ → List ℕ → ℕ
read_digit type [] = 0
read_digit type (c ∷ text) = c - 48

abbrev empty_values : TypedValues ℕ
empty_values = []

abbrev empty_files : Files
empty_files = []

abbrev visits : TypedValues ℕ
visits = set_as file_of can_write print_digit read_digit (codes "a") (treated 1 3) empty_values

-- The same key with a std::string.
abbrev named : TypedValues ℕ
named =
    set_as file_of can_write print_digit read_digit (codes "a") (untreated (codes "7")) empty_values

visits-IsEntry : All IsEntry (texts_of file_of can_write print_digit read_digit visits)
unfolding set_as set_header text_of
visits-IsEntry = (
  record {
    key_equals = (omega arith, tt);
    key_line = (omega arith, tt);
    value_equals = (omega arith, tt);
    value_line = (omega arith, tt);
  },
  tt,
)

visits-IsOrdered : IsOrdered (texts_of file_of can_write print_digit read_digit visits)
unfolding set_as set_header text_of
visits-IsOrdered = (tt, tt)

get_as-save_as_example :
    (again : TypedValues ℕ) × (later : TypedValues ℕ) × (get_as file_of can_write print_digit
        read_digit 1
        (codes "a")
        visits
      ≡ (visits, value 3))
    × (get_as file_of can_write print_digit read_digit 2 (codes "a") visits ≡ (visits, cast_error))
    × (open_as file_of can_write print_digit read_digit
          (codes "s1")
          (save_as file_of can_write print_digit read_digit (codes "s1") visits empty_files)
        ≡ ok again)
    × (get_as file_of can_write print_digit read_digit 1 (codes "a") again ≡ (later, value 3))
    × (get_as file_of can_write print_digit read_digit 1 (codes "a") later ≡ (later, value 3))
    × (get_text file_of can_write print_digit read_digit (codes "a") visits ≡ cast_error)
    × (get_text file_of can_write print_digit read_digit (codes "a") again ≡ value (codes "3"))
    × (get_text file_of can_write print_digit read_digit (codes "a") named ≡ value (codes "7"))
    × (get_as file_of can_write print_digit read_digit 1 (codes "a") named ≡ (
      set_as file_of can_write print_digit read_digit (codes "a") (treated 1 7) named,
      value 7,
    ))
get_as-save_as_example =
    get_as-save_as file_of can_write print_digit read_digit (codes "s1") (codes "a") 1 2 3
      empty_values empty_files (codes "7") refl refl visits-IsEntry visits-IsOrdered
