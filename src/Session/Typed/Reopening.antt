-- ===== src/Session/Typed/Reopening.antt =====
-- Values of a session with a type, before and after the session is saved.
use rite.Prelude.{
  ℕ, ◌≡◌, refl, ap, ◌∙◌, List, [], ◌∷◌, All, false, Option, none, some, Bool, true, ◌==◌, ==_iff,
  bytes_eq, bytes_eq_refl, Bool-cases, inl, inr,
}
use rite.Outcome.{ok, ◌>>=◌}
use rite.Http.Request.{header, set_header, text_lt}
use rite.Http.Request.Headers.{header-set_header}
use rite.Session.{Values, Files}
use rite.Session.Persistence.{IsEntry, IsOrdered, open-write_values}
use rite.Session.Typed.{
  AnyValue, untreated, treated, value, cast_error, TypedValues, set_as, cast_as, get_as, cast_text,
  get_text, text_of, texts_of, loaded, save_as, open_as,
}

module _ {V : Type 0} (file_of : List ℕ → List ℕ) (can_write : List ℕ → Bool)
    (print_value : ℕ → V → List ℕ) (read_value : ℕ → List ℕ → V) where
  abbrev texts : TypedValues V → Values
  texts = texts_of file_of can_write print_value read_value

  texts-set_header :
      (key : List ℕ) (a : AnyValue V) (values : TypedValues V)
      → texts (set_header key a values)
        ≡ set_header key (text_of file_of can_write print_value read_value a) (texts values)
  unfolding set_header
  texts-set_header key a [] = refl
  texts-set_header key a ((k, b) ∷ rest) = elim (Bool-cases (bytes_eq k key)) [
    | inl e ↦ rw e refl
    | inr e ↦ rw e (elim (Bool-cases (text_lt key k)) [
      | inl t ↦ rw t refl
      | inr t ↦ rw t (
          ap (λ l. (k, text_of file_of can_write print_value read_value b) ∷ l)
            (texts-set_header key a rest))
    ])
  ]

  abbrev as_loaded : Option (List ℕ) → Option (AnyValue V)
  as_loaded none = none
  as_loaded (some text) = some (untreated text)

  header-loaded :
      (key : List ℕ) (values : Values)
      → header key (loaded file_of can_write print_value read_value values)
        ≡ as_loaded (header key values)
  unfolding header
  header-loaded key [] = refl
  header-loaded key ((k, text) ∷ rest) = elim (Bool-cases (bytes_eq k key)) [
    | inl e ↦ rw e refl
    | inr e ↦ rw e (header-loaded key rest)
  ]

  header-set_same :
      {A : Type 0} (key : List ℕ) (a : A) (values : List (List ℕ × A))
      → header key (set_header key a values) ≡ some a
  header-set_same key a values = header-set_header key a key values ∙ rw (bytes_eq_refl key) refl

  get_as-set_as :
      (type : ℕ) (key : List ℕ) (v : V) (values : TypedValues V)
      → get_as file_of can_write print_value read_value type key
          (set_as file_of can_write print_value read_value key (treated type v) values)
        ≡ (set_as file_of can_write print_value read_value key (treated type v) values, value v)
  unfolding get_as set_as cast_as
  get_as-set_as type key v values =
      let set = set_header key (treated type v) values in
      ap (cast_as file_of can_write print_value read_value type key set)
        (header-set_same key (treated type v) values)
      ∙ rw ((==_iff type type).1 refl) refl

  -- A value that is set with a type other than std::string is what `get` with this type gives, and a `get` with another type
  -- fails and changes nothing. When the session is saved and opened again, `get` with the type gives
  -- what reading the printed value gives, and from then on the value has the type: a second `get`
  -- gives the same and changes nothing. `get<std::string>` fails before the session is saved, and gives the
  -- printed text behind it. A std::string that is set is what `get<std::string>` gives, and `get` with
  -- another type reads it, and from then on the value has this type. The file of the session can be
  -- written; the keys are in order, as those of a std::map are, and keys
  -- and texts have no `=` and no line feed.
  pub get_as-save_as :
      (id key : List ℕ) (type other : ℕ) (v : V) (values : TypedValues V) (files : Files)
      (text : List ℕ)
      → can_write (file_of id) ≡ true
      → (type == other) ≡ false
      → All IsEntry
          (texts (set_as file_of can_write print_value read_value key (treated type v) values))
      → IsOrdered
          (texts (set_as file_of can_write print_value read_value key (treated type v) values))
      → let set = set_as file_of can_write print_value read_value key (treated type v) values in
        let told = set_as file_of can_write print_value read_value key (untreated text) values in
        let back = read_value type (print_value type v) in
        (again : TypedValues V) × (later : TypedValues V) × (get_as file_of can_write print_value
            read_value type key set
          ≡ (set, value v))
        × (get_as file_of can_write print_value read_value other key set ≡ (set, cast_error))
        × (open_as file_of can_write print_value read_value id
              (save_as file_of can_write print_value read_value id set files)
            ≡ ok again)
        × (get_as file_of can_write print_value read_value type key again ≡ (later, value back))
        × (get_as file_of can_write print_value read_value type key later ≡ (later, value back))
        × (get_text file_of can_write print_value read_value key set ≡ cast_error)
        × (get_text file_of can_write print_value read_value key again ≡ value (print_value type v))
        × (get_text file_of can_write print_value read_value key told ≡ value text)
        × (get_as file_of can_write print_value read_value type key told ≡ (
          set_as file_of can_write print_value read_value key
              (treated type (read_value type text))
              told,
          value (read_value type text),
        ))
  unfolding open_as save_as set_as get_as cast_as text_of get_text cast_text
  get_as-save_as id key type other v values files text opens differ fit ordered =
      let set = set_header key (treated type v) values in
      let again = loaded file_of can_write print_value read_value (texts set) in
      let back = read_value type (print_value type v) in
      let there : header key again ≡ some (untreated (print_value type v)) =
        header-loaded key (texts set)
        ∙ ap (λ l. as_loaded (header key l)) (texts-set_header key (treated type v) values)
        ∙ ap as_loaded (header-set_same key (print_value type v) (texts values)) in
      (
        again,
        set_header key (treated type back) again,
        get_as-set_as type key v values,
        ap (cast_as file_of can_write print_value read_value other key set)
              (header-set_same key (treated type v) values)
            ∙ rw differ refl,
        ap (λ o. o >>= λ h. ok (loaded file_of can_write print_value read_value h.values))
            (open-write_values file_of can_write id (texts set) files opens fit ordered),
        ap (cast_as file_of can_write print_value read_value type key again) there,
        get_as-set_as type key back again,
        ap (cast_text file_of can_write print_value read_value)
            (header-set_same key (treated type v) values),
        ap (cast_text file_of can_write print_value read_value) there,
        ap (cast_text file_of can_write print_value read_value)
            (header-set_same key (untreated text) values),
        ap
            (cast_as file_of can_write print_value read_value type key
              (set_header key (untreated text) values))
            (header-set_same key (untreated text) values),
      )
