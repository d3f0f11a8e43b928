-- ===== src/Session/Typed.antt =====
-- `set<T>` and `get<T>` of modules/session/include/rite/session.hpp. A std::string in a std::any is what
-- `untreated` is, so that `set<std::string>` leaves an untreated value, and `get_text` is
-- `get<std::string>`. `V` has the values of all other types; a type is a number, its `typeid`.
-- `print_value` is `std::ostream <<` and `read_value` is `std::istream >>` of a type, which
-- pluggable<T> calls.
pub mod Reopening
mod Tests
use rite.Prelude.{ℕ, List, [], ◌∷◌, Option, none, some, Bool, ◌==◌, if◌then◌else◌, map}
use rite.Outcome.{Outcome, ok, ◌>>=◌}
use rite.Http.Request.{header, set_header}
use rite.Session.{Values, Files, open_session, write_values}

-- What a std::any of a value holds, with the serializer that goes with it.
pub data AnyValue (V : Type 0) : Type 0 where
  untreated : List ℕ → AnyValue V
  treated : (type : ℕ) → V → AnyValue V

pub data Got (V : Type 0) : Type 0 where
  value : V → Got V
  cast_error not_found : Got V

abbrev pub TypedValues : Type 0 → Type 0
TypedValues V = List (List ℕ × AnyValue V)

module _ {V : Type 0} (file_of : List ℕ → List ℕ) (can_write : List ℕ → Bool)
    (print_value : ℕ → V → List ℕ) (read_value : ℕ → List ℕ → V) where
  unfoldable pub set_as : List ℕ → AnyValue V → TypedValues V → TypedValues V
  unfolding set_header
  set_as key a values = set_header key a values

  -- The first cast and, where it fails, the one to `untreated`.
  unfoldable pub cast_as : ℕ → List ℕ → TypedValues V → Option (AnyValue V) → TypedValues V × Got V
  unfolding set_header
  cast_as type key values none = (values, not_found)
  cast_as type key values (some (treated t v)) = (values, if t == type then value v else cast_error)
  cast_as type key values (some (untreated text)) =
      (set_header key (treated type (read_value type text)) values, value (read_value type text))

  unfoldable pub get_as : ℕ → List ℕ → TypedValues V → TypedValues V × Got V
  unfolding cast_as header
  get_as type key values = cast_as type key values (header key values)

  unfoldable pub cast_text : Option (AnyValue V) → Got (List ℕ)
  cast_text none = not_found
  cast_text (some (treated t v)) = cast_error
  cast_text (some (untreated text)) = value text

  unfoldable pub get_text : List ℕ → TypedValues V → Got (List ℕ)
  unfolding cast_text header
  get_text key values = cast_text (header key values)

  -- The serializers.
  unfoldable pub text_of : AnyValue V → List ℕ
  text_of (untreated text) = text
  text_of (treated t v) = print_value t v

  abbrev pub texts_of : TypedValues V → Values
  texts_of values = map (λ kv. (kv.0, text_of kv.1)) values

  abbrev pub loaded : Values → TypedValues V
  loaded values = map (λ kv. (kv.0, untreated kv.1)) values

  -- `save`, and the constructor.
  unfoldable pub save_as : List ℕ → TypedValues V → Files → Files
  unfolding text_of write_values
  save_as id values files = write_values file_of can_write id (texts_of values) files

  unfoldable pub open_as : List ℕ → Files → Outcome (TypedValues V)
  unfolding open_session
  open_as id files = open_session file_of can_write id files >>= λ h. ok (loaded h.values)
