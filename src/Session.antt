-- ===== src/Session.antt =====
-- The sessions of modules/session: `session_handle` keeps the values of a session in a file that is
-- named by its identifier, and the extension `session` gives each request one. A value is the text
-- that its serializer gives, which is the one that was loaded until `set` replaces it; in
-- Session/Typed a value has its type. The files are an association list from paths to contents;
-- `file_of` is `SESSION_DIRECTORY / id`, as the file system resolves it, and `can_write` says whether a
-- std::ofstream opens a path: one that does not open writes nothing, and its failure is not looked at.
pub mod Persistence
pub mod Typed
mod Tests
use rite.Prelude.{
  ℕ, zero, suc, List, [], ◌∷◌, ◌++◌, Bool, Option, none, some, bytes_eq, if◌then◌else◌, length,
}
use rite.Text.{codes}
use rite.Outcome.{Outcome, ok, throws, stuck, ◌>>=◌}
use rite.Http.Stream.{until, getline}
use rite.Http.Request.{HttpRequest, header, set_header}
use rite.Http.Response.{HttpResponse, put_header}
use rite.Http.Cookies.{Jar, cookie_jar, has}

abbrev pub Values : Type 0
Values = List (List ℕ × List ℕ)

abbrev pub Files : Type 0
Files = List (List ℕ × List ℕ)

pub record SessionHandle : Type 0 where
  pub id : List ℕ
  pub values : Values

-- The second getline of an entry fails when the line has no `=`, and leaves the value of the line
-- before.
unfoldable pub entry_value : List ℕ → List ℕ → List ℕ
unfolding until
entry_value [] stale = stale
entry_value (equals ∷ behind) stale = (until b'=' behind).0

unfoldable pub read_entry : List ℕ → List ℕ → List ℕ × List ℕ
unfolding until entry_value
read_entry line stale = let (key, behind) = until b'=' line in (key, entry_value behind stale)

-- The loop over the lines of a file.
unfoldable pub load : ℕ → List ℕ → List ℕ → Values → Outcome Values
unfolding getline read_entry set_header
load zero text stale values = throws stuck
load (suc fuel) text stale values = elim (getline 10 text) [
  | none ↦ ok values
  | some (line, rest) ↦
      let (key, value) = read_entry line stale in load fuel rest value (set_header key value values)
]

unfoldable pub remove : List ℕ → Files → Files
remove name [] = []
remove name ((n, text) ∷ files) =
    let rest = remove name files in if bytes_eq n name then rest else (n, text) ∷ rest

unfoldable pub entries : Values → List ℕ
entries [] = []
entries ((key, value) ∷ values) = key ++ (b'=' ∷ (value ++ (10 ∷ entries values)))

abbrev pub set_value : List ℕ → List ℕ → SessionHandle → SessionHandle
set_value key text h = record h { values = set_header key text h.values }

abbrev pub get_value : List ℕ → SessionHandle → Option (List ℕ)
get_value key h = header key h.values

abbrev pub session_cookie : List ℕ
session_cookie = codes "SESSID"

module _ (file_of : List ℕ → List ℕ) (can_write : List ℕ → Bool) where
  -- The constructor.
  unfoldable pub open_session : List ℕ → Files → Outcome SessionHandle
  unfolding header load
  open_session id files = elim (header (file_of id) files) [
    | none ↦ ok (record { id = id; values = [] })
    | some text ↦
        load (suc (length text)) text [] [] >>= λ values. ok (record { id = id; values = values })
  ]

  unfoldable pub write_values : List ℕ → Values → Files → Files
  unfolding remove set_header entries
  write_values id [] files = remove (file_of id) files
  write_values id (kv ∷ kvs) files =
      if can_write (file_of id) then set_header (file_of id) (entries (kv ∷ kvs)) files else files

  -- `save()`, which the destructor calls.
  abbrev pub save : SessionHandle → Files → Files
  save h files = write_values h.id h.values files

  -- `on_request`: the session of the cookie, or a new one. `value_or` makes the new identifier either way.
  pub on_request : HttpRequest → (new_id : List ℕ) → Files → Outcome SessionHandle
  unfolding cookie_jar open_session header
  on_request req new_id files = cookie_jar req >>= λ jar. elim (header session_cookie jar) [
    | some id ↦ open_session id files
    | none ↦ open_session new_id files
  ]

pub pre_send : HttpRequest → SessionHandle → HttpResponse → Outcome HttpResponse
unfolding cookie_jar has
pre_send req h r = cookie_jar req >>= λ jar. ok (
    if has session_cookie jar
    then r
    else put_header (codes "Set-Cookie") (session_cookie ++ (b'=' ∷ h.id)) r)
