-- ===== src/Session/Persistence.antt =====
-- A session that is saved and opened again.
use rite.Prelude.{
  ℕ, zero, suc, ◌≤◌, ◌<◌, ◌≡◌, ◌≢◌, inl, inr, refl, sym, ap, ◌∙◌, List, [], ◌∷◌, ◌++◌, arith, All,
  All-append, if◌then◌else◌, Bool, true, false, some, none, length, length-append, append_assoc,
  append-nil, bytes_eq, bytes_eq_refl, bytes_eq→eq, Bool-cases,
}
use rite.Outcome.{ok, ◌>>=◌}
use rite.Http.Stream.{getline}
use rite.Http.Stream.Lines.{until-stop, until_whole, getline-here}
use rite.Http.Request.{header, set_header, text_lt}
use rite.Http.Request.Headers.{header-set_header}
use rite.Http.Request.Order.{Below, set_header_last}
use rite.Session.{
  Values, Files, SessionHandle, entry_value, read_entry, load, open_session, remove, entries,
  write_values, save,
}

abbrev pub Entry : Type 0
Entry = List ℕ × List ℕ

-- No `=` and no line feed in a key or a value.
pub record IsEntry (kv : Entry) : Type 0 where
  pub key_equals : All (λ c. c ≢ b'=') kv.0
  pub key_line : All (λ c. c ≢ 10) kv.0
  pub value_equals : All (λ c. c ≢ b'=') kv.1
  pub value_line : All (λ c. c ≢ 10) kv.1

abbrev Above : List ℕ → Values → Type 0
Above key kvs = All (λ kv. text_lt key kv.0 ≡ true) kvs

-- A std::map has its keys in increasing order.
abbrev pub IsOrdered : Values → Type 0
IsOrdered [] = Unit {0}
IsOrdered (kv ∷ kvs) = Above kv.0 kvs × IsOrdered kvs

abbrev line : Entry → List ℕ
line (key, value) = key ++ (b'=' ∷ value)

entries-line : (kv : Entry) (kvs : Values) → entries (kv ∷ kvs) ≡ line kv ++ (10 ∷ entries kvs)
unfolding entries
entries-line (k, v) kvs = sym (append_assoc k (b'=' ∷ v) (10 ∷ entries kvs))

line-All : (kv : Entry) → IsEntry kv → All (λ c. c ≢ 10) (line kv)
line-All (k, v) h = All-append (λ c. c ≢ 10) k (b'=' ∷ v) h.key_line (omega arith, h.value_line)

read_entry-line : (kv : Entry) (stale : List ℕ) → IsEntry kv → read_entry (line kv) stale ≡ kv
unfolding read_entry entry_value
read_entry-line (k, v) stale h =
    rw (until-stop b'=' k v h.key_equals) (rw (until_whole b'=' v h.value_equals, entry_value) refl)

load_step :
    (fuel : ℕ) (text rest stale : List ℕ) (kv : Entry) (values : Values)
    → IsEntry kv
    → getline 10 text ≡ some (line kv, rest)
    → load (suc fuel) text stale values ≡ load fuel rest kv.1 (set_header kv.0 kv.1 values)
unfolding load
load_step fuel text rest stale kv values h e =
    rw (e, load)
      (ap (λ c. load fuel rest c.1 (set_header c.0 c.1 values)) (read_entry-line kv stale h))

load-entries :
    (kvs values : Values) (fuel : ℕ) (stale : List ℕ)
    → All IsEntry kvs
    → IsOrdered kvs
    → All (λ kv. Below kv.0 values) kvs
    → length kvs < fuel
    → load fuel (entries kvs) stale values ≡ ok (values ++ kvs)
load-entries kvs values zero stale h ordered below enough = absurd (omega (arith, enough))
load-entries [] values (suc fuel) stale h ordered below enough =
    unfold load entries getline in ap (λ l. ok l) (sym (append-nil values))
load-entries (kv ∷ kvs) values (suc fuel) stale (h, hs) (above, ordered) (below, belows) enough =
    ap (λ l. load (suc fuel) l stale values) (entries-line kv kvs)
    ∙ load_step fuel (line kv ++ (10 ∷ entries kvs)) (entries kvs) stale kv values h
        (getline-here 10 (line kv) (entries kvs) (line-All kv h))
    ∙ ap (load fuel (entries kvs) kv.1) (set_header_last kv.0 kv.1 values below)
    ∙ load-entries kvs (values ++ (kv ∷ [])) fuel kv.1 hs ordered (rises kv kvs values above belows)
        (omega (arith, enough))
    ∙ ap (λ l. ok l) (append_assoc values (kv ∷ []) kvs)
  where
    rises :
        (kv : Entry) (kvs values : Values)
        → Above kv.0 kvs
        → All (λ k. Below k.0 values) kvs
        → All (λ k. Below k.0 (values ++ (kv ∷ []))) kvs
    rises kv [] values a b = tt
    rises kv (k ∷ kvs) values (a, above) (b, bs) = (
      All-append (λ x. text_lt x.0 k.0 ≡ true) values (kv ∷ []) b (a, tt),
      rises kv kvs values above bs,
    )

entries_enough : (kvs : Values) → length kvs ≤ length (entries kvs)
unfolding entries
entries_enough [] = omega arith
entries_enough ((k, v) ∷ kvs) = omega (
  arith,
  length-append k (b'=' ∷ (v ++ (10 ∷ entries kvs))),
  length-append v (10 ∷ entries kvs),
  entries_enough kvs,
)

header-remove : (name : List ℕ) (files : Files) → header name (remove name files) ≡ none
unfolding remove header
header-remove name [] = refl
header-remove name ((n, text) ∷ files) = elim (Bool-cases (bytes_eq n name)) [
  | inl e ↦ rw e (header-remove name files)
  | inr e ↦ rw e (rw (e, header) (header-remove name files))
]

header-remove_other :
    (name other : List ℕ) (files : Files)
    → bytes_eq name other ≡ false
    → header other (remove name files) ≡ header other files
unfolding remove header
header-remove_other name other [] differ = refl
header-remove_other name other ((n, text) ∷ files) differ = elim (Bool-cases (bytes_eq n name)) [
  | inl e ↦
      let same = bytes_eq→eq n name e in
      rw e (rw (same, differ) (header-remove_other name other files differ))
  | inr e ↦ rw e (elim (Bool-cases (bytes_eq n other)) [
    | inl o ↦ rw o refl
    | inr o ↦ rw o (header-remove_other name other files differ)
  ])
]

write_if-header :
    (may : Bool) (path other text : List ℕ) (files : Files)
    → bytes_eq path other ≡ false
    → header other (if may then set_header path text files else files) ≡ header other files
write_if-header true path other text files differ =
    header-set_header path text other files ∙ rw differ refl
write_if-header false path other text files differ = refl

nothing-Below : (kvs : Values) → All (λ kv. Below kv.0 []) kvs
nothing-Below [] = tt
nothing-Below (kv ∷ kvs) = (tt, nothing-Below kvs)

module _ (file_of : List ℕ → List ℕ) (can_write : List ℕ → Bool) where
  write_values-header :
      (id other : List ℕ) (kvs : Values) (files : Files)
      → bytes_eq (file_of id) (file_of other) ≡ false
      → header (file_of other) (write_values file_of can_write id kvs files)
        ≡ header (file_of other) files
  unfolding write_values
  write_values-header id other [] files differ =
      header-remove_other (file_of id) (file_of other) files differ
  write_values-header id other (kv ∷ kvs) files differ =
      write_if-header (can_write (file_of id)) (file_of id) (file_of other) (entries (kv ∷ kvs))
        files differ

  pub open-write_values :
      (id : List ℕ) (kvs : Values) (files : Files)
      → can_write (file_of id) ≡ true
      → All IsEntry kvs
      → IsOrdered kvs
      → open_session file_of can_write id (write_values file_of can_write id kvs files)
        ≡ ok (record { id = id; values = kvs })
  unfolding open_session write_values
  open-write_values id [] files opens h ordered =
      rw (header-remove (file_of id) files, open_session) refl
  open-write_values id (kv ∷ kvs) files opens h ordered =
      let text = entries (kv ∷ kvs) in
      let path = file_of id in
      let here : header path (set_header path text files) ≡ some text =
        header-set_header path text path files ∙ rw (bytes_eq_refl path) refl in
      rw opens (
        rw (here, open_session)
          (ap (λ o. o >>= λ values. ok (record { id = id; values = values }))
            (load-entries (kv ∷ kvs) [] (suc (length text)) [] h ordered (nothing-Below (kv ∷ kvs))
              (omega (arith, entries_enough (kv ∷ kvs))))))

  -- A session that is saved and opened again has the values that it had, also when it has none and its
  -- file is deleted, and a session with another file is opened as before. The file of the session can
  -- be written; the keys are in order, as those of a std::map are, and keys and values have no `=` and
  -- no line feed.
  pub open-save :
      (h : SessionHandle) (other : List ℕ) (files : Files)
      → can_write (file_of h.id) ≡ true
      → All IsEntry h.values
      → IsOrdered h.values
      → bytes_eq (file_of h.id) (file_of other) ≡ false
      → (open_session file_of can_write h.id (save file_of can_write h files) ≡ ok h)
        × (open_session file_of can_write other (save file_of can_write h files)
            ≡ open_session file_of can_write other files)
  unfolding open_session
  open-save h other files opens fit ordered differ = (
    open-write_values h.id h.values files opens fit ordered,
    rw (write_values-header h.id other h.values files differ, open_session) refl,
  )
