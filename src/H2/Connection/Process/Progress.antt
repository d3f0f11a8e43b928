-- ===== src/H2/Connection/Process/Progress.antt =====
-- How far a call of `process` moves, and what it leaves of an unfinished frame.
use rite.Prelude.{
  ℕ, ◌-◌, ◌≤◌, ◌<◌, ◌≡◌, sym, ap, inl, inr, List, ◌∷◌, ◌++◌, arith, not, ◌==◌, ltb, ltb→lt, Option,
  none, some, bytes_eq, ltb_false→le, when, subst, length, take, drop, min, length-drop,
  Option-cases, ◌%◌,
}
use rite.Outcome.{ok, throws, FrameState}
use rite.H2.Frame.{Frame, unpack, empty_frame, type_settings, max_frame_size}
use rite.H2.Connection.{
  ConnectionState, client_preface, wait_client_settings, idle, opened, rsv_local, hc_remote,
  Connection, ReadFrame, got, unexpected, fill, read_header, read_frame, write_frame, terminate,
}
use rite.H2.Connection.Process.{
  Step, process_preface, first_settings, settings_read, process_settings, on_frame, frame_read,
  process_frame, process_state, process, client_preface_text,
}
use rite.H2.Connection.Process.Passing.{Passes, on_frame-Passes}

-- An unfinished frame lacks bytes.
abbrev pub Partial : Option Frame → Type 0
Partial none = Unit {0}
Partial (some g) = length g.payload < g.length

abbrev pub IsPartial : Connection → Type 0
IsPartial c = Partial c.unfinished_frame

-- What a step leaves: an unfinished frame that lacks bytes, and fewer than `n` bytes if it returns.
abbrev pub Moves : ℕ → Step → Type 0
Moves n (c, (rest, ok r)) = IsPartial c × (length rest < n)
Moves n (c, (rest, throws e)) = IsPartial c

abbrev ReadMoves : ℕ → Connection × ReadFrame → Type 0
ReadMoves n (c, got f rest) = IsPartial c × (length rest < n)
ReadMoves n (c, unexpected FrameState.insufficient_data rest) = IsPartial c × (length rest < n)
ReadMoves n (c, unexpected FrameState.invalid rest) = IsPartial c
ReadMoves n (c, unexpected FrameState.too_big rest) = IsPartial c

Passes-Moves :
    (n : ℕ) (u : Option Frame) (rest : List ℕ) (step : Step)
    → Passes u rest step
    → Partial u
    → length rest < n
    → Moves n step
Passes-Moves n u rest (c, (r, ok x)) (e, e') p h =
    (subst Partial (sym e) p, omega (arith, ap length e', h))
Passes-Moves n u rest (c, (r, throws x)) (e, e') p h = subst Partial (sym e) p

fill-ReadMoves :
    (n : ℕ) (g : Frame) (bytes : List ℕ) (c : Connection)
    → length (drop (min (length bytes) (g.length - length g.payload)) bytes) < n
    → ReadMoves n (fill g bytes c)
unfolding fill
fill-ReadMoves n g bytes c h =
    let taken = min (length bytes) (g.length - length g.payload) in
    let all = g.payload ++ take taken bytes in
    when (ReadMoves n) (ltb (length all) g.length) _ _ (λ e. (ltb→lt (length all) g.length e, h))
      (λ e. (tt, h))

left-header :
    (bytes : List ℕ) (k : ℕ)
    → 9 ≤ length bytes
    → length (drop (min (length (drop 9 bytes)) k) (drop 9 bytes)) < length bytes
left-header bytes k long =
    omega (arith, length-drop 9 bytes, length-drop (min (length (drop 9 bytes)) k) (drop 9 bytes))

left_fill :
    (b : ℕ) (bytes : List ℕ) (k : ℕ)
    → 0 < k
    → length (drop (min (length (b ∷ bytes)) k) (b ∷ bytes)) < length (b ∷ bytes)
left_fill b bytes k h = omega (arith, length-drop (min (length (b ∷ bytes)) k) (b ∷ bytes))

read_header-ReadMoves :
    (bytes : List ℕ) (c : Connection)
    → c.unfinished_frame ≡ none
    → ReadMoves (length bytes) (read_header bytes c)
unfolding read_header
read_header-ReadMoves bytes c fresh =
    let stays : IsPartial c = subst Partial (sym fresh) tt in
    let u = unpack empty_frame (take 9 bytes) in
    let P = ReadMoves (length bytes) in
    when P (ltb (length bytes) 9) _ _ (λ e. stays)
      (λ long.
        when P (not u.0) _ _ (λ e. stays)
          (λ fits.
            when P (ltb max_frame_size u.1.length) _ _ (λ e. stays)
              (λ e. fill-ReadMoves (length bytes) u.1 (drop 9 bytes) c (
                left-header bytes (u.1.length - length u.1.payload)
                  (ltb_false→le (length bytes) 9 long)))))

read_frame-ReadMoves :
    (b : ℕ) (bytes : List ℕ) (c : Connection)
    → IsPartial c
    → ReadMoves (length (b ∷ bytes)) (read_frame (b ∷ bytes) c)
unfolding read_frame
read_frame-ReadMoves b bytes c p = elim (Option-cases c.unfinished_frame) [
  | inl e ↦ rw (e, read_frame) (read_header-ReadMoves (b ∷ bytes) c e)
  | inr (g, e) ↦
      let lacks : length g.payload < g.length = subst Partial e p in
      rw (e, read_frame)
        (fill-ReadMoves (length (b ∷ bytes)) g (b ∷ bytes) c
          (left_fill b bytes (g.length - length g.payload) (omega arith)))
]

first_settings-Moves :
    (n : ℕ) (f : Frame) (rest : List ℕ) (c : Connection)
    → IsPartial c
    → length rest < n
    → Moves n (first_settings f rest c)
unfolding first_settings terminate write_frame
first_settings-Moves n f rest c p h =
    when (Moves n) (not (f.type == type_settings)) _ _ (λ e. p)
      (λ e. when (Moves n) (not (f.length % 6 == 0)) _ _ (λ e'. (p, h)) (λ e'. (p, h)))

settings_read-Moves :
    (n : ℕ) (c : Connection) (r : ReadFrame) → ReadMoves n (c, r) → Moves n (settings_read c r)
unfolding settings_read
settings_read-Moves n c (got f rest) (p, h) = first_settings-Moves n f rest c p h
settings_read-Moves n c (unexpected FrameState.insufficient_data rest) m = m
settings_read-Moves n c (unexpected FrameState.invalid rest) m = m
settings_read-Moves n c (unexpected FrameState.too_big rest) m = m

module _ (scan_hex : List ℕ → Option ℕ) where
  frame_read-Moves :
      (n : ℕ) (c : Connection) (r : ReadFrame)
      → ReadMoves n (c, r)
      → Moves n (frame_read scan_hex c r)
  unfolding frame_read terminate
  frame_read-Moves n c (got f rest) (p, h) =
      Passes-Moves n c.unfinished_frame rest (on_frame scan_hex f rest c)
        (on_frame-Passes scan_hex f rest c) p h
  frame_read-Moves n c (unexpected FrameState.insufficient_data rest) m = m
  frame_read-Moves n c (unexpected FrameState.invalid rest) m = m
  frame_read-Moves n c (unexpected FrameState.too_big rest) m = m

  process_state-Moves :
      (st : ConnectionState) (b : ℕ) (bytes : List ℕ) (c : Connection)
      → IsPartial c
      → Moves (length (b ∷ bytes)) (process_state scan_hex st (b ∷ bytes) c)
  unfolding process_state process_preface process_settings process_frame
  process_state-Moves client_preface b bytes c p =
      when (Moves (length (b ∷ bytes))) (bytes_eq (take 24 (b ∷ bytes)) client_preface_text) _ _
        (λ e. (p, omega (arith, length-drop 23 bytes))) (λ e. p)
  process_state-Moves wait_client_settings b bytes c p =
      settings_read-Moves (length (b ∷ bytes)) (read_frame (b ∷ bytes) c).0
        (read_frame (b ∷ bytes) c).1 (read_frame-ReadMoves b bytes c p)
  process_state-Moves idle b bytes c p =
      frame_read-Moves (length (b ∷ bytes)) (read_frame (b ∷ bytes) c).0
        (read_frame (b ∷ bytes) c).1 (read_frame-ReadMoves b bytes c p)
  process_state-Moves opened b bytes c p = p
  process_state-Moves rsv_local b bytes c p = p
  process_state-Moves hc_remote b bytes c p = p

  -- A call of `process` in which some bytes are left makes progress, whatever they are and whatever
  -- the state of the connection is: if the unfinished frame, where there is one, lacks bytes, then
  -- the call leaves an unfinished frame that lacks bytes or none, and if it returns, fewer bytes
  -- are left than before.
  pub process-Moves :
      (b : ℕ) (bytes : List ℕ) (c : Connection)
      → IsPartial c
      → Moves (length (b ∷ bytes)) (process scan_hex (b ∷ bytes) c)
  unfolding process
  process-Moves b bytes c p = process_state-Moves c.state b bytes c p
