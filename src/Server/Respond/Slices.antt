-- ===== src/Server/Respond/Slices.antt =====
-- What a client makes of the DATA frames.
use rite.Prelude.{
  ℕ, zero, suc, ◌≤◌, ◌<◌, ◌≡◌, refl, sym, ap, ◌∙◌, inl, inr, List, [], ◌∷◌, ◌++◌, arith, All,
  All-append, Bool, true, false, ◌&&◌, leb, if◌then◌else◌, length, take, drop, min,
  take-append-drop, take_long, length-drop, length-take, dec_lt, append_assoc, Bool-cases,
}
use rite.H2.Frame.{Frame, type_data, data_end_stream}
use rite.H2.Headers.{has_flag}
use rite.Server.Respond.{Buffer, slice_limit, data_frame, slices, body_frames}

-- The independent description: a client that appends payloads up to the frame with END_STREAM.
pub receive : List Frame → List ℕ × Bool
receive [] = ([], false)
receive (f ∷ fs) =
    let (body, ended) = receive fs in
    if has_flag f.flags data_end_stream then (f.payload, true) else (f.payload ++ body, ended)

-- What the handler delivers, up to its last buffer, and whether that buffer has any bytes.
unfoldable pub delivered : List Buffer → List ℕ
delivered [] = []
delivered (b ∷ bs) = let rest = delivered bs in if b.last then b.bytes else b.bytes ++ rest

abbrev pub filled : List ℕ → Bool
filled [] = false
filled (x ∷ xs) = true

unfoldable pub ends_filled : List Buffer → Bool
ends_filled [] = false
ends_filled (b ∷ bs) = let rest = ends_filled bs in if b.last then filled b.bytes else rest

pub take-min {ℓ} : {A : Type ℓ} (n : ℕ) (xs : List A) → take (min n (length xs)) xs ≡ take n xs
take-min zero xs = let e : min 0 (length xs) ≡ 0 = omega arith in ap (λ k. take k xs) e
take-min {A} (suc n) [] = let e : min (suc n) 0 ≡ 0 = omega arith in ap (λ k. take {A = A} k []) e
take-min (suc n) (x ∷ xs) =
    let e : min (suc n) (suc (length xs)) ≡ suc (min n (length xs)) = omega arith in
    ap (λ k. take k (x ∷ xs)) e ∙ ap (λ l. x ∷ l) (take-min n xs)

filled-length : (xs : List ℕ) → 0 < length xs → filled xs ≡ true
filled-length [] h = absurd (omega arith)
filled-length (x ∷ xs) h = refl

last_slice : ℕ → Bool
last_slice n = leb n (min slice_limit n)

data_frame-receive :
    (id : ℕ) (last : Bool) (rest : List ℕ) (fs : List Frame)
    → receive (data_frame id last rest ∷ fs) ≡ (
        if last_slice (length rest) && last
        then (take slice_limit rest, true)
        else (take slice_limit rest ++ (receive fs).0, (receive fs).1))
unfolding receive data_frame last_slice
data_frame-receive id last rest fs =
    rw (take-min slice_limit rest)
      (elim (Bool-cases (leb (length rest) (min slice_limit (length rest)) && last)) [
        | inl e ↦ rw e refl
        | inr e ↦ rw e refl
      ])

more_slices : (n : ℕ) → slice_limit < n → last_slice n ≡ false
unfolding last_slice
more_slices n h = ground arith

one_slice : (n : ℕ) → n ≤ slice_limit → last_slice n ≡ true
unfolding last_slice
one_slice n h = ground arith

-- A buffer that is not the last one.
slices-open :
    (fuel id : ℕ) (rest : List ℕ) (fs : List Frame)
    → length rest ≤ fuel
    → receive (slices fuel id false rest ++ fs) ≡ (rest ++ (receive fs).0, (receive fs).1)
unfolding slices
slices-open fuel id [] fs h = refl
slices-open zero id (b ∷ rest) fs h = absurd (omega arith)
slices-open (suc fuel) id (b ∷ rest) fs h =
    let xs = b ∷ rest in
    let later =
      slices-open fuel id (drop slice_limit xs) fs (omega (arith, h, length-drop slice_limit xs)) in
    data_frame-receive id false xs (slices fuel id false (drop slice_limit xs) ++ fs)
    ∙ closed (last_slice (length xs)) _ _
    ∙ ap (λ r. (take slice_limit xs ++ r.0, r.1)) later
    ∙ ap (λ l. (l, (receive fs).1))
        (sym (append_assoc (take slice_limit xs) (drop slice_limit xs) (receive fs).0)
          ∙ ap (λ l. l ++ (receive fs).0) (take-append-drop slice_limit xs))
  where
    closed : {A : Type 0} (t : Bool) (x y : A) → (if t && false then x else y) ≡ y
    closed true x y = refl
    closed false x y = refl

-- The last buffer.
slices-last :
    (fuel id : ℕ) (rest : List ℕ)
    → length rest ≤ fuel
    → receive (slices fuel id true rest) ≡ (rest, filled rest)
unfolding slices
slices-last fuel id [] h = unfold receive in refl
slices-last zero id (b ∷ rest) h = absurd (omega arith)
slices-last (suc fuel) id (b ∷ rest) h =
    let xs = b ∷ rest in
    data_frame-receive id true xs (slices fuel id true (drop slice_limit xs))
    ∙ elim (dec_lt slice_limit (length xs)) [
      | yes p ↦
          let later =
            slices-last fuel id (drop slice_limit xs)
              (omega (arith, h, length-drop slice_limit xs)) in
          rw (more_slices (length xs) p) (
            ap (λ r. (take slice_limit xs ++ r.0, r.1)) later
            ∙ ap (λ l. (l, filled (drop slice_limit xs))) (take-append-drop slice_limit xs)
            ∙ ap (λ t. (xs, t))
                (filled-length (drop slice_limit xs)
                  (omega (arith, p, length-drop slice_limit xs))))
      | no p ↦
          rw (one_slice (length xs) (omega arith))
            (ap (λ l. (l, true)) (take_long slice_limit xs (omega arith)))
    ]

abbrev buffer : List ℕ → Bool → Buffer
buffer bytes last = record { bytes = bytes; last = last }

body_step :
    (id : ℕ) (bytes : List ℕ) (last : Bool) (bs : List Buffer)
    → receive (body_frames id bs).0 ≡ (delivered bs, ends_filled bs)
    → receive (body_frames id (buffer bytes last ∷ bs)).0
      ≡ (delivered (buffer bytes last ∷ bs), ends_filled (buffer bytes last ∷ bs))
unfolding body_frames delivered ends_filled
body_step id bytes true bs ih = slices-last (length bytes) id bytes (omega arith)
body_step id bytes false bs ih =
    slices-open (length bytes) id bytes (body_frames id bs).0 (omega arith)
    ∙ ap (λ r. (bytes ++ r.0, r.1)) ih

-- The client receives exactly the bytes that the handler delivered up to its last buffer, and sees
-- the end of the stream exactly when that buffer has come and is not empty: a body that ends with an
-- empty buffer, such as `buffer::finish()`, is never ended.
pub receive-body_frames :
    (id : ℕ) (bufs : List Buffer)
    → receive (body_frames id bufs).0 ≡ (delivered bufs, ends_filled bufs)
unfolding body_frames delivered ends_filled
receive-body_frames id [] = unfold receive in refl
receive-body_frames id (b ∷ bs) = body_step id b.bytes b.last bs (receive-body_frames id bs)

-- What holds of each DATA frame.
pub record IsSlice (id : ℕ) (f : Frame) : Type 0 where
  pub is_data : f.type ≡ type_data
  pub on_stream : f.stream_identifier ≡ id
  pub measured : length f.payload ≡ f.length
  pub some_bytes : 0 < f.length
  pub limited : f.length ≤ 16384
  pub flags_known : f.flags ≤ data_end_stream

data_frame-IsSlice :
    (id : ℕ) (last : Bool) (rest : List ℕ) → 0 < length rest → IsSlice id (data_frame id last rest)
unfolding data_frame
data_frame-IsSlice id last rest h = record {
  is_data = refl;
  on_stream = refl;
  measured = omega (arith, length-take (min slice_limit (length rest)) rest);
  some_bytes = omega (arith, h);
  limited = omega arith;
  flags_known = ground arith;
}

slices-IsSlice :
    (fuel id : ℕ) (last : Bool) (rest : List ℕ) → All (IsSlice id) (slices fuel id last rest)
unfolding slices
slices-IsSlice fuel id last [] = tt
slices-IsSlice zero id last (b ∷ rest) = tt
slices-IsSlice (suc fuel) id last (b ∷ rest) = (
  data_frame-IsSlice id last (b ∷ rest) (omega arith),
  slices-IsSlice fuel id last (drop slice_limit (b ∷ rest)),
)

both_bodies :
    (P : Frame → Type 0) (t : Bool) (x y : List Frame × Bool)
    → All P x.0
    → All P y.0
    → All P (if t then x else y).0
both_bodies P true x y a b = a
both_bodies P false x y a b = b

-- Every frame of a body is a DATA frame of the stream, announces the size of its payload, is not
-- empty, and is at most 16384 bytes long.
pub body_frames-IsSlice : (id : ℕ) (bufs : List Buffer) → All (IsSlice id) (body_frames id bufs).0
unfolding body_frames
body_frames-IsSlice id [] = tt
body_frames-IsSlice id (b ∷ bs) =
    let own = slices-IsSlice (length b.bytes) id b.last b.bytes in
    both_bodies (IsSlice id) b.last _ _ own (
      All-append (IsSlice id) (slices (length b.bytes) id b.last b.bytes) (body_frames id bs).0 own
        (body_frames-IsSlice id bs))
