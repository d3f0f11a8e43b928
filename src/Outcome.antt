-- ===== src/Outcome.antt =====
-- How a call of the C++ code ends: with a value, with an exception that is thrown, or in a way
-- that the language leaves undefined. The enums `h2::hpack::error` and `h2::frame_state` are
-- thrown as they are.
use rite.Prelude.{◌≡◌, refl, ◌⊎◌, inl, inr}

pub data HpackError : Type 0 where
  unknown_header size_update invalid done more : HpackError

pub data FrameState : Type 0 where
  insufficient_data invalid too_big : FrameState

pub data Failure : Type 0 where
  hpack_error : HpackError → Failure
  frame_state : FrameState → Failure
  -- std::invalid_argument, std::length_error, std::out_of_range, std::runtime_error
  invalid_argument length_error out_of_range runtime_error : Failure
  -- layer::error::eNoEndpoint of include/http/behaviour.hpp
  no_endpoint : Failure
  -- a failed assert, and std::exit(1)
  aborted exited : Failure
  -- undefined behaviour, and a loop of the model that ran out of fuel
  undefined stuck : Failure

pub data Outcome {ℓ} (A : Type ℓ) : Type ℓ where
  ok : A → Outcome A
  throws : Failure → Outcome A

infixl 5 ◌>>=◌ ◌>>◌
abbrev pub ◌>>=◌ {ℓ κ} : {A : Type ℓ} {B : Type κ} → Outcome A → (A → Outcome B) → Outcome B
ok a >>= f = f a
throws e >>= f = throws e

abbrev pub ◌>>◌ {ℓ} : {B : Type ℓ} → Outcome (Unit {0}) → Outcome B → Outcome B
m >> k = m >>= λ _. k

-- A chain that succeeds has a first step that succeeds.
pub >>=-ok {ℓ κ} :
    {A : Type ℓ} {B : Type κ} (first : Outcome A) (next : A → Outcome B) {result : B}
    → (first >>= next) ≡ ok result
    → (value : A) × (first ≡ ok value) × (next value ≡ ok result)
>>=-ok (throws f) next success = cc
>>=-ok (ok value) next success = (value, refl, success)

pub Outcome-cases {ℓ} :
    {A : Type ℓ} (o : Outcome A) → ((a : A) × (o ≡ ok a)) ⊎ ((e : Failure) × (o ≡ throws e))
Outcome-cases (ok a) = inl (a, refl)
Outcome-cases (throws e) = inr (e, refl)
