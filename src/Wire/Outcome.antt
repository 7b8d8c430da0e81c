-- ===== src/Wire/Outcome.antt =====
-- lan-mouse-proto/src/lib.rs, `ProtocolError`: the outcome of a decoder.
use lan_mouse_pro.Common.{ℕ, ◌≡◌, refl, ◌≢◌, List, ap}

pub data ProtocolError : Type 0 where
  invalid_event_id : ℕ → ProtocolError
  invalid_position : ℕ → ProtocolError
  frame_too_short : ProtocolError
  empty_input : ProtocolError

-- `panic` is Rust's panic: a slice split out of range, or `unreachable!`.
pub data Outcome {ℓ} (A : Type ℓ) : Type ℓ where
  ok : A → Outcome A
  err : ProtocolError → Outcome A
  panic : Outcome A

infixl 5 ◌>>=◌
abbrev pub ◌>>=◌ {ℓ κ} : {A : Type ℓ} {B : Type κ} → Outcome A → (A → Outcome B) → Outcome B
ok a >>= f = f a
err e >>= f = err e
panic >>= f = panic

-- A reader takes the bytes at the cursor and returns a value with the bytes after it.
abbrev pub Reader {ℓ} : Type ℓ → Type ℓ
Reader A = List ℕ → Outcome (A × List ℕ)

-- Where a step and the rest succeed, the step gave a value and the rest went on from it.
pub bind_inversion {ℓ κ} :
    {A : Type ℓ} {B : Type κ} {result : B} (step : Outcome A) (rest : A → Outcome B)
    → (step >>= rest) ≡ ok result
    → (value : A) × (step ≡ ok value) × (rest value ≡ ok result)
bind_inversion panic rest reached = cc
bind_inversion (err failure) rest reached = cc
bind_inversion (ok value) rest reached = (value, refl, reached)

pub >>=-ne-panic {ℓ κ} :
    {A : Type ℓ} {B : Type κ} (m : Outcome A) (f : A → Outcome B)
    → m ≢ panic
    → ((a : A) → m ≡ ok a → f a ≢ panic)
    → (m >>= f) ≢ panic
>>=-ne-panic (ok a) f h k = k a refl
>>=-ne-panic (err e) f h k = λ p. cc
>>=-ne-panic panic f h k = absurd (h refl)

ok_or {ℓ} : {A : Type ℓ} → A → Outcome A → A
ok_or d (ok a) = a
ok_or d (err e) = d
ok_or d panic = d

pub ok-injective {ℓ} : {A : Type ℓ} {a b : A} → ◌≡◌ {A = Outcome A} (ok a) (ok b) → a ≡ b
unfolding ok_or
ok-injective {a} e = ap (ok_or a) e
