-- ===== src/Capture/Run.antt =====
-- How a step of the capture task ends: a new state, a `CaptureError` of the backend, which ends the
-- session, or a panic (`assert!`, `expect`).
use lan_mouse_pro.Common.{◌≡◌, refl}

pub data Run (A : Type 0) : Type 0 where
  done : A → Run A
  failed : Run A
  panic : Run A

infixl 5 ◌>>=◌
abbrev pub ◌>>=◌ : {A B : Type 0} → Run A → (A → Run B) → Run B
done a >>= f = f a
failed >>= f = failed
panic >>= f = panic

-- The step does not panic, and what it leaves, if it leaves anything, satisfies P.
abbrev pub Safe : {A : Type 0} → (A → Type 0) → Run A → Type 0
Safe P (done a) = P a
Safe P failed = Unit
Safe P panic = ⊥

pub Safe-bind :
    {A B : Type 0} (P : A → Type 0) (Q : B → Type 0) (f : A → Run B) (r : Run A)
    → Safe P r
    → ((a : A) → P a → Safe Q (f a))
    → Safe Q (r >>= f)
Safe-bind P Q f (done a) h next = next a h
Safe-bind P Q f failed h next = tt
Safe-bind P Q f panic h next = absurd h

pub Safe-mono :
    {A : Type 0} (P Q : A → Type 0) (r : Run A) → Safe P r → ((a : A) → P a → Q a) → Safe Q r
Safe-mono P Q (done a) h next = next a h
Safe-mono P Q failed h next = tt
Safe-mono P Q panic h next = h

pub bind_done : {A : Type 0} {f : A → Run A} (r : Run A) → ((a : A) → f a ≡ done a) → (r >>= f) ≡ r
bind_done (done a) h = h a
bind_done failed h = refl
bind_done panic h = refl

pub bind_regroup :
    {A B C : Type 0} {f : A → Run C} (g : A → Run B) (next : B → Run C) (r : Run A)
    → ((a : A) → f a ≡ (g a >>= next))
    → (r >>= f) ≡ ((r >>= g) >>= next)
bind_regroup g next (done a) h = h a
bind_regroup g next failed h = refl
bind_regroup g next panic h = refl

-- The step does not end with an error of the backend.
abbrev pub NotFailed : {A : Type 0} → Run A → Type 0
NotFailed (done a) = Unit
NotFailed failed = ⊥
NotFailed panic = Unit

pub Safe-panic :
    {A B : Type 0} (P : A → Type 0) (f : A → Run B) (r : Run A)
    → Safe P r
    → NotFailed r
    → ((a : A) → P a → f a ≡ panic)
    → (r >>= f) ≡ panic
Safe-panic P f (done a) h ok next = next a h
Safe-panic P f failed h ok next = absurd ok
Safe-panic P f panic h ok next = refl

-- What the step leaves, if it leaves anything, satisfies P.
abbrev pub OnDone : {A : Type 0} → (A → Type 0) → Run A → Type 0
OnDone P (done a) = P a
OnDone P failed = Unit
OnDone P panic = Unit

pub Safe-OnDone :
    {A : Type 0} (P Q : A → Type 0) (r : Run A) → Safe P r → OnDone Q r → Safe (λ a. P a × Q a) r
Safe-OnDone P Q (done a) h q = (h, q)
Safe-OnDone P Q failed h q = tt
Safe-OnDone P Q panic h q = absurd h
