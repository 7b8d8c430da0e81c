-- ===== src/Session/Outcome.antt =====
-- How a branch of the capture task ends, src/capture.rs: the loop goes on, the session ends (`return
-- Ok(())` or `break`), it ends with an error, or the task panics (`expect`, `assert!`). An error keeps
-- the state, since the task outlives the session and the watchdog goes on behind an error.
use lan_mouse_pro.Common.{Bool, true, false}

pub data Outcome (A : Type 0) : Type 0 where
  done : A → Outcome A
  ended : A → Outcome A
  failed : A → Outcome A
  panic : Outcome A

abbrev pub and_then : {A : Type 0} → Outcome A → (A → Outcome A) → Outcome A
and_then (done a) f = f a
and_then (ended a) f = ended a
and_then (failed a) f = failed a
and_then panic f = panic

-- The `?` operator on a result that carries the state: true stands for `Ok`.
abbrev pub try : {A : Type 0} → Bool × A → Outcome A
try (true, a) = done a
try (false, a) = failed a

-- The branch does not panic, and what it leaves satisfies P, however it ends.
abbrev pub Leaves : {A : Type 0} → (A → Type 0) → Outcome A → Type 0
Leaves P (done a) = P a
Leaves P (ended a) = P a
Leaves P (failed a) = P a
Leaves P panic = ⊥

-- What the branch leaves, if it does not panic, satisfies P.
abbrev pub Partly : {A : Type 0} → (A → Type 0) → Outcome A → Type 0
Partly P (done a) = P a
Partly P (ended a) = P a
Partly P (failed a) = P a
Partly P panic = Unit

-- The branch does not panic, and where the session goes on, P holds.
abbrev pub Continues : {A : Type 0} → (A → Type 0) → Outcome A → Type 0
Continues P (done a) = P a
Continues P (ended a) = Unit
Continues P (failed a) = Unit
Continues P panic = ⊥

pub Partly-try : {A : Type 0} (P : A → Type 0) (r : Bool × A) → P r.1 → Partly P (try r)
Partly-try P (true, a) h = h
Partly-try P (false, a) h = h

pub Continues-try : {A : Type 0} (P : A → Type 0) (r : Bool × A) → P r.1 → Continues P (try r)
Continues-try P (true, a) h = h
Continues-try P (false, a) h = tt

pub Partly-bind :
    {A : Type 0} (P : A → Type 0) (f : A → Outcome A) (o : Outcome A)
    → Partly P o
    → ((a : A) → P a → Partly P (f a))
    → Partly P (and_then o f)
Partly-bind P f (done a) h next = next a h
Partly-bind P f (ended a) h next = h
Partly-bind P f (failed a) h next = h
Partly-bind P f panic h next = tt

pub Leaves-try : {A : Type 0} (P : A → Type 0) (r : Bool × A) → P r.1 → Leaves P (try r)
Leaves-try P (true, a) h = h
Leaves-try P (false, a) h = h

pub Partly-mono :
    {A : Type 0} (P Q : A → Type 0) (o : Outcome A)
    → Partly P o
    → ((a : A) → P a → Q a)
    → Partly Q o
Partly-mono P Q (done a) h next = next a h
Partly-mono P Q (ended a) h next = next a h
Partly-mono P Q (failed a) h next = next a h
Partly-mono P Q panic h next = tt
