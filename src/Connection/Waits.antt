-- ===== src/Connection/Waits.antt =====
-- src/connect.rs: how long a failure keeps a client from being dialled again.
use lan_mouse_pro.Common.{
  ℕ, ◌+◌, ◌≡◌, ◌≤◌, refl, sym, ap, ◌∙◌, subst, arith, false, le→ltb, Option, none, some, List, [],
  ◌∷◌, ◌++◌, All, if◌then◌else◌,
}
use lan_mouse_pro.Connection.{
  RetryState, Dialer, entry_or, failed_again, record_retry_failure, waits, spawn_if_absent, dial,
}
use lan_mouse_pro.HashMap
use native.Mathlib.Decide.{ℕ_discrete}

-- The wait of the entry, if there is one, is over 4 seconds after t, and the next one is as short.
abbrev IsBounded : ℕ → Option RetryState → Type 0
IsBounded t none = Unit
IsBounded t (some entry) = (entry.next_attempt_at ≤ t + 4000) × (entry.backoff ≤ 4000)

-- Failures at these times, one after the other.
unfoldable pub fail_all : List ℕ → ℕ → Dialer → Dialer
fail_all [] handle d = d
fail_all (now ∷ times) handle d = fail_all times handle (record_retry_failure now handle d)

failed_again-IsBounded :
    (t now : ℕ) (o : Option RetryState)
    → now ≤ t
    → IsBounded t o
    → IsBounded t (some (failed_again now (entry_or now o)))
unfolding failed_again entry_or
failed_again-IsBounded t now none before bounded = (omega arith, omega arith)
failed_again-IsBounded t now (some entry) before bounded =
    (omega (arith, bounded.1, before), omega arith)

waits-IsBounded :
    (t now : ℕ) (o : Option RetryState) → t + 4000 ≤ now → IsBounded t o → waits now o ≡ false
unfolding waits
waits-IsBounded t now none late bounded = refl
waits-IsBounded t now (some entry) late bounded =
    le→ltb now entry.next_attempt_at (omega (arith, late, bounded.0))

pub dial-spawned :
    (now handle : ℕ) (d : Dialer)
    → waits now (HashMap.get ℕ_discrete handle d.retry_state) ≡ false
    → HashMap.get ℕ_discrete handle d.connecting ≡ none
    → (dial now handle d).running ≡ d.running ++ (handle ∷ [])
unfolding dial spawn_if_absent
dial-spawned now handle d over absent =
    ap
      (λ b.
        Dialer.running
          (if b then d else spawn_if_absent handle (HashMap.get ℕ_discrete handle d.connecting) d))
      over
    ∙ ap (λ o. Dialer.running (spawn_if_absent handle o d)) absent

fail_all-IsBounded :
    (t handle : ℕ) (times : List ℕ) (d : Dialer)
    → All (λ now. now ≤ t) times
    → IsBounded t (HashMap.get ℕ_discrete handle d.retry_state)
    → IsBounded t (HashMap.get ℕ_discrete handle (fail_all times handle d).retry_state)
unfolding fail_all record_retry_failure
fail_all-IsBounded t handle [] d before bounded = bounded
fail_all-IsBounded t handle (now ∷ times) d before bounded =
    let o = HashMap.get ℕ_discrete handle d.retry_state in
    let entry = failed_again now (entry_or now o) in
    fail_all-IsBounded t handle times (record_retry_failure now handle d) before.1 (
      subst (IsBounded t) (sym (HashMap.get-put_self ℕ_discrete handle entry d.retry_state))
        (failed_again-IsBounded t now o before.0 bounded))

fail_all-connecting :
    (handle : ℕ) (times : List ℕ) (d : Dialer)
    → ((fail_all times handle d).connecting ≡ d.connecting)
      × ((fail_all times handle d).running ≡ d.running)
unfolding fail_all record_retry_failure
fail_all-connecting handle [] d = (refl, refl)
fail_all-connecting handle (now ∷ times) d =
    fail_all-connecting handle times (record_retry_failure now handle d)

-- However often dialling a client has failed since its last connection, and at whatever times up to t, a
-- request to dial it that comes 4 seconds after t, while the client is not in the set of those being
-- connected, starts one dial.
pub dial-fail_all :
    (t now handle : ℕ) (times : List ℕ) (d : Dialer)
    → HashMap.get ℕ_discrete handle d.retry_state ≡ none
    → HashMap.get ℕ_discrete handle d.connecting ≡ none
    → All (λ at. at ≤ t) times
    → t + 4000 ≤ now
    → (dial now handle (fail_all times handle d)).running ≡ d.running ++ (handle ∷ [])
dial-fail_all t now handle times d unknown absent before late =
    let d1 = fail_all times handle d in
    let (same_set, same_tasks) = fail_all-connecting handle times d in
    let bounded =
      fail_all-IsBounded t handle times d before (subst (IsBounded t) (sym unknown) tt) in
    dial-spawned now handle d1
      (waits-IsBounded t now (HashMap.get ℕ_discrete handle d1.retry_state) late bounded)
      (ap (HashMap.get ℕ_discrete handle) same_set ∙ absent)
    ∙ ap (λ tasks. tasks ++ (handle ∷ [])) same_tasks
