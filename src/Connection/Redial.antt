-- ===== src/Connection/Redial.antt =====
-- src/connect.rs: the redial of the supervisor beside a dial of `dial` or `send`.
use lan_mouse_pro.Common.{
  ℕ, ◌+◌, ◌≡◌, ◌≤◌, ap, ◌∙◌, le→ltb, false, none, some, [], ◌∷◌, ◌++◌, append_assoc,
}
use lan_mouse_pro.Connection.{
  Dialer, entry_or, failed_again, record_retry_failure, waits, dial, redial,
}
use lan_mouse_pro.Connection.Waits.{dial-spawned}
use lan_mouse_pro.HashMap
use native.Mathlib.Decide.{ℕ_discrete}

first_wait :
    (now later : ℕ)
    → now + 500 ≤ later
    → waits later (some (failed_again now (entry_or now none))) ≡ false
unfolding waits failed_again entry_or
first_wait now later late = le→ltb later (now + 500) late

-- When a connection that was established is lost, the supervisor starts a dial without entering the
-- client into the set of those being connected: a request to dial the client half a second later starts
-- a second dial, while the first one runs.
pub redial-dial-twice :
    (now later handle : ℕ) (d : Dialer)
    → HashMap.get ℕ_discrete handle d.retry_state ≡ none
    → HashMap.get ℕ_discrete handle d.connecting ≡ none
    → now + 500 ≤ later
    → (dial later handle (redial now handle d)).running ≡ d.running ++ (handle ∷ (handle ∷ []))
unfolding redial record_retry_failure
redial-dial-twice now later handle d unknown absent late =
    let entry = failed_again now (entry_or now (HashMap.get ℕ_discrete handle d.retry_state)) in
    let over : waits later (HashMap.get ℕ_discrete handle (redial now handle d).retry_state)
        ≡ false =
      ap (waits later) (
        HashMap.get-put_self ℕ_discrete handle entry d.retry_state
        ∙ ap (λ o. some (failed_again now (entry_or now o))) unknown)
      ∙ first_wait now later late in
    dial-spawned later handle (redial now handle d) over absent
    ∙ append_assoc d.running (handle ∷ []) (handle ∷ [])
