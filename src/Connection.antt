-- ===== src/Connection.antt =====
-- When an outgoing connection is dialled, src/connect.rs: `RetryState`, `record_retry_failure`, the
-- gate and the set of `dial` and `send`, the ends of `connect_to_handle`, and the redial of
-- `spawn_peer_supervisor`. Times are in milliseconds; the dials themselves are I/O.
pub mod Waits
pub mod Redial
pub mod Ends
pub mod Once
use lan_mouse_pro.Common.{
  ℕ, suc, ◌+◌, ◌*◌, ◌-◌, ◌^◌, Bool, true, false, ltb, if◌then◌else◌, min, Option, none, some, List,
  [], ◌∷◌, ◌++◌,
}
use lan_mouse_pro.HashMap
use native.Mathlib.Decide.{ℕ_discrete}

pub record RetryState : Type 0 where
  pub next_attempt_at : ℕ
  pub backoff : ℕ
  pub failure_count : ℕ

abbrev pub initial_retry_backoff : ℕ
initial_retry_backoff = 500

abbrev pub max_retry_backoff : ℕ
max_retry_backoff = 4000

-- The map, the set, and the handles of the `connect_to_handle` tasks that run.
pub record Dialer : Type 0 where
  pub retry_state : List (ℕ × RetryState)
  pub connecting : List (ℕ × Unit {0})
  pub running : List ℕ

-- `or_insert`.
unfoldable pub entry_or : ℕ → Option RetryState → RetryState
entry_or now none = record {
  next_attempt_at = now;
  backoff = initial_retry_backoff;
  failure_count = 0;
}
entry_or now (some entry) = entry

unfoldable pub failed_again : ℕ → RetryState → RetryState
failed_again now entry = record {
  next_attempt_at = now + entry.backoff;
  backoff = min (entry.backoff * 2) max_retry_backoff;
  failure_count = min (suc entry.failure_count) (2 ^ 32 - 1);
}

unfoldable pub record_retry_failure : ℕ → ℕ → Dialer → Dialer
unfolding entry_or failed_again HashMap.get HashMap.put
record_retry_failure now handle d = record d {
  retry_state =
      HashMap.put ℕ_discrete handle
        (failed_again now (entry_or now (HashMap.get ℕ_discrete handle d.retry_state)))
        d.retry_state;
}

-- The gate: inside the backoff window nothing is dialled.
unfoldable pub waits : ℕ → Option RetryState → Bool
waits now none = false
waits now (some entry) = ltb now entry.next_attempt_at

-- `connecting.insert(handle)` and `spawn_local(connect_to_handle(...))`.
unfoldable pub spawn_if_absent : ℕ → Option (Unit {0}) → Dialer → Dialer
unfolding HashMap.put
spawn_if_absent handle none d = record d {
  connecting = HashMap.put ℕ_discrete handle tt d.connecting;
  running = d.running ++ (handle ∷ []);
}
spawn_if_absent handle (some u) d = d

-- `dial`, and the second half of `send`.
unfoldable pub dial : ℕ → ℕ → Dialer → Dialer
unfolding waits spawn_if_absent HashMap.get
dial now handle d =
    if waits now (HashMap.get ℕ_discrete handle d.retry_state)
    then d
    else spawn_if_absent handle (HashMap.get ℕ_discrete handle d.connecting) d

-- The arm of `spawn_peer_supervisor` for a close that calls for a retry.
unfoldable pub redial : ℕ → ℕ → Dialer → Dialer
unfolding record_retry_failure
redial now handle d =
    let d1 = record_retry_failure now handle d in
    record d1 { running = d1.running ++ (handle ∷ []) }
