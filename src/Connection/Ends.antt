-- ===== src/Connection/Ends.antt =====
-- The ends of the dials of `connect_to_handle`, src/connect.rs.
use lan_mouse_pro.Common.{ℕ, List, [], ◌∷◌}
use lan_mouse_pro.Connection.{Dialer, dial, record_retry_failure}
use lan_mouse_pro.HashMap
use mathlib.Core.Logic.{ite}
use native.Mathlib.Decide.{ℕ_discrete}

-- One task of the client ends.
unfoldable pub remove_task : ℕ → List ℕ → List ℕ
remove_task handle [] = []
remove_task handle (h ∷ tasks) = ite (ℕ_discrete h handle) tasks (h ∷ remove_task handle tasks)

-- `connecting.lock().await.remove(&handle)`, where a task ends: without an address to dial, no more.
unfoldable pub end_dial : ℕ → Dialer → Dialer
unfolding remove_task HashMap.erase
end_dial handle d = record d {
  connecting = HashMap.erase ℕ_discrete handle d.connecting;
  running = remove_task handle d.running;
}

-- `dial_any` or `client_hello` failed.
unfoldable pub dial_failed : ℕ → ℕ → Dialer → Dialer
unfolding record_retry_failure end_dial
dial_failed now handle d = end_dial handle (record_retry_failure now handle d)

unfoldable pub dial_succeeded : ℕ → Dialer → Dialer
unfolding end_dial HashMap.erase
dial_succeeded handle d =
    let d1 = end_dial handle d in
    record d1 { retry_state = HashMap.erase ℕ_discrete handle d1.retry_state }

-- What happens to the dialling of a client, at a time: a request of `dial` or `send`, or an end.
pub data DialStep : Type 0 where
  requested : ℕ → ℕ → DialStep
  without_address : ℕ → DialStep
  failed : ℕ → ℕ → DialStep
  succeeded : ℕ → DialStep

unfoldable pub dial_step : DialStep → Dialer → Dialer
unfolding dial end_dial dial_failed dial_succeeded
dial_step (DialStep.requested now handle) d = dial now handle d
dial_step (DialStep.without_address handle) d = end_dial handle d
dial_step (DialStep.failed now handle) d = dial_failed now handle d
dial_step (DialStep.succeeded handle) d = dial_succeeded handle d

unfoldable pub dial_steps : List DialStep → Dialer → Dialer
unfolding dial_step
dial_steps [] d = d
dial_steps (s ∷ steps) d = dial_steps steps (dial_step s d)

abbrev pub new_dialer : Dialer
new_dialer = record { retry_state = []; connecting = []; running = [] }
