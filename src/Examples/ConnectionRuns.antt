-- ===== src/Examples/ConnectionRuns.antt =====
-- Dials of one client.
use lan_mouse_pro.Common.{◌≡◌, ◌≤◌, refl, arith, List, [], ◌∷◌}
use lan_mouse_pro.Connection.{Dialer, dial, redial}
use lan_mouse_pro.Connection.Ends.{DialStep, dial_steps, new_dialer}
use lan_mouse_pro.Connection.Once.{count, dial_steps-once}
use lan_mouse_pro.Connection.Redial.{redial-dial-twice}
use lan_mouse_pro.Connection.Waits.{fail_all, dial-fail_all}
use lan_mouse_pro.HashMap
use native.Mathlib.Decide.{ℕ_discrete}

-- Another client is being connected.
abbrev idle : Dialer
idle = record { retry_state = []; connecting = (7, tt) ∷ []; running = 7 ∷ [] }

redial-dial-twice_example : (dial 1500 3 (redial 1000 3 idle)).running ≡ 7 ∷ 3 ∷ 3 ∷ []
unfolding HashMap.get ℕ_discrete
redial-dial-twice_example = redial-dial-twice 1000 1500 3 idle refl refl (omega arith)

dial-fail_all_example :
    (dial 9000 3 (fail_all (1000 ∷ 2000 ∷ 5000 ∷ []) 3 idle)).running ≡ 7 ∷ 3 ∷ []
unfolding HashMap.get ℕ_discrete
dial-fail_all_example =
    dial-fail_all 5000 9000 3 (1000 ∷ 2000 ∷ 5000 ∷ []) idle refl refl
      (omega arith, (omega arith, (omega arith, tt))) (omega arith)

-- A dial that fails, a request that waits, and one that is made while a dial runs.
abbrev requests : List DialStep
requests =
    DialStep.requested 1000 3
    ∷ DialStep.failed 1200 3
    ∷ DialStep.requested 1300 3
    ∷ DialStep.requested 2000 3
    ∷ DialStep.requested 2100 3
    ∷ []

dial_steps-once_example : count 3 (dial_steps requests new_dialer).running ≤ 1
dial_steps-once_example = dial_steps-once requests 3

running_once : (dial_steps requests new_dialer).running ≡ 3 ∷ []
unfolding dial_steps HashMap.get ℕ_discrete
running_once = refl
