-- ===== src/Connection/Once.antt =====
-- src/connect.rs: the set of those being connected admits one dial of a client at a time.
use lan_mouse_pro.Common.{
  ℕ, suc, ◌+◌, ◌-◌, ◌≡◌, ◌≢◌, ◌≤◌, refl, sym, ap, ◌∙◌, subst, arith, if_both, Option, none, some,
  List, [], ◌∷◌, ◌++◌,
}
use lan_mouse_pro.Connection.{Dialer, dial, record_retry_failure, spawn_if_absent, waits}
use lan_mouse_pro.Connection.Ends.{
  DialStep, dial_failed, dial_step, dial_steps, dial_succeeded, end_dial, new_dialer, remove_task,
}
use lan_mouse_pro.HashMap
use mathlib.Core.Logic.{ite, if_pos, if_neg}
use native.Mathlib.Decide.{ℕ_discrete}

-- The tasks of a client.
unfoldable pub count : ℕ → List ℕ → ℕ
count handle [] = 0
count handle (h ∷ tasks) = ite (ℕ_discrete h handle) (suc (count handle tasks)) (count handle tasks)

count-append :
    (h q : ℕ) (tasks : List ℕ) → count q (tasks ++ (h ∷ [])) ≡ count q tasks + count q (h ∷ [])
unfolding count
count-append h q [] = ground arith
count-append h q (x ∷ tasks) = ground (arith, count-append h q tasks)

count-remove_self : (h : ℕ) (tasks : List ℕ) → count h (remove_task h tasks) ≡ count h tasks - 1
unfolding count remove_task
count-remove_self h [] = omega arith
count-remove_self h (x ∷ tasks) = ground (arith, count-remove_self h tasks)

count-remove_ne : (h q : ℕ) (tasks : List ℕ) → h ≢ q → count q (remove_task h tasks) ≡ count q tasks
unfolding count remove_task
count-remove_ne h q [] ne = refl
count-remove_ne h q (x ∷ tasks) ne = ground (arith, count-remove_ne h q tasks ne)

expected : Option (Unit {0}) → ℕ
expected none = 0
expected (some u) = 1

expected_less : (o : Option (Unit {0})) → expected o - 1 ≡ 0
unfolding expected
expected_less none = omega arith
expected_less (some u) = omega arith

-- A client has one task if it is in the set, and none if it is not.
abbrev Agrees : Dialer → Type 0
Agrees d =
    HashMap.Distinct ℕ_discrete d.connecting
    × ((q : ℕ) → count q d.running ≡ expected (HashMap.get ℕ_discrete q d.connecting))

spawn_if_absent-Agrees :
    (h : ℕ) (o : Option (Unit {0})) (d : Dialer)
    → HashMap.get ℕ_discrete h d.connecting ≡ o
    → Agrees d
    → Agrees (spawn_if_absent h o d)
unfolding spawn_if_absent count expected
spawn_if_absent-Agrees h (some u) d at agrees = agrees
spawn_if_absent-Agrees h none d at (distinct, counts) = (
  HashMap.Distinct-put ℕ_discrete h tt d.connecting distinct,
  λ q. count-append h q d.running ∙ elim (ℕ_discrete h q) [
    | yes same ↦
        let fresh : count q d.running ≡ 0 =
          counts q
          ∙ ap expected (ap (λ k. HashMap.get ℕ_discrete k d.connecting) (sym same) ∙ at) in
        let one : count q (h ∷ []) ≡ 1 = if_pos (ℕ_discrete h q) same 1 0 in
        omega (arith, fresh, one)
        ∙ sym (
            ap expected (
              HashMap.get-put ℕ_discrete h q tt d.connecting
              ∙ if_pos (ℕ_discrete h q) same (some tt) (HashMap.get ℕ_discrete q d.connecting)))
    | no other ↦
        let none_more : count q (h ∷ []) ≡ 0 = if_neg (ℕ_discrete h q) other 1 0 in
        omega (arith, none_more)
        ∙ (counts q ∙ sym (ap expected (HashMap.get-put_ne ℕ_discrete h q tt d.connecting other)))
  ],
)

dial-Agrees : (now h : ℕ) (d : Dialer) → Agrees d → Agrees (dial now h d)
unfolding dial
dial-Agrees now h d agrees =
    if_both Agrees (waits now (HashMap.get ℕ_discrete h d.retry_state)) d
      (spawn_if_absent h (HashMap.get ℕ_discrete h d.connecting) d) agrees
      (spawn_if_absent-Agrees h (HashMap.get ℕ_discrete h d.connecting) d refl agrees)

end_dial-Agrees : (h : ℕ) (d : Dialer) → Agrees d → Agrees (end_dial h d)
unfolding end_dial expected
end_dial-Agrees h d (distinct, counts) = (
  HashMap.Distinct-erase ℕ_discrete h d.connecting distinct,
  λ q. elim (ℕ_discrete h q) [
    | yes same ↦
        subst
          (λ k.
            count k (remove_task h d.running)
            ≡ expected (HashMap.get ℕ_discrete k (HashMap.erase ℕ_discrete h d.connecting)))
          same
          (count-remove_self h d.running
            ∙ (ap (λ n. n - 1) (counts h)
                ∙ (expected_less (HashMap.get ℕ_discrete h d.connecting)
                    ∙ sym
                        (ap expected (HashMap.get-erase_self ℕ_discrete h d.connecting distinct)))))
    | no other ↦
        count-remove_ne h q d.running other
        ∙ (counts q ∙ sym (ap expected (HashMap.get-erase_ne ℕ_discrete h q d.connecting other)))
  ],
)

dial_step-Agrees : (s : DialStep) (d : Dialer) → Agrees d → Agrees (dial_step s d)
unfolding dial_step dial_failed dial_succeeded record_retry_failure
dial_step-Agrees (DialStep.requested now h) d agrees = dial-Agrees now h d agrees
dial_step-Agrees (DialStep.without_address h) d agrees = end_dial-Agrees h d agrees
dial_step-Agrees (DialStep.failed now h) d agrees =
    end_dial-Agrees h (record_retry_failure now h d) agrees
dial_step-Agrees (DialStep.succeeded h) d agrees = end_dial-Agrees h d agrees

dial_steps-Agrees : (steps : List DialStep) (d : Dialer) → Agrees d → Agrees (dial_steps steps d)
unfolding dial_steps
dial_steps-Agrees [] d agrees = agrees
dial_steps-Agrees (s ∷ steps) d agrees =
    dial_steps-Agrees steps (dial_step s d) (dial_step-Agrees s d agrees)

expected_le : (o : Option (Unit {0})) → expected o ≤ 1
unfolding expected
expected_le none = omega arith
expected_le (some u) = omega arith

-- From the start on, while no connection that was established is lost: whatever dials are requested and
-- however they end, in whatever order and at whatever times, no client has two dials that run.
pub dial_steps-once :
    (steps : List DialStep) (handle : ℕ) → count handle (dial_steps steps new_dialer).running ≤ 1
unfolding count expected HashMap.get
dial_steps-once steps handle =
    let agrees = dial_steps-Agrees steps new_dialer (tt, λ q. refl) in
    subst (λ n. n ≤ 1) (sym (agrees.1 handle))
      (expected_le (HashMap.get ℕ_discrete handle (dial_steps steps new_dialer).connecting))
