-- ===== src/Capture/Queue.antt =====
-- input-capture/src/lib.rs: `create` and `destroy` leave the queue of events and the pressed keys alone.
use lan_mouse_pro.Common.{ℕ, ◌≡◌, refl, inl, inr, Option-cases, List, [], ◌∷◌}
use lan_mouse_pro.Capture.Barriers
use lan_mouse_pro.Capture.Barriers.{Backend, CaptureEvent, InputCapture, retain, keep_remaining}
use lan_mouse_pro.Capture.Run.{OnDone}
use lan_mouse_pro.Client.Types.{BarrierKey, BarrierKey-discrete}
use lan_mouse_pro.HashMap
use native.Mathlib.Decide.{ℕ_discrete}

abbrev pub SameQueue : {B : Type 0} → InputCapture B → InputCapture B → Type 0
SameQueue before after =
    (after.pending ≡ before.pending) × (after.pressed_keys ≡ before.pressed_keys)

module _ {B : Type 0} (backend : Backend B) where
  pub create-SameQueue :
      (h : ℕ) (p : BarrierKey) (ic : InputCapture B)
      → OnDone (SameQueue ic) (Barriers.create backend h p ic)
  unfolding Barriers.create
  create-SameQueue h p ic = elim (Option-cases (HashMap.get ℕ_discrete h ic.id_map)) [
    | inr (key, here) ↦ rw (here, Barriers.create) tt
    | inl fresh ↦ elim (Option-cases (HashMap.get BarrierKey-discrete p ic.position_map)) [
      | inr (v, present) ↦ rw (fresh, Barriers.create, present) (refl, refl)
      | inl absent ↦ elim (Option-cases (backend.create p ic.capture)) [
        | inl fails ↦ rw (fresh, Barriers.create, absent, fails) tt
        | inr (b, ok) ↦ rw (fresh, Barriers.create, absent, ok) (refl, refl)
      ]
    ]
  ]

  keep_remaining-SameQueue :
      (key : BarrierKey) (left : List ℕ) (ic : InputCapture B)
      → OnDone (SameQueue ic) (keep_remaining backend key left ic)
  unfolding keep_remaining
  keep_remaining-SameQueue key [] ic = elim (Option-cases (backend.destroy key ic.capture)) [
    | inl fails ↦ rw (fails, keep_remaining) tt
    | inr (b, ok) ↦ rw (ok, keep_remaining) (refl, refl)
  ]
  keep_remaining-SameQueue key (i ∷ is) ic = (refl, refl)

  pub destroy-SameQueue :
      (h : ℕ) (ic : InputCapture B) → OnDone (SameQueue ic) (Barriers.destroy backend h ic)
  unfolding Barriers.destroy
  destroy-SameQueue h ic = elim (Option-cases (HashMap.get ℕ_discrete h ic.id_map)) [
    | inl absent ↦ rw (absent, Barriers.destroy) tt
    | inr (key, here) ↦ elim (Option-cases (HashMap.get BarrierKey-discrete key ic.position_map)) [
      | inl absent ↦ rw (here, Barriers.destroy, absent) tt
      | inr (v, present) ↦
          rw (here, Barriers.destroy, present)
            (keep_remaining-SameQueue key (retain h v)
              (record ic { id_map = HashMap.erase ℕ_discrete h ic.id_map }))
    ]
  ]
