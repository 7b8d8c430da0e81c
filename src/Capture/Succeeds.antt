-- ===== src/Capture/Succeeds.antt =====
-- input-capture/src/lib.rs: what `create` and `destroy` leave where they succeed.
use lan_mouse_pro.Common.{ℕ, ◌≡◌, refl, inl, inr, none, Option-cases, List, [], ◌∷◌, arith}
use lan_mouse_pro.Capture.Barriers
use lan_mouse_pro.Capture.Barriers.{Backend, CaptureEvent, InputCapture, keep_remaining, retain}
use lan_mouse_pro.Capture.Invariant.{IsValid}
use lan_mouse_pro.Capture.Operations.{create-IsPut, destroy-IsGone}
use lan_mouse_pro.Capture.Run.{OnDone, Run, Safe, done, failed, panic, ◌>>=◌}
use lan_mouse_pro.Client.Types.{BarrierKey, BarrierKey-discrete}
use lan_mouse_pro.HashMap
use native.Mathlib.Decide.{ℕ_discrete}

OnDone-Safe :
    {A : Type 0} (P Q : A → Type 0) (r : Run A) → Safe P r → ((a : A) → P a → Q a) → OnDone Q r
OnDone-Safe P Q (done a) h next = next a h
OnDone-Safe P Q failed h next = tt
OnDone-Safe P Q panic h next = tt

pub done_inversion :
    {A C : Type 0} (r : Run A) (f : A → Run C) (c : C)
    → (r >>= f) ≡ done c
    → (a : A) × ((r ≡ done a) × (f a ≡ done c))
done_inversion (done a) f c h = (a, (refl, h))
done_inversion failed f c h = absurd (ground arith)
done_inversion panic f c h = absurd (ground arith)

module _ {B : Type 0} (backend : Backend B) where
  -- A handle that is taken makes `create` panic.
  pub create-Valid :
      (id : ℕ) (key : BarrierKey) (ic : InputCapture B)
      → IsValid ic
      → OnDone
          (λ after. IsValid after × (HashMap.get ℕ_discrete id ic.id_map ≡ none))
          (Barriers.create backend id key ic)
  unfolding Barriers.create
  create-Valid id key ic valid = elim (Option-cases (HashMap.get ℕ_discrete id ic.id_map)) [
    | inr (old, here) ↦ rw (here, Barriers.create) tt
    | inl fresh ↦
        OnDone-Safe _ _ (Barriers.create backend id key ic)
          (create-IsPut backend id key ic valid fresh) (λ after put. (put.0, fresh))
  ]

  pub create-ids :
      (id : ℕ) (key : BarrierKey) (ic : InputCapture B)
      → OnDone
          (λ after. after.id_map ≡ HashMap.put ℕ_discrete id key ic.id_map)
          (Barriers.create backend id key ic)
  unfolding Barriers.create
  create-ids id key ic = elim (Option-cases (HashMap.get ℕ_discrete id ic.id_map)) [
    | inr (old, here) ↦ rw (here, Barriers.create) tt
    | inl fresh ↦ elim (Option-cases (HashMap.get BarrierKey-discrete key ic.position_map)) [
      | inr (v, present) ↦ rw (fresh, Barriers.create, present) refl
      | inl absent ↦ elim (Option-cases (backend.create key ic.capture)) [
        | inl fails ↦ rw (fresh, Barriers.create, absent, fails) tt
        | inr (b, ok) ↦ rw (fresh, Barriers.create, absent, ok) refl
      ]
    ]
  ]

  pub destroy-Valid :
      (id : ℕ) (ic : InputCapture B) → IsValid ic → OnDone IsValid (Barriers.destroy backend id ic)
  unfolding Barriers.destroy
  destroy-Valid id ic valid = elim (Option-cases (HashMap.get ℕ_discrete id ic.id_map)) [
    | inl absent ↦ rw (absent, Barriers.destroy) tt
    | inr (key, here) ↦
        OnDone-Safe _ _ (Barriers.destroy backend id ic)
          (destroy-IsGone backend id key ic valid here) (λ after gone. gone.0)
  ]

  keep_remaining-ids :
      (key : BarrierKey) (left : List ℕ) (ic : InputCapture B)
      → OnDone (λ after. after.id_map ≡ ic.id_map) (keep_remaining backend key left ic)
  unfolding keep_remaining
  keep_remaining-ids key [] ic = elim (Option-cases (backend.destroy key ic.capture)) [
    | inl fails ↦ rw (fails, keep_remaining) tt
    | inr (b, ok) ↦ rw (ok, keep_remaining) refl
  ]
  keep_remaining-ids key (i ∷ is) ic = refl

  pub destroy-ids :
      (id : ℕ) (ic : InputCapture B)
      → OnDone
          (λ after. after.id_map ≡ HashMap.erase ℕ_discrete id ic.id_map)
          (Barriers.destroy backend id ic)
  unfolding Barriers.destroy
  destroy-ids id ic = elim (Option-cases (HashMap.get ℕ_discrete id ic.id_map)) [
    | inl absent ↦ rw (absent, Barriers.destroy) tt
    | inr (key, here) ↦ elim (Option-cases (HashMap.get BarrierKey-discrete key ic.position_map)) [
      | inl absent ↦ rw (here, Barriers.destroy, absent) tt
      | inr (v, present) ↦
          rw (here, Barriers.destroy, present)
            (keep_remaining-ids key (retain id v)
              (record ic { id_map = HashMap.erase ℕ_discrete id ic.id_map }))
    ]
  ]
