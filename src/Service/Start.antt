-- ===== src/Service/Start.antt =====
-- The start of `Service::run`, src/service.rs: the barriers of the clients that the configuration
-- marks as active.
use lan_mouse_pro.Common.{
  ℕ, ◌≡◌, ◌≢◌, refl, sym, ap, ◌∙◌, inl, inr, Bool, true, Bool-cases, Option, none, Option-cases,
  List, [], ◌∷◌,
}
use lan_mouse_pro.Capture.Barriers.{Backend, InputCapture}
use lan_mouse_pro.Capture.Invariant.{IsValid, nonempty, ids_at}
use lan_mouse_pro.Client.Manager
use lan_mouse_pro.Client.Manager.{Entry, filter_keys, active_clients}
use lan_mouse_pro.Client.Effects.{activate-deactivate}
use lan_mouse_pro.Client.Slab.{Slab, Holds}
use lan_mouse_pro.Client.View.{with_client_absent, get-with_client_ne}
use lan_mouse_pro.HashMap
use lan_mouse_pro.Service.Activation.{activate_client-Sound}
use lan_mouse_pro.Service.Armed.{Sound}
use lan_mouse_pro.Service.Barriers.{barrier_of, serve_log}
use lan_mouse_pro.Service.Handlers
use lan_mouse_pro.Service.Handlers.{Service, with_clients, deactivate_all, activate_all}
use mathlib.Core.Option.{none-ne-some}
use native.Mathlib.Decide.{ℕ_discrete}

-- A capture session without barriers.
abbrev pub no_barriers : {B : Type 0} → B → InputCapture B
no_barriers b = record {
  capture = b;
  pressed_keys = [];
  position_map = [];
  id_map = [];
  pending = [];
}

pub no_barriers-IsValid : {B : Type 0} (b : B) → IsValid (no_barriers b)
unfolding HashMap.get nonempty ids_at
no_barriers-IsValid b = record { ids_Distinct = tt; keys_Distinct = tt; inverse = λ key. refl }

module _ (slab : Slab Entry) where
  abbrev pub IsActive : Option Entry → Type 0
  IsActive o = barrier_of slab o ≢ none

  filter_keys-Holds :
      (test : Entry → Bool) (h : ℕ) (e : Entry) (es : List (ℕ × Entry))
      → Holds (h, e) es
      → test e ≡ true
      → Holds h (filter_keys test es)
  unfolding filter_keys
  filter_keys-Holds test h e [] found passes = absurd found
  filter_keys-Holds test h e (x ∷ xs) (inl same) passes =
      rw (ap (λ y. test y.1) same ∙ passes) (inl (ap (λ y. y.0) same))
  filter_keys-Holds test h e (x ∷ xs) (inr later) passes =
      let rest = filter_keys-Holds test h e xs later passes in
      elim (Bool-cases (test x.1)) [
        | inl yes_here ↦ rw yes_here (inr rest)
        | inr not_here ↦ rw not_here rest
      ]

  pub active_clients-Holds :
      (cm : slab.S) (q : ℕ) → IsActive (slab.get q cm) → Holds q (active_clients slab cm)
  unfolding active_clients barrier_of
  active_clients-Holds cm q active = elim (Option-cases (slab.get q cm)) [
    | inl absent ↦ absurd (active (rw absent refl))
    | inr (e, here) ↦ elim (Bool-cases e.1.active) [
      | inl on ↦
          filter_keys-Holds (λ x. x.1.active) q e (slab.iter cm) (slab.iter_complete q e cm here) on
      | inr off ↦ absurd (active (rw (here, off) refl))
    ]
  ]

  pub deactivated-barrier :
      (h : ℕ) (cm : slab.S)
      → barrier_of slab (slab.get h (Manager.deactivate_client slab h cm).0) ≡ none
  unfolding barrier_of Manager.deactivate_client
  deactivated-barrier h cm = elim (Option-cases (slab.get h cm)) [
    | inl absent ↦ rw (with_client_absent slab Manager.deactivation h cm absent, absent) refl
    | inr ((c, s), here) ↦ rw (activate-deactivate slab h cm c s here).1.0.1 refl
  ]

  -- Deactivation takes the barrier of the client and of no other.
  deactivated :
      (h q : ℕ) (cm : slab.S)
      → IsActive (slab.get q (Manager.deactivate_client slab h cm).0)
      → (h ≢ q) × IsActive (slab.get q cm)
  unfolding Manager.deactivate_client
  deactivated h q cm active = elim (ℕ_discrete h q) [
    | yes p ↦ absurd (active (rw (sym p) (deactivated-barrier h cm)))
    | no p ↦ (
      p,
      λ gone.
          active
            (ap (barrier_of slab) (get-with_client_ne slab Manager.deactivation h cm q p) ∙ gone),
    )
  ]

  pub deactivate_all-barriers :
      (hs : List ℕ) (cm : slab.S)
      → ((q : ℕ) → IsActive (slab.get q cm) → Holds q hs)
      → (q : ℕ) → barrier_of slab (slab.get q (deactivate_all slab hs cm)) ≡ none
  unfolding deactivate_all
  deactivate_all-barriers [] cm listed q = elim (Option-cases (barrier_of slab (slab.get q cm))) [
    | inl nothing ↦ nothing
    | inr (key, some_key) ↦ absurd (listed q (λ nothing. none-ne-some key (sym nothing ∙ some_key)))
  ]
  deactivate_all-barriers (h ∷ hs) cm listed q =
      deactivate_all-barriers hs (Manager.deactivate_client slab h cm).0
        (λ k active.
          let was = deactivated h k cm active in
          elim (listed k was.1) [ inl p ↦ absurd (was.0 p) | inr later ↦ later ])
        q

  module _ {B : Type 0} (backend : Backend B) (b : B) where
    activate_all-Sound :
        (hs : List ℕ) (sv : Service slab)
        → Sound slab backend (no_barriers b) sv
        → Sound slab backend (no_barriers b) (activate_all slab hs sv)
    unfolding activate_all
    activate_all-Sound [] sv before = before
    activate_all-Sound (h ∷ hs) sv before =
        activate_all-Sound hs _ (activate_client-Sound slab backend (no_barriers b) h sv before)

    -- Whatever clients the configuration holds, the requests that the service sends when it starts do
    -- not make the capture task panic, and unless the backend fails the barriers are then those of
    -- the active clients.
    pub start-Sound :
        (cm : slab.S)
        → Sound slab backend
            (no_barriers b)
            (Handlers.start slab (record { client_manager = cm; log = [] }))
    unfolding Handlers.start serve_log HashMap.get
    start-Sound cm = activate_all-Sound (active_clients slab cm) _ (
      no_barriers-IsValid b,
      λ q. sym (deactivate_all-barriers (active_clients slab cm) cm (active_clients-Holds cm) q),
    )
