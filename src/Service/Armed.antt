-- ===== src/Service/Armed.antt =====
-- src/service.rs: `deactivate_client`, `broadcast_client` and the barriers.
use lan_mouse_pro.Common.{
  ℕ, ◌≡◌, refl, sym, ◌∙◌, inl, inr, true, false, Bool-cases, Option, none, some, Option-cases,
}
use lan_mouse_pro.Capture.Barriers.{Backend, InputCapture}
use lan_mouse_pro.Capture.Run.{done, Safe-mono}
use lan_mouse_pro.Client.Manager
use lan_mouse_pro.Client.Manager.{Entry, key_of, get_key, get_state, get_hostname, client_at}
use lan_mouse_pro.Client.Effects.{activate-deactivate}
use lan_mouse_pro.Client.Slab.{Slab}
use lan_mouse_pro.Client.Types.{ClientConfig, ClientState}
use lan_mouse_pro.Client.View.{with_client_absent}
use lan_mouse_pro.Service.Barriers.{
  serve, barrier_of, After, After-send, Armed, ArmedBut, destroyed, quiet,
}
use lan_mouse_pro.Service.Handlers.{
  Effect, FrontendEvent, Service, send, with_clients, broadcast_client, deactivate_client,
}

module _ (slab : Slab Entry) where
  pub broadcast_client-clients :
      (h : ℕ) (sv : Service slab) → (broadcast_client slab h sv).client_manager ≡ sv.client_manager
  unfolding broadcast_client send
  broadcast_client-clients h sv = elim (Option-cases (get_state slab h sv.client_manager)) [
    | inl absent ↦ rw (absent, broadcast_client) refl
    | inr (e, here) ↦ rw (here, broadcast_client) refl
  ]

module _ (slab : Slab Entry) {B : Type 0} (backend : Backend B) (start : InputCapture B) where
  abbrev pub Sound : Service slab → Type 0
  Sound sv = After slab backend start (Armed slab backend start sv.client_manager) sv

  -- A message that does not go to the barriers.
  pub After-notify :
      (P : InputCapture B → Type 0) (event : FrontendEvent) (sv : Service slab)
      → After slab backend start P sv
      → After slab backend start P (send slab (Effect.notify event) sv)
  unfolding serve
  After-notify P event sv before =
      After-send slab backend start P P (Effect.notify event) sv before (λ ic p. p)

  pub After-broadcast :
      (P : InputCapture B → Type 0) (h : ℕ) (sv : Service slab)
      → After slab backend start P sv
      → After slab backend start P (broadcast_client slab h sv)
  unfolding broadcast_client
  After-broadcast P h sv before = elim (Option-cases (get_state slab h sv.client_manager)) [
    | inl absent ↦ rw (absent, broadcast_client) (After-notify P _ sv before)
    | inr (e, here) ↦ rw (here, broadcast_client) (After-notify P _ sv before)
  ]

  -- A message that the barriers do not notice.
  pub Sound-send :
      (e : Effect) (sv : Service slab)
      → ((ic : InputCapture B) → serve backend e ic ≡ done ic)
      → Sound sv
      → Sound (send slab e sv)
  unfolding send
  Sound-send e sv unnoticed before =
      After-send slab backend start _ _ e sv before (λ ic armed. rw (unnoticed ic) armed)

  -- Clients with the same barriers.
  pub Sound-with_clients :
      (cm : slab.S) (sv : Service slab)
      → ((q : ℕ) → barrier_of slab (slab.get q cm) ≡ barrier_of slab (slab.get q sv.client_manager))
      → Sound sv
      → Sound (with_clients slab cm sv)
  Sound-with_clients cm sv same before =
      Safe-mono (Armed slab backend start sv.client_manager) (Armed slab backend start cm) _ before
        (λ ic armed. (armed.0, λ q. armed.1 q ∙ sym (same q)))

  pub Sound-broadcast : (h : ℕ) (sv : Service slab) → Sound sv → Sound (broadcast_client slab h sv)
  Sound-broadcast h sv before =
      rw (broadcast_client-clients slab h sv)
        (After-broadcast (Armed slab backend start sv.client_manager) h sv before)

  pub inactive-barrier :
      (c : ClientConfig) (s : ClientState) (o : Option Entry)
      → o ≡ some (c, s)
      → s.active ≡ false
      → barrier_of slab o ≡ none
  unfolding barrier_of
  inactive-barrier c s o p q = rw (p, q) refl

  pub active-barrier :
      (c : ClientConfig) (s : ClientState) (o : Option Entry)
      → o ≡ some (c, s)
      → s.active ≡ true
      → barrier_of slab o ≡ some (key_of slab (c, s))
  unfolding barrier_of
  active-barrier c s o p q = rw (p, q) refl

  pub absent-barrier : (o : Option Entry) → o ≡ none → barrier_of slab o ≡ none
  unfolding barrier_of
  absent-barrier o p = rw p refl

  -- Deactivation sets things right for a client that has some barrier where it is active.
  pub deactivate_client-Sound :
      (h : ℕ) (sv : Service slab)
      → After slab backend start (ArmedBut slab backend start h sv.client_manager) sv
      → Sound (deactivate_client slab h sv)
  unfolding deactivate_client Manager.deactivate_client
  deactivate_client-Sound h sv before =
      let cm = sv.client_manager in
      elim (Option-cases (slab.get h cm)) [
        | inl absent ↦ rw (with_client_absent slab Manager.deactivation h cm absent) (
            Safe-mono _ _ _ before (λ ic armed.
              quiet slab backend start h cm cm ic armed (absent-barrier _ absent)
                (absent-barrier _ absent) (λ q _. refl)))
        | inr ((c, s), here) ↦
            let flip = activate-deactivate slab h cm c s here in
            elim (Bool-cases s.active) [
              | inl on ↦ rw (flip.0.1 ∙ on) (
                  Sound-broadcast h _ (
                    After-send slab backend start (ArmedBut slab backend start h cm) _
                      (Effect.destroy_barrier h)
                      (with_clients slab (Manager.deactivate_client slab h cm).0 sv) before
                      (λ ic armed.
                        destroyed slab backend start h _ cm (key_of slab (c, s)) ic armed
                          (active-barrier c s _ here on)
                          (inactive-barrier c (record s { active = false }) _ flip.1.0.1 refl)
                          flip.1.1.1)))
              | inr off ↦ rw (flip.0.1 ∙ off) (
                  Safe-mono _ _ _ before (λ ic armed.
                    quiet slab backend start h _ cm ic armed (inactive-barrier c s _ here off)
                      (inactive-barrier c (record s { active = false }) _ flip.1.0.1 refl)
                      flip.1.1.1))
            ]
      ]
