-- ===== src/Service/Activation.antt =====
-- src/service.rs: `activate_client` and the barriers.
use lan_mouse_pro.Common.{
  ℕ, ◌≡◌, ◌≢◌, refl, sym, ap, ◌∙◌, inl, inr, true, not, Bool-cases, some, Option-cases,
}
use lan_mouse_pro.Capture.Barriers.{Backend, InputCapture}
use lan_mouse_pro.Capture.Run.{Safe-mono}
use lan_mouse_pro.Client.Manager
use lan_mouse_pro.Client.Manager.{Entry, key_of, get_key, get_hostname, client_at}
use lan_mouse_pro.Client.Effects.{activate-deactivate}
use lan_mouse_pro.Client.Slab.{Slab}
use lan_mouse_pro.Client.Types.{ClientConfig, ClientState, BarrierKey}
use lan_mouse_pro.Client.View.{get-with_client_ne}
use lan_mouse_pro.Service.Armed.{
  Sound, Sound-with_clients, Sound-send, Sound-broadcast, broadcast_client-clients, active-barrier,
  inactive-barrier, deactivate_client-Sound,
}
use lan_mouse_pro.Service.Barriers.{serve, barrier_of, After-send, Armed, Armed-ArmedBut, created}
use lan_mouse_pro.Service.Handlers.{
  Effect, Service, send, with_clients, resolve, deactivate_client, make_room, arm_client,
  activate_client,
}
use mathlib.Core.Logic.{if_pos, if_neg}
use native.Mathlib.Decide.{ℕ_discrete}

module _ (slab : Slab Entry) where
  pub deactivate_client-clients :
      (h : ℕ) (sv : Service slab)
      → (deactivate_client slab h sv).client_manager
        ≡ (Manager.deactivate_client slab h sv.client_manager).0
  unfolding deactivate_client send
  deactivate_client-clients h sv =
      elim (Bool-cases (Manager.deactivate_client slab h sv.client_manager).1) [
        | inl on ↦ rw on (broadcast_client-clients slab h _)
        | inr off ↦ rw off refl
      ]

  pub get-deactivate_client_ne :
      (h q : ℕ) (sv : Service slab)
      → h ≢ q
      → slab.get q (deactivate_client slab h sv).client_manager ≡ slab.get q sv.client_manager
  unfolding Manager.deactivate_client
  get-deactivate_client_ne h q sv p =
      ap (slab.get q) (deactivate_client-clients h sv)
      ∙ get-with_client_ne slab Manager.deactivation h sv.client_manager q p

  pub get-make_room :
      (key : BarrierKey) (h : ℕ) (sv : Service slab)
      → slab.get h (make_room slab key h sv).client_manager ≡ slab.get h sv.client_manager
  unfolding make_room
  get-make_room key h sv = elim (Option-cases (client_at slab key sv.client_manager)) [
    | inl free ↦ rw (free, make_room) refl
    | inr (other, taken) ↦
        rw (taken, make_room)
          (elim (ℕ_discrete other h) [
            | yes p ↦ rw (if_pos (ℕ_discrete other h) p sv (deactivate_client slab other sv)) refl
            | no p ↦
                rw (if_neg (ℕ_discrete other h) p sv (deactivate_client slab other sv))
                  (get-deactivate_client_ne other h sv p)
          ])
  ]

  module _ {B : Type 0} (backend : Backend B) (start : InputCapture B) where
    pub resolve-Sound :
        (h : ℕ) (sv : Service slab)
        → Sound slab backend start sv
        → Sound slab backend start (resolve slab h sv)
    unfolding resolve serve
    resolve-Sound h sv before = elim (Option-cases (get_hostname slab h sv.client_manager)) [
      | inl absent ↦ rw (absent, resolve) before
      | inr (name, here) ↦
          rw (here, resolve)
            (Sound-send slab backend start (Effect.resolve_host h name) sv (λ ic. refl) before)
    ]

    make_room-Sound :
        (key : BarrierKey) (h : ℕ) (sv : Service slab)
        → Sound slab backend start sv
        → Sound slab backend start (make_room slab key h sv)
    unfolding make_room
    make_room-Sound key h sv before = elim (Option-cases (client_at slab key sv.client_manager)) [
      | inl free ↦ rw (free, make_room) before
      | inr (other, taken) ↦
          rw (taken, make_room)
            (elim (ℕ_discrete other h) [
              | yes p ↦
                  rw (if_pos (ℕ_discrete other h) p sv (deactivate_client slab other sv)) before
              | no p ↦ rw (if_neg (ℕ_discrete other h) p sv (deactivate_client slab other sv)) (
                  deactivate_client-Sound slab backend start other sv (
                    Safe-mono _ _ _ before
                      (Armed-ArmedBut slab backend start other sv.client_manager)))
            ])
    ]

    arm_client-Sound :
        (h : ℕ) (sv : Service slab) (c : ClientConfig) (s : ClientState)
        → slab.get h sv.client_manager ≡ some (c, s)
        → Sound slab backend start sv
        → Sound slab backend start (arm_client slab (key_of slab (c, s)) h sv)
    unfolding arm_client serve
    arm_client-Sound h sv c s here before =
        let cm = sv.client_manager in
        let flip = activate-deactivate slab h cm c s here in
        elim (Bool-cases s.active) [
          | inl on ↦ rw (flip.0.0 ∙ ap not on) (
              Sound-with_clients slab backend start _ sv
                (λ q. elim (ℕ_discrete h q) [
                  | yes p ↦ rw (sym p) (
                      active-barrier slab backend start c (record s { active = true }) _ flip.1.0.0
                        refl
                      ∙ sym (active-barrier slab backend start c s _ here on))
                  | no p ↦ ap (barrier_of slab) (flip.1.1.0 q p)
                ])
                before)
          | inr off ↦ rw (flip.0.0 ∙ ap not off) (
              Sound-send slab backend start (Effect.dial h) _ (λ ic. refl)
                (Sound-broadcast slab backend start h _ (
                  After-send slab backend start (Armed slab backend start cm) _
                    (Effect.create_barrier h (key_of slab (c, s)))
                    (with_clients slab (Manager.activate_client slab h cm).0 sv) before
                    (λ ic armed.
                      created slab backend start h _ cm (key_of slab (c, s)) ic armed
                        (inactive-barrier slab backend start c s _ here off)
                        (active-barrier slab backend start c (record s { active = true }) _
                          flip.1.0.0 refl)
                        flip.1.1.0))))
        ]

    -- Activation keeps the barriers in step.
    pub activate_client-Sound :
        (h : ℕ) (sv : Service slab)
        → Sound slab backend start sv
        → Sound slab backend start (activate_client slab h sv)
    unfolding activate_client get_key
    activate_client-Sound h sv before =
        let resolved = resolve slab h sv in
        elim (Option-cases (slab.get h resolved.client_manager)) [
          | inl absent ↦ rw (absent, activate_client) (resolve-Sound h sv before)
          | inr ((c, s), here) ↦
              let key = key_of slab (c, s) in
              rw (here, activate_client)
                (arm_client-Sound h (make_room slab key h resolved) c s
                  (get-make_room key h resolved ∙ here)
                  (make_room-Sound key h resolved (resolve-Sound h sv before)))
        ]
