-- ===== src/Service/Detach.antt =====
-- src/service.rs: a barrier that is taken down while its client stays active, as a lost monitor does.
use lan_mouse_pro.Common.{
  ℕ, ◌≡◌, ◌≢◌, refl, sym, ◌∙◌, inl, inr, true, none, some, Option-cases, List, [], ◌∷◌,
}
use lan_mouse_pro.Capture.Barriers
use lan_mouse_pro.Capture.Barriers.{Backend, InputCapture}
use lan_mouse_pro.Capture.Invariant.{IsValid}
use lan_mouse_pro.Capture.Operations.{
  key_of_id, IsPut, IsGone, create-IsPut, destroy-IsGone, create-destroy-panic,
}
use lan_mouse_pro.Capture.Run.{panic, Safe-mono, NotFailed, Safe-panic}
use lan_mouse_pro.Client.Effects.{activate-deactivate}
use lan_mouse_pro.Client.Manager.{Entry, key_of, get_key, get_state}
use lan_mouse_pro.Client.Slab.{Slab}
use lan_mouse_pro.Client.Types.{ClientConfig, ClientState, BarrierKey, BarrierKey-discrete}
use lan_mouse_pro.Service.Armed.{Sound, After-notify, Sound-broadcast, active-barrier}
use lan_mouse_pro.Service.Barriers.{serve, serve_log, barrier_of, After, After-send, Armed}
use lan_mouse_pro.Service.Handlers.{
  Effect, Service, send, broadcast_client, deactivate_client, detach_capture, reattach_capture,
}
use lan_mouse_pro.HashMap
use native.Mathlib.Decide.{ℕ_discrete}

module _ (slab : Slab Entry) {B : Type 0} (backend : Backend B) (start : InputCapture B) where
  -- The client has no barrier; every other client has the one it is to have.
  abbrev pub Detached : ℕ → slab.S → InputCapture B → Type 0
  Detached h cm ic =
      IsValid ic
      × ((key_of_id h ic.id_map ≡ none)
          × ((q : ℕ) → h ≢ q → key_of_id q ic.id_map ≡ barrier_of slab (slab.get q cm)))

  pub detach_capture-Detached :
      (h : ℕ) (reason : List ℕ) (sv : Service slab) (c : ClientConfig) (s : ClientState)
      → slab.get h sv.client_manager ≡ some (c, s)
      → s.active ≡ true
      → Sound slab backend start sv
      → After slab backend start (Detached h sv.client_manager) (detach_capture slab h reason sv)
  unfolding detach_capture serve
  detach_capture-Detached h reason sv c s here on before =
      let cm = sv.client_manager in
      After-notify slab backend start (Detached h cm) _ (send slab (Effect.destroy_barrier h) sv) (
        After-send slab backend start (Armed slab backend start cm) (Detached h cm)
          (Effect.destroy_barrier h) sv before
          (λ ic armed.
            Safe-mono (IsGone h ic) (Detached h cm) _
              (destroy-IsGone backend h (key_of slab (c, s)) ic armed.0
                (armed.1 h ∙ active-barrier slab backend start c s _ here on))
              (λ after gone. (gone.0, (gone.1.0, λ q p. gone.1.1 q p ∙ armed.1 q)))))

  -- While a monitor is away the barrier of a client that is bound to it is taken down, and put up
  -- again when the monitor is back: neither step makes the capture task panic, and where the barriers
  -- were in step with the active clients they are so again, the client being active all along.
  pub reattach-detach-Sound :
      (h : ℕ) (reason : List ℕ) (sv : Service slab) (c : ClientConfig) (s : ClientState)
      → slab.get h sv.client_manager ≡ some (c, s)
      → s.active ≡ true
      → Sound slab backend start sv
      → Sound slab backend start (reattach_capture slab h (detach_capture slab h reason sv))
  unfolding reattach_capture detach_capture get_key serve send
  reattach-detach-Sound h reason sv c s here on before =
      let cm = sv.client_manager in
      rw (here, reattach_capture)
        (Sound-broadcast slab backend start h _ (
          After-send slab backend start (Detached h cm) (Armed slab backend start cm)
            (Effect.create_barrier h (key_of slab (c, s))) (detach_capture slab h reason sv)
            (detach_capture-Detached h reason sv c s here on before)
            (λ ic off.
              Safe-mono (IsPut h (key_of slab (c, s)) ic) (Armed slab backend start cm) _
                (create-IsPut backend h (key_of slab (c, s)) ic off.0 off.1.0)
                (λ after put. (
                  put.0,
                  λ q. elim (ℕ_discrete h q) [
                    | yes p ↦
                        rw (sym p) (put.1.0 ∙ sym (active-barrier slab backend start c s _ here on))
                    | no p ↦ put.1.1 q p ∙ off.1.1 q p
                  ],
                )))))

-- The backend never answers an error when a barrier is taken down.
abbrev pub TakesDown : {B : Type 0} → Backend B → Type 0
TakesDown {B = B} backend = (key : BarrierKey) (b : B) → backend.destroy key b ≢ none

keep_remaining-NotFailed :
    {B : Type 0} (backend : Backend B)
    → TakesDown backend
    → (key : BarrierKey) (left : List ℕ) (ic : InputCapture B)
    → NotFailed (Barriers.keep_remaining backend key left ic)
unfolding Barriers.keep_remaining
keep_remaining-NotFailed backend takes key [] ic =
    elim (Option-cases (backend.destroy key ic.capture)) [
      | inl fails ↦ absurd (takes key ic.capture fails)
      | inr (b, ok) ↦ rw (ok, Barriers.keep_remaining) tt
    ]
keep_remaining-NotFailed backend takes key (i ∷ is) ic = tt

destroy-NotFailed :
    {B : Type 0} (backend : Backend B)
    → TakesDown backend
    → (id : ℕ) (ic : InputCapture B) → NotFailed (Barriers.destroy backend id ic)
unfolding Barriers.destroy
destroy-NotFailed backend takes id ic = elim (Option-cases (key_of_id id ic.id_map)) [
  | inl nowhere ↦ rw (nowhere, Barriers.destroy) tt
  | inr (key, here) ↦ elim (Option-cases (HashMap.get BarrierKey-discrete key ic.position_map)) [
    | inl absent ↦ rw (here, Barriers.destroy, absent) tt
    | inr (v, present) ↦
        rw (here, Barriers.destroy, present)
          (keep_remaining-NotFailed backend takes key (Barriers.retain id v) _)
  ]
]

-- Where the barrier of an active client was taken down because its monitor is away, a request of the
-- frontend to deactivate the client makes the capture task panic: the service asks for the barrier to
-- be taken down again.
pub deactivate-detach-panic :
    (slab : Slab Entry) {B : Type 0} (backend : Backend B)
    → TakesDown backend
    → (h : ℕ) (reason : List ℕ) (cm : slab.S) (c : ClientConfig) (s : ClientState)
      (ic : InputCapture B)
    → slab.get h cm ≡ some (c, s)
    → s.active ≡ true
    → Armed slab backend ic cm ic
    → serve_log backend
        (deactivate_client slab h
          (detach_capture slab h reason (record { client_manager = cm; log = [] }))).log
        ic
      ≡ panic
unfolding deactivate_client detach_capture serve_log send broadcast_client get_state
deactivate-detach-panic slab backend takes h reason cm c s ic here on armed =
    let flip = activate-deactivate slab h cm c s here in
    rw (flip.0.1 ∙ on, broadcast_client, flip.1.0.1)
      (Safe-panic (IsGone h ic) _ (Barriers.destroy backend h ic)
        (destroy-IsGone backend h (key_of slab (c, s)) ic armed.0
          (armed.1 h ∙ active-barrier slab backend ic c s _ here on))
        (destroy-NotFailed backend takes h ic)
        (λ after gone. rw ((create-destroy-panic backend h after).1 gone.1.0) refl))

-- Where an active client already has its barrier, putting it up because its monitor appears makes the
-- capture task panic: so it is for a client that was activated while its monitor was away.
pub reattach-Armed-panic :
    (slab : Slab Entry) {B : Type 0} (backend : Backend B) (h : ℕ) (cm : slab.S) (c : ClientConfig)
    (s : ClientState) (ic : InputCapture B)
    → slab.get h cm ≡ some (c, s)
    → s.active ≡ true
    → Armed slab backend ic cm ic
    → serve_log backend (reattach_capture slab h (record { client_manager = cm; log = [] })).log ic
      ≡ panic
unfolding reattach_capture serve_log send broadcast_client get_key get_state
reattach-Armed-panic slab backend h cm c s ic here on armed =
    let there = armed.1 h ∙ active-barrier slab backend ic c s _ here on in
    rw (here, reattach_capture, broadcast_client, here)
      (rw ((create-destroy-panic backend h ic).0 (key_of slab (c, s)) _ there) refl)
