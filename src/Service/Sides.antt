-- ===== src/Service/Sides.antt =====
-- src/service.rs: the sides and monitors of the active clients, from the start of the service on.
use lan_mouse_pro.Common.{
  ℕ, ◌≡◌, refl, sym, ap, ◌∙◌, inl, inr, Bool, true, false, Bool-cases, if◌then◌else◌, Option, none,
  some, Option-cases, List, [], ◌∷◌, subst,
}
use lan_mouse_pro.Client.Manager
use lan_mouse_pro.Client.Manager.{
  Entry, Arm, with_client, get_state, active_clients, set_pos, set_monitor, set_fix_ips,
  set_hostname, set_port, set_enter_hook, set_input_channels, set_enable_clipboard_to, pos_change,
  monitor_change, port_change, clipboard_change, channels_change,
}
use lan_mouse_pro.Client.Slab.{Slab}
use lan_mouse_pro.Client.Types.{default_config, default_state}
use lan_mouse_pro.Client.View.{get-with_client_ne}
use lan_mouse_pro.Service.Activation.{get-deactivate_client_ne}
use lan_mouse_pro.Service.Armed.{broadcast_client-clients}
use lan_mouse_pro.Service.Barriers.{barrier_of}
use lan_mouse_pro.Service.Exclusive.{
  barrier, Exclusive, Exclusive-Shrinks, deactivate_client-Shrinks, deactivate_client-barrier_self,
  activate_client-Exclusive, resolve-clients,
}
use lan_mouse_pro.Service.Handlers
use lan_mouse_pro.Service.Handlers.{
  Service, Effect, with_clients, send, resolve, broadcast_client, deactivate_client,
  activate_client, rebuilt, add_client, set_client_active, remove_client, update_fix_ips,
  update_hostname, update_port, update_pos, update_monitor, update_enter_hook,
  update_input_channels, activate_all, deactivate_all,
}
use lan_mouse_pro.Service.Requests.{FrontendRequest, handle_frontend_request, handle_all}
use lan_mouse_pro.Service.Start.{deactivate_all-barriers, active_clients-Holds}
use lan_mouse_pro.Service.Updates.{
  Rebinds, unanswered-barriers, with_client-barriers, write-barriers, update_ips-barriers,
  set_hostname-barriers, pos_change-Rebinds, monitor_change-Rebinds, port_change-KeepsBarrier,
  clipboard_change-KeepsBarrier, channels_change-KeepsBarrier,
}
use mathlib.Core.Option.{none-ne-some}
use native.Mathlib.Decide.{ℕ_discrete}

module _ (slab : Slab Entry) where
  -- The service goes on, and no two of its active clients have the same side and monitor.
  abbrev pub HasSides : Option (Service slab) → Type 0
  HasSides none = ⊥
  HasSides (some sv) = Exclusive slab sv.client_manager

  -- Clients with the same barriers.
  kept-Exclusive :
      (old cm : slab.S)
      → ((q : ℕ) → barrier slab q cm ≡ barrier slab q old)
      → Exclusive slab old
      → Exclusive slab cm
  kept-Exclusive old cm same before =
      Exclusive-Shrinks slab old cm (λ q key p. sym (same q) ∙ p) before

  told-Exclusive :
      (h : ℕ) (sv : Service slab)
      → Exclusive slab sv.client_manager
      → Exclusive slab (broadcast_client slab h sv).client_manager
  told-Exclusive h sv before =
      subst (Exclusive slab) (sym (broadcast_client-clients slab h sv)) before

  maybe_told-Exclusive :
      (h : ℕ) (changed : Bool) (sv : Service slab)
      → Exclusive slab sv.client_manager
      → Exclusive slab (if changed then broadcast_client slab h sv else sv).client_manager
  maybe_told-Exclusive h true sv before = told-Exclusive h sv before
  maybe_told-Exclusive h false sv before = before

  maybe_resolved-Exclusive :
      (h : ℕ) (changed : Bool) (sv : Service slab)
      → Exclusive slab sv.client_manager
      → Exclusive slab (if changed then resolve slab h sv else sv).client_manager
  maybe_resolved-Exclusive h true sv before =
      subst (Exclusive slab) (sym (resolve-clients slab h sv)) before
  maybe_resolved-Exclusive h false sv before = before

  deactivate_client-Exclusive :
      (h : ℕ) (sv : Service slab)
      → Exclusive slab sv.client_manager
      → Exclusive slab (deactivate_client slab h sv).client_manager
  deactivate_client-Exclusive h sv before =
      Exclusive-Shrinks slab sv.client_manager _ (deactivate_client-Shrinks slab h sv) before

  -- Whatever a write did to the client, deactivation takes its barrier.
  rewritten-Exclusive :
      (arm : Arm) (h : ℕ) (sv : Service slab)
      → Exclusive slab sv.client_manager
      → Exclusive slab
          (deactivate_client slab h
            (with_clients slab (with_client slab arm h sv.client_manager).0 sv)).client_manager
  rewritten-Exclusive arm h sv before =
      let cm = sv.client_manager in
      let sv' = with_clients slab (with_client slab arm h cm).0 sv in
      Exclusive-Shrinks slab cm _
        (λ q key p. elim (ℕ_discrete h q) [
          | yes same ↦ absurd (
              none-ne-some key (
                sym (deactivate_client-barrier_self slab h sv')
                ∙ subst
                    (λ k. barrier slab k (deactivate_client slab h sv').client_manager ≡ some key)
                    (sym same) p))
          | no differ ↦
              ap (barrier_of slab) (
                sym (
                  get-deactivate_client_ne slab h q sv' differ
                  ∙ get-with_client_ne slab arm h cm q differ))
              ∙ p
        ])
        before

  rebuilt-Exclusive :
      (arm : Arm)
      → Rebinds arm
      → (h : ℕ) (sv : Service slab) → Exclusive slab sv.client_manager
      → Exclusive slab
          (rebuilt slab h
            (with_client slab arm h sv.client_manager).1
            (with_clients slab (with_client slab arm h sv.client_manager).0 sv)).client_manager
  unfolding rebuilt
  rebuilt-Exclusive arm rebinds h sv before =
      elim (Bool-cases (with_client slab arm h sv.client_manager).1) [
        | inl on ↦ rw on (activate_client-Exclusive slab h _ (rewritten-Exclusive arm h sv before))
        | inr off ↦ rw off (
            kept-Exclusive sv.client_manager _
              (unanswered-barriers slab arm rebinds h sv.client_manager off) before)
      ]

  add_client-HasSides :
      (sv : Service slab) → Exclusive slab sv.client_manager → HasSides (add_client slab sv)
  unfolding add_client Manager.add_client get_state send barrier_of
  add_client-HasSides sv before =
      let cm = sv.client_manager in
      let v : Entry = (default_config, default_state) in
      rw (slab.get-insert_self v cm, add_client)
        (kept-Exclusive cm _
          (λ q. elim (ℕ_discrete (slab.insert v cm).0 q) [
            | yes p ↦ rw (sym p, slab.get-insert_self v cm, slab.insert_vacant v cm) refl
            | no p ↦ ap (barrier_of slab) (slab.get-insert_ne v cm q p)
          ])
          before)

  maybe_sent-clients :
      (b : Bool) (e : Effect) (sv : Service slab)
      → (if b then send slab e sv else sv).client_manager ≡ sv.client_manager
  unfolding send
  maybe_sent-clients true e sv = refl
  maybe_sent-clients false e sv = refl

  remove_client-Exclusive :
      (h : ℕ) (sv : Service slab)
      → Exclusive slab sv.client_manager
      → Exclusive slab (remove_client slab h sv).client_manager
  unfolding remove_client Manager.remove_client send barrier_of
  remove_client-Exclusive h sv before =
      let cm = sv.client_manager in
      subst (Exclusive slab)
        (sym (
          maybe_sent-clients _ (Effect.destroy_barrier h)
            (with_clients slab (slab.try_remove h cm).0 sv)))
        (Exclusive-Shrinks slab cm _
          (λ q key p. elim (ℕ_discrete h q) [
            | yes same ↦ absurd (
                none-ne-some key (
                  sym (ap (barrier_of slab) (slab.get-remove_self h cm))
                  ∙ subst (λ k. barrier slab k (slab.try_remove h cm).0 ≡ some key) (sym same) p))
            | no differ ↦ ap (barrier_of slab) (sym (slab.get-remove_ne h q cm differ)) ∙ p
          ])
          before)

  -- One request.
  pub handle_frontend_request-HasSides :
      (r : FrontendRequest) (sv : Service slab)
      → Exclusive slab sv.client_manager
      → HasSides (handle_frontend_request slab r sv)
  unfolding handle_frontend_request set_client_active update_fix_ips update_hostname update_port
      update_pos update_monitor update_enter_hook update_input_channels
      Handlers.set_enable_clipboard_to set_pos set_monitor set_port set_input_channels
      set_enable_clipboard_to set_fix_ips set_enter_hook barrier_of
  handle_frontend_request-HasSides (FrontendRequest.activate h true) sv before =
      activate_client-Exclusive slab h sv before
  handle_frontend_request-HasSides (FrontendRequest.activate h false) sv before =
      deactivate_client-Exclusive h sv before
  handle_frontend_request-HasSides FrontendRequest.create sv before = add_client-HasSides sv before
  handle_frontend_request-HasSides (FrontendRequest.delete h) sv before =
      remove_client-Exclusive h sv before
  handle_frontend_request-HasSides (FrontendRequest.new_fix_ips h ips) sv before =
      told-Exclusive h _ (
        kept-Exclusive sv.client_manager _
          (λ q.
            update_ips-barriers slab h _ q
            ∙ write-barriers slab (λ e. (record e.0 { fix_ips = ips }, e.1)) (λ e. refl) h
                sv.client_manager q)
          before)
  handle_frontend_request-HasSides (FrontendRequest.new_hostname h host) sv before =
      told-Exclusive h _ (
        maybe_resolved-Exclusive h _ _ (
          kept-Exclusive sv.client_manager _ (set_hostname-barriers slab h host sv.client_manager)
            before))
  handle_frontend_request-HasSides (FrontendRequest.new_port h port) sv before =
      told-Exclusive h _ (
        kept-Exclusive sv.client_manager _
          (with_client-barriers slab (port_change port) (port_change-KeepsBarrier slab port) h
            sv.client_manager)
          before)
  handle_frontend_request-HasSides (FrontendRequest.new_position h pos) sv before =
      told-Exclusive h _ (rebuilt-Exclusive (pos_change pos) (pos_change-Rebinds pos) h sv before)
  handle_frontend_request-HasSides (FrontendRequest.new_monitor h monitor) sv before =
      told-Exclusive h _
        (rebuilt-Exclusive (monitor_change monitor) (monitor_change-Rebinds monitor) h sv before)
  handle_frontend_request-HasSides (FrontendRequest.resolve_dns h) sv before =
      subst (Exclusive slab) (sym (resolve-clients slab h sv)) before
  handle_frontend_request-HasSides (FrontendRequest.new_enter_hook h hook) sv before =
      told-Exclusive h _ (
        kept-Exclusive sv.client_manager _
          (write-barriers slab (λ e. (record e.0 { cmd = hook }, e.1)) (λ e. refl) h
            sv.client_manager)
          before)
  handle_frontend_request-HasSides (FrontendRequest.client_input_channels h cfg) sv before =
      maybe_told-Exclusive h _ _ (
        kept-Exclusive sv.client_manager _
          (with_client-barriers slab (channels_change cfg) (channels_change-KeepsBarrier slab cfg) h
            sv.client_manager)
          before)
  handle_frontend_request-HasSides (FrontendRequest.clipboard_to h enable) sv before =
      maybe_told-Exclusive h _ _ (
        kept-Exclusive sv.client_manager _
          (with_client-barriers slab (clipboard_change enable)
            (clipboard_change-KeepsBarrier slab enable) h sv.client_manager)
          before)

  handle_all-HasSides :
      (rs : List FrontendRequest) (sv : Service slab)
      → Exclusive slab sv.client_manager
      → HasSides (handle_all slab rs sv)
  unfolding handle_all
  handle_all-HasSides [] sv before = before
  handle_all-HasSides (r ∷ rs) sv before =
      let one = handle_frontend_request-HasSides r sv before in
      elim (Option-cases (handle_frontend_request slab r sv)) [
        | inl crash ↦ absurd (subst HasSides crash one)
        | inr (sv', done_with) ↦
            rw (done_with, handle_all) (handle_all-HasSides rs sv' (subst HasSides done_with one))
      ]

  activate_all-Exclusive :
      (hs : List ℕ) (sv : Service slab)
      → Exclusive slab sv.client_manager
      → Exclusive slab (activate_all slab hs sv).client_manager
  unfolding activate_all
  activate_all-Exclusive [] sv before = before
  activate_all-Exclusive (h ∷ hs) sv before =
      activate_all-Exclusive hs _ (activate_client-Exclusive slab h sv before)

  -- Whatever clients the configuration holds, and whatever the frontends request about clients from
  -- the start of the service on, the service goes on and no two active clients have the same side and
  -- monitor.
  pub start-handle_all-HasSides :
      (cm : slab.S) (rs : List FrontendRequest)
      → HasSides
          (handle_all slab rs (Handlers.start slab (record { client_manager = cm; log = [] })))
  unfolding Handlers.start
  start-handle_all-HasSides cm rs = handle_all-HasSides rs _ (
      activate_all-Exclusive (active_clients slab cm) _ (λ h q key p r. absurd (
        none-ne-some key (
          sym (
            deactivate_all-barriers slab (active_clients slab cm) cm (active_clients-Holds slab cm)
              h)
          ∙ p))))
