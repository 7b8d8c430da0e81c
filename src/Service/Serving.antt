-- ===== src/Service/Serving.antt =====
-- src/service.rs: the capture requests behind the frontends' requests about clients, served.
use lan_mouse_pro.Common.{
  ℕ, subst, ◌≡◌, refl, sym, ap, ◌∙◌, inl, inr, Bool, true, false, Bool-cases, if◌then◌else◌, Option,
  none, some, Option-cases, List, [], ◌∷◌,
}
use lan_mouse_pro.Capture.Barriers.{Backend, InputCapture}
use lan_mouse_pro.Capture.Run.{Safe-mono}
use lan_mouse_pro.Client.Manager
use lan_mouse_pro.Client.Manager.{
  Entry, with_client, write, key_of, get_state, set_pos, set_monitor, set_fix_ips, set_hostname,
  set_port, set_enter_hook, set_input_channels, set_enable_clipboard_to, update_ips, pos_change,
  monitor_change, port_change, clipboard_change, channels_change,
}
use lan_mouse_pro.Client.Slab.{Slab}
use lan_mouse_pro.Client.Types.{default_config, default_state}
use lan_mouse_pro.Service.Activation.{activate_client-Sound, resolve-Sound}
use lan_mouse_pro.Service.Armed.{
  Sound, Sound-send, Sound-broadcast, Sound-with_clients, deactivate_client-Sound, active-barrier,
  inactive-barrier, absent-barrier,
}
use lan_mouse_pro.Service.Barriers.{serve, barrier_of, Armed, Armed-ArmedBut, After-send, destroyed}
use lan_mouse_pro.Service.Handlers
use lan_mouse_pro.Service.Handlers.{
  Service, Effect, FrontendEvent, with_clients, send, resolve, add_client, set_client_active,
  remove_client, update_fix_ips, update_hostname, update_port, update_pos, update_monitor,
  update_enter_hook, update_input_channels,
}
use lan_mouse_pro.Service.Updates.{
  with_client-barriers, write-barriers, update_ips-barriers, set_hostname-barriers, rebuilt-Sound,
  pos_change-Rebinds, monitor_change-Rebinds, port_change-KeepsBarrier,
  clipboard_change-KeepsBarrier, channels_change-KeepsBarrier,
}
use native.Mathlib.Decide.{ℕ_discrete}
use lan_mouse_pro.Service.Requests.{FrontendRequest, handle_frontend_request, handle_all}

module _ (slab : Slab Entry) {B : Type 0} (backend : Backend B) (start : InputCapture B) where
  -- The service does not panic, and what it has sent is sound.
  abbrev pub IsSafe : Option (Service slab) → Type 0
  IsSafe none = ⊥
  IsSafe (some sv) = Sound slab backend start sv

  -- The clients changed, but not their barriers, and the frontends are told.
  told-Sound :
      (h : ℕ) (cm : slab.S) (sv : Service slab)
      → ((q : ℕ) → barrier_of slab (slab.get q cm) ≡ barrier_of slab (slab.get q sv.client_manager))
      → Sound slab backend start sv
      → Sound slab backend start (Handlers.broadcast_client slab h (with_clients slab cm sv))
  told-Sound h cm sv same before =
      Sound-broadcast slab backend start h _
        (Sound-with_clients slab backend start cm sv same before)

  -- Likewise where the frontends are told of a change only.
  maybe_told-Sound :
      (h : ℕ) (changed : Bool) (cm : slab.S) (sv : Service slab)
      → ((q : ℕ) → barrier_of slab (slab.get q cm) ≡ barrier_of slab (slab.get q sv.client_manager))
      → Sound slab backend start sv
      → Sound slab backend start (
          if changed
          then Handlers.broadcast_client slab h (with_clients slab cm sv)
          else with_clients slab cm sv)
  maybe_told-Sound h true cm sv same before = told-Sound h cm sv same before
  maybe_told-Sound h false cm sv same before =
      Sound-with_clients slab backend start cm sv same before

  add_client-IsSafe :
      (sv : Service slab) → Sound slab backend start sv → IsSafe (add_client slab sv)
  unfolding add_client Manager.add_client get_state serve barrier_of
  add_client-IsSafe sv before =
      let cm = sv.client_manager in
      let v : Entry = (default_config, default_state) in
      rw (slab.get-insert_self v cm, add_client)
        (Sound-send slab backend start _ _ (λ ic. refl)
          (Sound-with_clients slab backend start _ sv
            (λ q. elim (ℕ_discrete (slab.insert v cm).0 q) [
              | yes p ↦ rw (sym p, slab.get-insert_self v cm, slab.insert_vacant v cm) refl
              | no p ↦ ap (barrier_of slab) (slab.get-insert_ne v cm q p)
            ])
            before))

  maybe_resolved-Sound :
      (h : ℕ) (changed : Bool) (sv : Service slab)
      → Sound slab backend start sv
      → Sound slab backend start (if changed then resolve slab h sv else sv)
  maybe_resolved-Sound h true sv before = resolve-Sound slab backend start h sv before
  maybe_resolved-Sound h false sv before = before

  gone-barrier :
      (h : ℕ) (cm : slab.S) → barrier_of slab (slab.get h (slab.try_remove h cm).0) ≡ none
  gone-barrier h cm = absent-barrier slab backend start _ (slab.get-remove_self h cm)

  -- The barrier goes with the client.
  removed-Sound :
      (h : ℕ) (o : Option Entry) (sv : Service slab)
      → slab.get h sv.client_manager ≡ o
      → Sound slab backend start sv
      → let sv' = with_clients slab (slab.try_remove h sv.client_manager).0 sv in
        let was_active : Bool = elim o [ none ↦ false | some e ↦ e.1.active ] in
        Sound slab backend start
          (if was_active then send slab (Effect.destroy_barrier h) sv' else sv')
  unfolding send
  removed-Sound h none sv here before =
      let cm = sv.client_manager in
      Sound-with_clients slab backend start _ sv
        (λ q. elim (ℕ_discrete h q) [
          | yes p ↦ rw (sym p) (gone-barrier h cm ∙ sym (absent-barrier slab backend start _ here))
          | no p ↦ ap (barrier_of slab) (slab.get-remove_ne h q cm p)
        ])
        before
  removed-Sound h (some (c, s)) sv here before =
      let cm = sv.client_manager in
      elim (Bool-cases s.active) [
        | inl on ↦ rw on (
            After-send slab backend start (Armed slab backend start cm) _ (Effect.destroy_barrier h)
              (with_clients slab (slab.try_remove h cm).0 sv) before
              (λ ic armed.
                destroyed slab backend start h _ cm (key_of slab (c, s)) ic
                  (Armed-ArmedBut slab backend start h cm ic armed)
                  (active-barrier slab backend start c s _ here on) (gone-barrier h cm)
                  (λ q p. slab.get-remove_ne h q cm p)))
        | inr off ↦ rw off (
            Sound-with_clients slab backend start _ sv
              (λ q. elim (ℕ_discrete h q) [
                | yes p ↦
                    rw (sym p)
                      (gone-barrier h cm ∙ sym (inactive-barrier slab backend start c s _ here off))
                | no p ↦ ap (barrier_of slab) (slab.get-remove_ne h q cm p)
              ])
              before)
      ]

  remove_client-Sound :
      (h : ℕ) (sv : Service slab)
      → Sound slab backend start sv
      → Sound slab backend start (remove_client slab h sv)
  unfolding remove_client Manager.remove_client serve
  remove_client-Sound h sv before =
      Sound-send slab backend start _ _ (λ ic. refl)
        (rw (slab.removed h sv.client_manager) (removed-Sound h _ sv refl before))

  set_client_active-Sound :
      (h : ℕ) (active : Bool) (sv : Service slab)
      → Sound slab backend start sv
      → Sound slab backend start (set_client_active slab h active sv)
  unfolding set_client_active
  set_client_active-Sound h true sv before = activate_client-Sound slab backend start h sv before
  set_client_active-Sound h false sv before =
      deactivate_client-Sound slab backend start h sv
        (Safe-mono _ _ _ before (Armed-ArmedBut slab backend start h sv.client_manager))

  -- One request: what it sends does not panic, and the barriers stay in step.
  pub handle_frontend_request-IsSafe :
      (r : FrontendRequest) (sv : Service slab)
      → Sound slab backend start sv
      → IsSafe (handle_frontend_request slab r sv)
  unfolding handle_frontend_request update_fix_ips update_hostname update_port update_pos
      update_monitor update_enter_hook update_input_channels Handlers.set_enable_clipboard_to
      set_pos set_monitor set_port set_input_channels set_enable_clipboard_to set_fix_ips
      set_enter_hook barrier_of
  handle_frontend_request-IsSafe (FrontendRequest.activate h active) sv before =
      set_client_active-Sound h active sv before
  handle_frontend_request-IsSafe FrontendRequest.create sv before = add_client-IsSafe sv before
  handle_frontend_request-IsSafe (FrontendRequest.delete h) sv before =
      remove_client-Sound h sv before
  handle_frontend_request-IsSafe (FrontendRequest.new_fix_ips h ips) sv before =
      told-Sound h _ sv
        (λ q.
          update_ips-barriers slab h _ q
          ∙ write-barriers slab (λ e. (record e.0 { fix_ips = ips }, e.1)) (λ e. refl) h
              sv.client_manager q)
        before
  handle_frontend_request-IsSafe (FrontendRequest.new_hostname h host) sv before =
      Sound-broadcast slab backend start h _ (
        maybe_resolved-Sound h _ _ (
          Sound-with_clients slab backend start _ sv
            (set_hostname-barriers slab h host sv.client_manager) before))
  handle_frontend_request-IsSafe (FrontendRequest.new_port h port) sv before =
      told-Sound h _ sv
        (with_client-barriers slab (port_change port) (port_change-KeepsBarrier slab port) h
          sv.client_manager)
        before
  handle_frontend_request-IsSafe (FrontendRequest.new_position h pos) sv before =
      Sound-broadcast slab backend start h _
        (rebuilt-Sound slab backend start (pos_change pos) (pos_change-Rebinds pos) h sv before)
  handle_frontend_request-IsSafe (FrontendRequest.new_monitor h monitor) sv before =
      Sound-broadcast slab backend start h _ (
        rebuilt-Sound slab backend start (monitor_change monitor) (monitor_change-Rebinds monitor) h
          sv before)
  handle_frontend_request-IsSafe (FrontendRequest.resolve_dns h) sv before =
      resolve-Sound slab backend start h sv before
  handle_frontend_request-IsSafe (FrontendRequest.new_enter_hook h hook) sv before =
      told-Sound h _ sv
        (write-barriers slab (λ e. (record e.0 { cmd = hook }, e.1)) (λ e. refl) h
          sv.client_manager)
        before
  handle_frontend_request-IsSafe (FrontendRequest.client_input_channels h cfg) sv before =
      maybe_told-Sound h _ _ sv
        (with_client-barriers slab (channels_change cfg) (channels_change-KeepsBarrier slab cfg) h
          sv.client_manager)
        before
  handle_frontend_request-IsSafe (FrontendRequest.clipboard_to h enable) sv before =
      maybe_told-Sound h _ _ sv
        (with_client-barriers slab (clipboard_change enable)
          (clipboard_change-KeepsBarrier slab enable) h sv.client_manager)
        before

  -- From a service whose barriers are in step with its active clients on, whatever the frontends
  -- request about clients, the service does not panic, nor does the capture task while it serves
  -- what the service sends; and unless the capture backend fails, the barriers are then those of the
  -- active clients, each on its side and monitor.
  pub handle_all-IsSafe :
      (rs : List FrontendRequest) (sv : Service slab)
      → Sound slab backend start sv
      → IsSafe (handle_all slab rs sv)
  unfolding handle_all
  handle_all-IsSafe [] sv before = before
  handle_all-IsSafe (r ∷ rs) sv before =
      let safe = handle_frontend_request-IsSafe r sv before in
      elim (Option-cases (handle_frontend_request slab r sv)) [
        | inl crash ↦ absurd (subst IsSafe crash safe)
        | inr (sv', done_with) ↦
            rw (done_with, handle_all) (handle_all-IsSafe rs sv' (subst IsSafe done_with safe))
      ]
