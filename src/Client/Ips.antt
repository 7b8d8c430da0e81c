-- ===== src/Client/Ips.antt =====
-- src/client.rs: the `ips` of the clients under the calls of the manager.
use lan_mouse_pro.Common.{
  ℕ, subst, ◌≡◌, ◌≢◌, refl, sym, ap, ◌∙◌, inl, inr, true, Bool-cases, Option, some, List, [], ◌∷◌,
  append-nil,
}
use lan_mouse_pro.Client.Slab.{Slab}
use lan_mouse_pro.Client.Types.{ConfigClient, default_config, default_state}
use lan_mouse_pro.Client.Manager.{
  Entry, Arm, with_client, update_ips, refreshed, set_hostname, activation, deactivation,
  port_change, pos_change, monitor_change, clipboard_change, channels_change, write,
  add_with_config, add_client, set_config, set_state, activate_client, deactivate_client,
  remove_client, set_port, set_pos, set_monitor, set_enable_clipboard_to, set_enter_hook,
  set_input_channels, set_resolving, set_active_addr, set_peer_commit, set_fix_ips, set_dns_ips,
  hostname_change, from_iter,
}
use lan_mouse_pro.Client.Calls.{Call, call, calls}
use lan_mouse_pro.Client.View.{
  get-with_client_ne, get-with_client, get-add_with_config, state_of, config_of,
  with_client_unchanged,
}
use mathlib.Core.Option.{none-ne-some, some-injective}
use native.Mathlib.Decide.{ℕ_discrete}
use lan_mouse_pro.Client.Joined.{
  IsJoined, Keeps, stepped-IsJoined, refreshed-IsJoined, hostname_change-true, activation-Keeps,
  deactivation-Keeps, port_change-Keeps, pos_change-Keeps, monitor_change-Keeps,
  clipboard_change-Keeps, channels_change-Keeps,
}

module _ (slab : Slab Entry) where
  abbrev pub AllJoined : slab.S → Type 0
  AllJoined cm = (handle : ℕ) (e : Entry) → slab.get handle cm ≡ some e → IsJoined e

  abbrev OthersJoined : ℕ → slab.S → Type 0
  OthersJoined h cm =
      (handle : ℕ) (e : Entry) → h ≢ handle → slab.get handle cm ≡ some e → IsJoined e

  with_client-AllJoined :
      (arm : Arm)
      → Keeps arm
      → (h : ℕ) (cm : slab.S) → AllJoined cm
      → AllJoined (with_client slab arm h cm).0
  with_client-AllJoined arm keeps h cm before handle e here =
      elim (get-with_client slab arm h cm handle e here) [
        | inl (p, after) ↦ stepped-IsJoined arm keeps (slab.get h cm) (before h) e after
        | inr (p, after) ↦ before handle e after
      ]

  with_client-OthersJoined :
      (arm : Arm) (h : ℕ) (cm : slab.S)
      → OthersJoined h cm
      → OthersJoined h (with_client slab arm h cm).0
  with_client-OthersJoined arm h cm before handle e p here =
      before handle e p (sym (get-with_client_ne slab arm h cm handle p) ∙ here)

  update_ips-AllJoined :
      (h : ℕ) (cm : slab.S) → OthersJoined h cm → AllJoined (update_ips slab h cm)
  unfolding update_ips
  update_ips-AllJoined h cm before handle e here =
      elim (get-with_client slab (λ e. some (refreshed e, true)) h cm handle e here) [
        | inl (p, after) ↦ refreshed-IsJoined (slab.get h cm) e after
        | inr (p, after) ↦ before handle e p after
      ]

  -- A write that breaks the ips, and the update behind it.
  rewritten-AllJoined :
      (arm : Arm) (h : ℕ) (cm : slab.S)
      → AllJoined cm
      → AllJoined (update_ips slab h (with_client slab arm h cm).0)
  rewritten-AllJoined arm h cm before =
      update_ips-AllJoined h (with_client slab arm h cm).0
        (with_client-OthersJoined arm h cm (λ handle e _. before handle e))

  set_hostname-AllJoined :
      (h : ℕ) (name : Option (List ℕ)) (cm : slab.S)
      → AllJoined cm
      → AllJoined (set_hostname slab h name cm).0
  unfolding set_hostname
  set_hostname-AllJoined h name cm before =
      elim (Bool-cases (with_client slab (hostname_change name) h cm).1) [
        | inl changed ↦ rw changed (rewritten-AllJoined (hostname_change name) h cm before)
        | inr same ↦
            rw
              (
                same,
                with_client_unchanged slab (hostname_change name) h cm (hostname_change-true name)
                    same,
              )
              before
      ]

  insert-AllJoined :
      (v : Entry) (cm : slab.S) → IsJoined v → AllJoined cm → AllJoined (slab.insert v cm).1
  insert-AllJoined v cm joined before handle e here =
      elim (ℕ_discrete (slab.insert v cm).0 handle) [
        | yes p ↦
            rw
              (sym (
                some-injective v e (
                  sym (slab.get-insert_self v cm)
                  ∙ subst (λ k. slab.get k (slab.insert v cm).1 ≡ some e) (sym p) here)))
              joined
        | no p ↦ before handle e (sym (slab.get-insert_ne v cm handle p) ∙ here)
      ]

  remove-AllJoined : (h : ℕ) (cm : slab.S) → AllJoined cm → AllJoined (slab.try_remove h cm).0
  remove-AllJoined h cm before handle e here = elim (ℕ_discrete h handle) [
    | yes p ↦ absurd (
        none-ne-some e (
          sym (slab.get-remove_self h cm)
          ∙ subst (λ k. slab.get k (slab.try_remove h cm).0 ≡ some e) (sym p) here))
    | no p ↦ before handle e (sym (slab.get-remove_ne h handle cm p) ∙ here)
  ]

  write-AllJoined :
      (f : Entry → Entry)
      → ((e : Entry) → IsJoined e → IsJoined (f e))
      → (h : ℕ) (cm : slab.S) → AllJoined cm
      → AllJoined (write slab f h cm)
  write-AllJoined f keeps h cm before =
      with_client-AllJoined (λ e. some (f e, true))
        (λ e r h' joined. rw (sym (some-injective (f e, true) r h')) (keeps e joined)) h cm before

  add_with_config-AllJoined :
      (config : ConfigClient) (cm : slab.S)
      → AllJoined cm
      → AllJoined (add_with_config slab config cm).1
  unfolding add_with_config add_client set_config set_state
  add_with_config-AllJoined config cm before handle e here =
      elim (ℕ_discrete (add_client slab cm).0 handle) [
        | yes p ↦
            rw
              (sym (
                some-injective _ e (
                  sym (get-add_with_config slab config cm)
                  ∙ subst (λ k. slab.get k (add_with_config slab config cm).1 ≡ some e) (sym p)
                      here)))
              (ap from_iter (sym (append-nil config.ips)))
        | no p ↦
            with_client-OthersJoined (λ e. some ((e.0, state_of slab config), true)) _ _
              (with_client-OthersJoined (λ e. some ((config_of slab config, e.1), true)) _ _
                (λ k old q found. before k old (sym (slab.get-insert_ne _ cm k q) ∙ found)))
              handle e p here
      ]

  pub call-AllJoined : (c : Call) (cm : slab.S) → AllJoined cm → AllJoined (call slab c cm)
  unfolding call add_client activate_client deactivate_client remove_client set_port set_pos
      set_monitor set_enable_clipboard_to set_enter_hook set_input_channels set_resolving
      set_active_addr set_peer_commit set_fix_ips set_dns_ips from_iter
  call-AllJoined Call.add cm before =
      insert-AllJoined (default_config, default_state) cm refl before
  call-AllJoined (Call.add_with config) cm before = add_with_config-AllJoined config cm before
  call-AllJoined (Call.activate h) cm before =
      with_client-AllJoined activation activation-Keeps h cm before
  call-AllJoined (Call.deactivate h) cm before =
      with_client-AllJoined deactivation deactivation-Keeps h cm before
  call-AllJoined (Call.remove h) cm before = remove-AllJoined h cm before
  call-AllJoined (Call.fix_ips h ips) cm before =
      rewritten-AllJoined (λ e. some ((record e.0 { fix_ips = ips }, e.1), true)) h cm before
  call-AllJoined (Call.dns_ips h ips) cm before =
      rewritten-AllJoined (λ e. some ((e.0, record e.1 { dns_ips = ips }), true)) h cm before
  call-AllJoined (Call.hostname h name) cm before = set_hostname-AllJoined h name cm before
  call-AllJoined (Call.monitor h name) cm before =
      with_client-AllJoined (monitor_change name) (monitor_change-Keeps name) h cm before
  call-AllJoined (Call.enter_hook h hook) cm before =
      write-AllJoined (λ e. (record e.0 { cmd = hook }, e.1)) (λ e joined. joined) h cm before
  call-AllJoined (Call.peer_commit h commit) cm before =
      write-AllJoined (λ e. (e.0, record e.1 { peer_commit = commit })) (λ e joined. joined) h cm
        before
  call-AllJoined (Call.port h new) cm before =
      with_client-AllJoined (port_change new) (port_change-Keeps new) h cm before
  call-AllJoined (Call.pos h new) cm before =
      with_client-AllJoined (pos_change new) (pos_change-Keeps new) h cm before
  call-AllJoined (Call.enable_clipboard_to h enable) cm before =
      with_client-AllJoined (clipboard_change enable) (clipboard_change-Keeps enable) h cm before
  call-AllJoined (Call.resolving h status) cm before =
      write-AllJoined (λ e. (e.0, record e.1 { resolving = status })) (λ e joined. joined) h cm
        before
  call-AllJoined (Call.channels h cfg) cm before =
      with_client-AllJoined (channels_change cfg) (channels_change-Keeps cfg) h cm before
  call-AllJoined (Call.address h addr) cm before =
      write-AllJoined (λ e. (e.0, record e.1 { active_addr = addr })) (λ e joined. joined) h cm
        before

  pub calls-AllJoined_from :
      (cs : List Call) (cm : slab.S) → AllJoined cm → AllJoined (calls slab cs cm)
  unfolding calls
  calls-AllJoined_from [] cm before = before
  calls-AllJoined_from (c ∷ cs) cm before =
      calls-AllJoined_from cs (call slab c cm) (call-AllJoined c cm before)

  -- From the empty manager on.
  pub calls-AllJoined : (cs : List Call) → AllJoined (calls slab cs slab.empty)
  calls-AllJoined cs =
      calls-AllJoined_from cs slab.empty
        (λ handle e here. absurd (none-ne-some e (sym (slab.get-empty handle) ∙ here)))
