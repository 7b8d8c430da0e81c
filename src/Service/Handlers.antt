-- ===== src/Service/Handlers.antt =====
-- `Service`, src/service.rs: the handlers of the frontend's requests about clients. The state is the
-- client manager with a log of what the service sends: requests to the capture task, to the DNS
-- resolver and events to the frontends, in the order in which they are sent. `save_config`, which
-- writes the configuration file, is left out.
use lan_mouse_pro.Common.{ℕ, Bool, false, if◌then◌else◌, Option, none, some, List, [], ◌∷◌, ◌++◌}
use lan_mouse_pro.Client.Slab.{Slab}
use lan_mouse_pro.Client.Types.{Position, IpAddr, BarrierKey, InputChannelConfig}
use lan_mouse_pro.Client.Manager
use lan_mouse_pro.Client.Manager.{
  Entry, get_hostname, get_key, get_state, client_at, active_clients, set_pos, set_monitor,
  set_fix_ips, set_hostname, set_port, set_enter_hook, set_input_channels,
}
use mathlib.Core.Logic.{ite}
use native.Mathlib.Decide.{ℕ_discrete}

pub data FrontendEvent : Type 0 where
  created : ℕ → Entry → FrontendEvent
  no_such_client : ℕ → FrontendEvent
  state : ℕ → Entry → FrontendEvent
  deleted : ℕ → FrontendEvent
  binding_invalid : ℕ → List ℕ → FrontendEvent

-- The barriers and `dial` go to the capture task, `resolve_host` to the resolver.
pub data Effect : Type 0 where
  create_barrier : ℕ → BarrierKey → Effect
  destroy_barrier : ℕ → Effect
  dial : ℕ → Effect
  resolve_host : ℕ → List ℕ → Effect
  notify : FrontendEvent → Effect

module _ (slab : Slab Entry) where
  pub record Service : Type 0 where
    pub client_manager : slab.S
    pub log : List Effect

  unfoldable pub send : Effect → Service → Service
  send effect sv = record sv { log = sv.log ++ (effect ∷ []) }

  abbrev pub with_clients : slab.S → Service → Service
  with_clients cm sv = record sv { client_manager = cm }

  unfoldable pub resolve : ℕ → Service → Service
  unfolding send
  resolve handle sv = elim (get_hostname slab handle sv.client_manager) [
    | none ↦ sv
    | some hostname ↦ send (Effect.resolve_host handle hostname) sv
  ]

  unfoldable pub broadcast_client : ℕ → Service → Service
  unfolding send
  broadcast_client handle sv = elim (get_state slab handle sv.client_manager) [
    | none ↦ send (Effect.notify (FrontendEvent.no_such_client handle)) sv
    | some e ↦ send (Effect.notify (FrontendEvent.state handle e)) sv
  ]

  -- `None` is the panic of `get_state(handle).unwrap()`.
  unfoldable pub add_client : Service → Option Service
  unfolding send
  add_client sv =
      let added = Manager.add_client slab sv.client_manager in
      elim (get_state slab added.0 added.1) [
        | none ↦ none
        | some e ↦
            some (send (Effect.notify (FrontendEvent.created added.0 e)) (with_clients added.1 sv))
      ]

  unfoldable pub deactivate_client : ℕ → Service → Service
  unfolding send broadcast_client
  deactivate_client handle sv =
      let r = Manager.deactivate_client slab handle sv.client_manager in
      let sv' = with_clients r.0 sv in
      if r.1 then broadcast_client handle (send (Effect.destroy_barrier handle) sv') else sv'

  -- `deactivate potential other client at this BarrierKey`.
  unfoldable pub make_room : BarrierKey → ℕ → Service → Service
  unfolding deactivate_client
  make_room key handle sv = elim (client_at slab key sv.client_manager) [
    | none ↦ sv
    | some other ↦ ite (ℕ_discrete other handle) sv (deactivate_client other sv)
  ]

  -- From `activate the client` on.
  unfoldable pub arm_client : BarrierKey → ℕ → Service → Service
  unfolding send broadcast_client
  arm_client key handle sv =
      let r = Manager.activate_client slab handle sv.client_manager in
      let sv' = with_clients r.0 sv in
      if r.1
      then send (Effect.dial handle)
          (broadcast_client handle (send (Effect.create_barrier handle key) sv'))
      else sv'

  unfoldable pub activate_client : ℕ → Service → Service
  unfolding resolve make_room arm_client
  activate_client handle sv =
      let resolved = resolve handle sv in
      elim (get_key slab handle resolved.client_manager) [
        | none ↦ resolved
        | some key ↦ arm_client key handle (make_room key handle resolved)
      ]

  unfoldable pub set_client_active : ℕ → Bool → Service → Service
  unfolding activate_client deactivate_client
  set_client_active handle active sv =
      if active then activate_client handle sv else deactivate_client handle sv

  unfoldable pub deactivate_all : List ℕ → slab.S → slab.S
  deactivate_all [] cm = cm
  deactivate_all (h ∷ hs) cm = deactivate_all hs (Manager.deactivate_client slab h cm).0

  unfoldable pub activate_all : List ℕ → Service → Service
  unfolding activate_client
  activate_all [] sv = sv
  activate_all (h ∷ hs) sv = activate_all hs (activate_client h sv)

  -- The start of `run`.
  unfoldable pub start : Service → Service
  unfolding deactivate_all activate_all
  start sv =
      let active = active_clients slab sv.client_manager in
      activate_all active (with_clients (deactivate_all active sv.client_manager) sv)

  unfoldable pub remove_client : ℕ → Service → Service
  unfolding send
  remove_client handle sv =
      let r = Manager.remove_client slab handle sv.client_manager in
      let sv' = with_clients r.0 sv in
      let was_active : Bool = elim r.1 [ none ↦ false | some e ↦ e.1.active ] in
      send (Effect.notify (FrontendEvent.deleted handle))
        (if was_active then send (Effect.destroy_barrier handle) sv' else sv')

  unfoldable pub update_fix_ips : ℕ → List IpAddr → Service → Service
  unfolding broadcast_client
  update_fix_ips handle fix_ips sv =
      broadcast_client handle (with_clients (set_fix_ips slab handle fix_ips sv.client_manager) sv)

  unfoldable pub update_hostname : ℕ → Option (List ℕ) → Service → Service
  unfolding broadcast_client resolve
  update_hostname handle hostname sv =
      let r = set_hostname slab handle hostname sv.client_manager in
      let sv' = with_clients r.0 sv in
      broadcast_client handle (if r.1 then resolve handle sv' else sv')

  unfoldable pub update_port : ℕ → ℕ → Service → Service
  unfolding broadcast_client
  update_port handle port sv =
      broadcast_client handle (with_clients (set_port slab handle port sv.client_manager) sv)

  -- Deactivated and activated again where a change of the barrier is required.
  unfoldable pub rebuilt : ℕ → Bool → Service → Service
  unfolding activate_client deactivate_client
  rebuilt handle required sv =
      if required then activate_client handle (deactivate_client handle sv) else sv

  unfoldable pub update_pos : ℕ → Position → Service → Service
  unfolding broadcast_client rebuilt
  update_pos handle pos sv =
      let r = set_pos slab handle pos sv.client_manager in
      broadcast_client handle (rebuilt handle r.1 (with_clients r.0 sv))

  unfoldable pub update_monitor : ℕ → Option (List ℕ) → Service → Service
  unfolding broadcast_client rebuilt
  update_monitor handle monitor sv =
      let r = set_monitor slab handle monitor sv.client_manager in
      broadcast_client handle (rebuilt handle r.1 (with_clients r.0 sv))

  unfoldable pub update_enter_hook : ℕ → Option (List ℕ) → Service → Service
  unfolding broadcast_client
  update_enter_hook handle enter_hook sv =
      broadcast_client handle
        (with_clients (set_enter_hook slab handle enter_hook sv.client_manager) sv)

  unfoldable pub update_input_channels : ℕ → InputChannelConfig → Service → Service
  unfolding broadcast_client
  update_input_channels handle cfg sv =
      let r = set_input_channels slab handle cfg sv.client_manager in
      let sv' = with_clients r.0 sv in if r.1 then broadcast_client handle sv' else sv'

  unfoldable pub set_enable_clipboard_to : ℕ → Bool → Service → Service
  unfolding broadcast_client
  set_enable_clipboard_to handle enable sv =
      let r = Manager.set_enable_clipboard_to slab handle enable sv.client_manager in
      let sv' = with_clients r.0 sv in if r.1 then broadcast_client handle sv' else sv'

  unfoldable pub detach_capture : ℕ → List ℕ → Service → Service
  unfolding send
  detach_capture handle reason sv =
      send (Effect.notify (FrontendEvent.binding_invalid handle reason))
        (send (Effect.destroy_barrier handle) sv)

  unfoldable pub reattach_capture : ℕ → Service → Service
  unfolding send broadcast_client
  reattach_capture handle sv = elim (get_key slab handle sv.client_manager) [
    | none ↦ sv
    | some key ↦ broadcast_client handle (send (Effect.create_barrier handle key) sv)
  ]
