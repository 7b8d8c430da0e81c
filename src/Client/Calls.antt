-- ===== src/Client/Calls.antt =====
-- The calls of src/client.rs that change the clients, as one step: `set_config` and `set_state`
-- stand only inside `add_with_config`.
use lan_mouse_pro.Common.{ℕ, Bool, Option, List, [], ◌∷◌}
use lan_mouse_pro.Client.Manager.{
  Entry, add_client, add_with_config, activate_client, deactivate_client, remove_client,
  set_fix_ips, set_dns_ips, set_hostname, set_port, set_pos, set_monitor, set_enable_clipboard_to,
  set_enter_hook, set_input_channels, set_resolving, set_active_addr, set_peer_commit,
}
use lan_mouse_pro.Client.Slab.{Slab}
use lan_mouse_pro.Client.Types.{ConfigClient, IpAddr, SocketAddr, Position, InputChannelConfig}

pub data Call : Type 0 where
  add : Call
  add_with : ConfigClient → Call
  activate deactivate remove : ℕ → Call
  fix_ips dns_ips : ℕ → List IpAddr → Call
  hostname monitor enter_hook peer_commit : ℕ → Option (List ℕ) → Call
  port : ℕ → ℕ → Call
  pos : ℕ → Position → Call
  enable_clipboard_to resolving : ℕ → Bool → Call
  channels : ℕ → InputChannelConfig → Call
  address : ℕ → Option SocketAddr → Call

module _ (slab : Slab Entry) where
  unfoldable pub call : Call → slab.S → slab.S
  call Call.add cm = (add_client slab cm).1
  call (Call.add_with config) cm = (add_with_config slab config cm).1
  call (Call.activate h) cm = (activate_client slab h cm).0
  call (Call.deactivate h) cm = (deactivate_client slab h cm).0
  call (Call.remove h) cm = (remove_client slab h cm).0
  call (Call.fix_ips h ips) cm = set_fix_ips slab h ips cm
  call (Call.dns_ips h ips) cm = set_dns_ips slab h ips cm
  call (Call.hostname h name) cm = (set_hostname slab h name cm).0
  call (Call.monitor h name) cm = (set_monitor slab h name cm).0
  call (Call.enter_hook h hook) cm = set_enter_hook slab h hook cm
  call (Call.peer_commit h commit) cm = set_peer_commit slab h commit cm
  call (Call.port h new) cm = set_port slab h new cm
  call (Call.pos h new) cm = (set_pos slab h new cm).0
  call (Call.enable_clipboard_to h enable) cm = (set_enable_clipboard_to slab h enable cm).0
  call (Call.resolving h status) cm = set_resolving slab h status cm
  call (Call.channels h cfg) cm = (set_input_channels slab h cfg cm).0
  call (Call.address h addr) cm = set_active_addr slab h addr cm

  unfoldable pub calls : List Call → slab.S → slab.S
  unfolding call
  calls [] cm = cm
  calls (c ∷ cs) cm = calls cs (call c cm)
