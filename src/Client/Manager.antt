-- ===== src/Client/Manager.antt =====
-- `ClientManager`, src/client.rs: one definition for each method. The clients are a slab; a method
-- that writes answers the new slab beside its result. `handle as usize` is the identity.
use lan_mouse_pro.Common.{
  ℕ, Bool, true, false, ◌&&◌, if◌then◌else◌, Option, none, some, List, [], ◌∷◌, ◌++◌, map,
}
use lan_mouse_pro.Client.Slab.{Slab}
use lan_mouse_pro.Client.Types.{
  Position, to_capture_pos, to_ipc_pos, IpAddr, SocketAddr, InputChannelConfig, ClientConfig,
  default_config, ClientState, default_state, ConfigClient, BarrierKey, IpAddr-discrete,
  Position-discrete, text-discrete, InputChannelConfig-discrete, Bool-discrete,
}
use mathlib.Core.Logic.{ite}
use mathlib.Core.Option
use native.Mathlib.Decide.{ℕ_discrete}

-- `HashSet::contains`.
unfoldable pub contains : IpAddr → List IpAddr → Bool
contains ip [] = false
contains ip (x ∷ xs) = ite (IpAddr-discrete x ip) true (contains ip xs)

-- `HashSet::from_iter`.
unfoldable pub from_iter : List IpAddr → List IpAddr
unfolding contains
from_iter [] = []
from_iter (ip ∷ ips) = let rest = from_iter ips in if contains ip rest then rest else ip ∷ rest

abbrev pub Entry : Type 0
Entry = ClientConfig × ClientState

-- `find_map` with a test.
unfoldable pub find_key : (Entry → Bool) → List (ℕ × Entry) → Option ℕ
find_key test [] = none
find_key test (e ∷ es) = if test e.1 then some e.0 else find_key test es

unfoldable pub filter_keys : (Entry → Bool) → List (ℕ × Entry) → List ℕ
filter_keys test [] = []
filter_keys test (e ∷ es) = let rest = filter_keys test es in if test e.1 then e.0 ∷ rest else rest

abbrev pub joined_ips : Entry → List IpAddr
joined_ips e = from_iter (e.0.fix_ips ++ e.1.dns_ips)

abbrev pub refreshed : Entry → Entry
refreshed e = (e.0, record e.1 { ips = joined_ips e })

-- What a method does to the client that `get_mut` finds: nothing where a guard fails, else the
-- client's new value and the method's answer.
abbrev pub Arm : Type 0
Arm = Entry → Option (Entry × Bool)

unfoldable pub activation : Arm
activation (c, s) = if s.active then none else some ((c, record s { active = true }), true)

unfoldable pub deactivation : Arm
deactivation (c, s) = if s.active then some ((c, record s { active = false }), true) else none

unfoldable pub hostname_change : Option (List ℕ) → Arm
hostname_change hostname (c, s) =
    ite (text-discrete c.hostname hostname) none (
      some
        ((record c { hostname = hostname }, record s { active_addr = none; dns_ips = [] }), true))

-- `SocketAddr::new(a.ip(), port)`.
abbrev pub with_port : ℕ → SocketAddr → SocketAddr
with_port port a = record { ip = a.ip; port = port }

unfoldable pub port_change : ℕ → Arm
port_change port (c, s) = ite (ℕ_discrete c.port port) none (
    some (
      (
        record c { port = port },
        record s { active_addr = Option.map (with_port port) s.active_addr },
      ),
      true,
    ))

unfoldable pub pos_change : Position → Arm
pos_change pos (c, s) =
    ite (Position-discrete c.pos pos) none (some ((record c { pos = pos }, s), s.active))

unfoldable pub monitor_change : Option (List ℕ) → Arm
monitor_change monitor (c, s) =
    ite (text-discrete c.monitor monitor) none
      (some ((record c { monitor = monitor }, s), s.active))

unfoldable pub clipboard_change : Bool → Arm
clipboard_change enable (c, s) =
    ite (Bool-discrete c.enable_clipboard_to enable) none
      (some ((record c { enable_clipboard_to = enable }, s), s.active))

unfoldable pub channels_change : InputChannelConfig → Arm
channels_change cfg (c, s) =
    ite (InputChannelConfig-discrete c.input_channels cfg) none
      (some ((record c { input_channels = cfg }, s), true))

module _ (slab : Slab Entry) where
  abbrev pub ClientManager : Type 0
  ClientManager = slab.S

  unfoldable pub with_client : Arm → ℕ → ClientManager → ClientManager × Bool
  with_client arm handle cm = elim (slab.get handle cm) [
    | none ↦ (cm, false)
    | some e ↦ elim (arm e) [
      | none ↦ (cm, false)
      | some (e', answer) ↦ (slab.set handle e' cm, answer)
    ]
  ]

  -- A write without a guard.
  abbrev pub write : (Entry → Entry) → ℕ → ClientManager → ClientManager
  write f handle cm = (with_client (λ e. some (f e, true)) handle cm).0

  unfoldable pub clients : ClientManager → List Entry
  clients cm = map (λ e. e.1) (slab.iter cm)

  unfoldable pub add_client : ClientManager → ℕ × ClientManager
  add_client cm = slab.insert (default_config, default_state) cm

  unfoldable pub set_config : ℕ → ClientConfig → ClientManager → ClientManager
  unfolding with_client
  set_config handle config cm = write (λ e. (config, e.1)) handle cm

  unfoldable pub set_state : ℕ → ClientState → ClientManager → ClientManager
  unfolding with_client
  set_state handle state cm = write (λ e. (e.0, state)) handle cm

  unfoldable pub add_with_config : ConfigClient → ClientManager → ℕ × ClientManager
  unfolding from_iter add_client set_config set_state
  add_with_config cc cm =
      let config : ClientConfig = record {
        hostname = cc.hostname;
        fix_ips = cc.ips;
        port = cc.port;
        pos = cc.pos;
        cmd = cc.enter_hook;
        input_channels = cc.input_channels;
        monitor = cc.monitor;
        enable_clipboard_to = cc.enable_clipboard_to;
      } in
      let state : ClientState = record default_state {
        active = cc.active;
        ips = from_iter config.fix_ips;
      } in
      let added = add_client cm in
      (added.0, set_state added.0 state (set_config added.0 config added.1))

  unfoldable pub activate_client : ℕ → ClientManager → ClientManager × Bool
  unfolding with_client activation
  activate_client handle cm = with_client activation handle cm

  unfoldable pub deactivate_client : ℕ → ClientManager → ClientManager × Bool
  unfolding with_client deactivation
  deactivate_client handle cm = with_client deactivation handle cm

  unfoldable pub get_client : SocketAddr → ClientManager → Option ℕ
  unfolding find_key contains
  get_client addr cm = find_key (λ e. e.1.active && contains addr.ip e.1.ips) (slab.iter cm)

  unfoldable pub client_at : BarrierKey → ClientManager → Option ℕ
  unfolding find_key to_ipc_pos
  client_at key cm =
      let pos = to_ipc_pos key.pos in
      find_key
        (λ e.
          e.1.active
          && (ite (Position-discrete e.0.pos pos) true false
              && ite (text-discrete e.0.monitor key.monitor) true false))
        (slab.iter cm)

  unfoldable pub get_state : ℕ → ClientManager → Option Entry
  get_state handle cm = slab.get handle cm

  unfoldable pub get_hostname : ℕ → ClientManager → Option (List ℕ)
  get_hostname handle cm = elim (slab.get handle cm) [ none ↦ none | some e ↦ e.0.hostname ]

  abbrev pub key_of : Entry → BarrierKey
  key_of e = record {
    pos = to_capture_pos e.0.pos;
    monitor = e.0.monitor;
    offset = 0;
    span = 10000;
  }

  unfoldable pub get_key : ℕ → ClientManager → Option BarrierKey
  get_key handle cm = Option.map key_of (slab.get handle cm)

  unfoldable pub remove_client : ℕ → ClientManager → ClientManager × Option Entry
  remove_client handle cm = slab.try_remove handle cm

  unfoldable pub get_client_states : ClientManager → List (ℕ × Entry)
  get_client_states cm = slab.iter cm

  unfoldable pub update_ips : ℕ → ClientManager → ClientManager
  unfolding with_client
  update_ips handle cm = write refreshed handle cm

  unfoldable pub set_fix_ips : ℕ → List IpAddr → ClientManager → ClientManager
  unfolding with_client update_ips
  set_fix_ips handle fix_ips cm =
      update_ips handle (write (λ e. (record e.0 { fix_ips = fix_ips }, e.1)) handle cm)

  unfoldable pub set_dns_ips : ℕ → List IpAddr → ClientManager → ClientManager
  unfolding with_client update_ips
  set_dns_ips handle dns_ips cm =
      update_ips handle (write (λ e. (e.0, record e.1 { dns_ips = dns_ips })) handle cm)

  unfoldable pub set_hostname : ℕ → Option (List ℕ) → ClientManager → ClientManager × Bool
  unfolding with_client hostname_change update_ips
  set_hostname handle hostname cm =
      let (cm', changed) = with_client (hostname_change hostname) handle cm in
      if changed then (update_ips handle cm', true) else (cm', false)

  unfoldable pub set_port : ℕ → ℕ → ClientManager → ClientManager
  unfolding with_client port_change
  set_port handle port cm = (with_client (port_change port) handle cm).0

  unfoldable pub set_pos : ℕ → Position → ClientManager → ClientManager × Bool
  unfolding with_client pos_change
  set_pos handle pos cm = with_client (pos_change pos) handle cm

  unfoldable pub set_monitor : ℕ → Option (List ℕ) → ClientManager → ClientManager × Bool
  unfolding with_client monitor_change
  set_monitor handle monitor cm = with_client (monitor_change monitor) handle cm

  unfoldable pub set_enable_clipboard_to : ℕ → Bool → ClientManager → ClientManager × Bool
  unfolding with_client clipboard_change
  set_enable_clipboard_to handle enable cm = with_client (clipboard_change enable) handle cm

  unfoldable pub set_enter_hook : ℕ → Option (List ℕ) → ClientManager → ClientManager
  unfolding with_client
  set_enter_hook handle enter_hook cm =
      write (λ e. (record e.0 { cmd = enter_hook }, e.1)) handle cm

  unfoldable pub set_input_channels : ℕ → InputChannelConfig → ClientManager → ClientManager × Bool
  unfolding with_client channels_change
  set_input_channels handle cfg cm = with_client (channels_change cfg) handle cm

  unfoldable pub set_resolving : ℕ → Bool → ClientManager → ClientManager
  unfolding with_client
  set_resolving handle status cm = write (λ e. (e.0, record e.1 { resolving = status })) handle cm

  unfoldable pub get_enter_cmd : ℕ → ClientManager → Option (List ℕ)
  get_enter_cmd handle cm = elim (slab.get handle cm) [ none ↦ none | some e ↦ e.0.cmd ]

  unfoldable pub registered_clients : ClientManager → List ℕ
  registered_clients cm = map (λ e. e.0) (slab.iter cm)

  unfoldable pub active_clients : ClientManager → List ℕ
  unfolding filter_keys
  active_clients cm = filter_keys (λ e. e.1.active) (slab.iter cm)

  unfoldable pub set_active_addr : ℕ → Option SocketAddr → ClientManager → ClientManager
  unfolding with_client
  set_active_addr handle addr cm = write (λ e. (e.0, record e.1 { active_addr = addr })) handle cm

  unfoldable pub set_peer_commit : ℕ → Option (List ℕ) → ClientManager → ClientManager
  unfolding with_client
  set_peer_commit handle commit cm =
      write (λ e. (e.0, record e.1 { peer_commit = commit })) handle cm

  unfoldable pub active_addr : ℕ → ClientManager → Option SocketAddr
  active_addr handle cm = elim (slab.get handle cm) [ none ↦ none | some e ↦ e.1.active_addr ]

  unfoldable pub get_port : ℕ → ClientManager → Option ℕ
  get_port handle cm = Option.map (λ e. e.0.port) (slab.get handle cm)

  unfoldable pub get_ips : ℕ → ClientManager → Option (List IpAddr)
  get_ips handle cm = Option.map (λ e. e.1.ips) (slab.get handle cm)

  unfoldable pub input_channels : ℕ → ClientManager → Option InputChannelConfig
  input_channels handle cm = Option.map (λ e. e.0.input_channels) (slab.get handle cm)
