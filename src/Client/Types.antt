-- ===== src/Client/Types.antt =====
-- The data of a client: lan-mouse-ipc/src/lib.rs (ClientConfig, ClientState and what they hold),
-- src/config.rs (ConfigClient) and input-capture/src (Position, BarrierKey). A `String` is a list of
-- bytes.
use lan_mouse_pro.Common.{ℕ, Bool, true, false, List, [], Option, none, ◌≡◌, refl}
use native.Mathlib.Decide.{ℕ_discrete}

pub data Position : Type 0 where
  left right top bottom : Position

pub data CapturePosition : Type 0 where
  left right top bottom : CapturePosition

unfoldable pub to_capture_pos : Position → CapturePosition
to_capture_pos Position.left = CapturePosition.left
to_capture_pos Position.right = CapturePosition.right
to_capture_pos Position.top = CapturePosition.top
to_capture_pos Position.bottom = CapturePosition.bottom

unfoldable pub to_ipc_pos : CapturePosition → Position
to_ipc_pos CapturePosition.left = Position.left
to_ipc_pos CapturePosition.right = Position.right
to_ipc_pos CapturePosition.top = Position.top
to_ipc_pos CapturePosition.bottom = Position.bottom

pub to_ipc_pos-to_capture_pos : (pos : Position) → to_ipc_pos (to_capture_pos pos) ≡ pos
unfolding to_ipc_pos to_capture_pos
to_ipc_pos-to_capture_pos Position.left = refl
to_ipc_pos-to_capture_pos Position.right = refl
to_ipc_pos-to_capture_pos Position.top = refl
to_ipc_pos-to_capture_pos Position.bottom = refl

pub to_capture_pos-to_ipc_pos : (pos : CapturePosition) → to_capture_pos (to_ipc_pos pos) ≡ pos
unfolding to_ipc_pos to_capture_pos
to_capture_pos-to_ipc_pos CapturePosition.left = refl
to_capture_pos-to_ipc_pos CapturePosition.right = refl
to_capture_pos-to_ipc_pos CapturePosition.top = refl
to_capture_pos-to_ipc_pos CapturePosition.bottom = refl

pub data IpAddr : Type 0 where
  v4 : ℕ → IpAddr
  v6 : ℕ → IpAddr

pub record SocketAddr : Type 0 where
  pub ip : IpAddr
  pub port : ℕ

pub data ChannelMode : Type 0 where
  stream datagram : ChannelMode

pub record InputChannelConfig : Type 0 where
  pub mouse_button : ChannelMode
  pub keyboard : ChannelMode

abbrev pub default_input_channels : InputChannelConfig
default_input_channels = record {
  mouse_button = ChannelMode.datagram;
  keyboard = ChannelMode.stream;
}

pub record ClientConfig : Type 0 where
  pub hostname : Option (List ℕ)
  pub fix_ips : List IpAddr
  pub port : ℕ
  pub pos : Position
  pub cmd : Option (List ℕ)
  pub input_channels : InputChannelConfig
  pub monitor : Option (List ℕ)
  pub enable_clipboard_to : Bool

abbrev pub default_port : ℕ
default_port = 2268

abbrev pub default_config : ClientConfig
default_config = record {
  hostname = none;
  fix_ips = [];
  port = default_port;
  pos = Position.left;
  cmd = none;
  input_channels = default_input_channels;
  monitor = none;
  enable_clipboard_to = true;
}

-- `ips` is a `HashSet`: a list without repetitions, in an order that the code does not rely on.
pub record ClientState : Type 0 where
  pub active : Bool
  pub active_addr : Option SocketAddr
  pub dns_ips : List IpAddr
  pub ips : List IpAddr
  pub has_pressed_keys : Bool
  pub resolving : Bool
  pub peer_commit : Option (List ℕ)

abbrev pub default_state : ClientState
default_state = record {
  active = false;
  active_addr = none;
  dns_ips = [];
  ips = [];
  has_pressed_keys = false;
  resolving = false;
  peer_commit = none;
}

pub record ConfigClient : Type 0 where
  pub ips : List IpAddr
  pub hostname : Option (List ℕ)
  pub port : ℕ
  pub pos : Position
  pub active : Bool
  pub enter_hook : Option (List ℕ)
  pub input_channels : InputChannelConfig
  pub monitor : Option (List ℕ)
  pub enable_clipboard_to : Bool

pub record BarrierKey : Type 0 where
  pub pos : CapturePosition
  pub monitor : Option (List ℕ)
  pub offset : ℕ
  pub span : ℕ

unfoldable pub IpAddr-discrete : Discrete IpAddr
IpAddr-discrete = hlevel ℕ_discrete

unfoldable pub Position-discrete : Discrete Position
Position-discrete = hlevel

unfoldable pub text-discrete : Discrete (Option (List ℕ))
text-discrete = hlevel ℕ_discrete

unfoldable pub InputChannelConfig-discrete : Discrete InputChannelConfig
InputChannelConfig-discrete = hlevel

unfoldable pub Bool-discrete : Discrete Bool
Bool-discrete = hlevel

unfoldable pub BarrierKey-discrete : Discrete BarrierKey
BarrierKey-discrete = hlevel ℕ_discrete
