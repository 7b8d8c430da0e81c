-- ===== src/Session/Types.antt =====
-- The data of the capture task, src/capture.rs. An `Instant` and a `Duration` are numbers of
-- milliseconds.
use lan_mouse_pro.Common.{
  ℕ, Bool, true, false, ◌&&◌, ◌||◌, not, if◌then◌else◌, Option, none, some, List, [], ◌∷◌, map, leb,
  ◌+◌,
}
use lan_mouse_pro.Capture.Barriers.{InputCapture}
use lan_mouse_pro.Client.Types.{CapturePosition, BarrierKey}
use lan_mouse_pro.Service.Monitors.{MonitorInfo, bytes-discrete}
use lan_mouse_pro.Wire.Types.{ProtoEvent, Position}
use mathlib.Core.Logic.{ite}

pub data State : Type 0 where
  idle : State
  pending : (handle : ℕ) (key : BarrierKey) (started : ℕ) → State
  sending : State

pub data CaptureType : Type 0 where
  default enter_only : CaptureType

pub data ICaptureEvent : Type 0 where
  capture_begin : ℕ → ICaptureEvent
  capture_disabled capture_enabled : ICaptureEvent
  client_entered : ℕ → ICaptureEvent
  monitors_changed : List MonitorInfo → ICaptureEvent

pub data CaptureRequest : Type 0 where
  release : CaptureRequest
  create : ℕ → BarrierKey → CaptureType → CaptureRequest
  destroy : ℕ → CaptureRequest
  reenable : CaptureRequest
  set_release_bind : List ℕ → CaptureRequest
  dial : ℕ → CaptureRequest
  send_clip : ProtoEvent → ℕ → CaptureRequest

pub record WatchdogConfig : Type 0 where
  pub enabled : Bool
  pub ghost_active_check : Bool
  pub crossing_storm_check : Bool
  pub send_failures_check : Bool
  pub no_progress_check : Bool
  pub light_interval : ℕ
  pub heavy_interval : ℕ
  pub crossing_window : ℕ
  pub crossing_storm_threshold : ℕ
  pub send_failures_threshold : ℕ
  pub no_progress_timeout : ℕ

abbrev pub default_watchdog : WatchdogConfig
default_watchdog = record {
  enabled = true;
  ghost_active_check = true;
  crossing_storm_check = true;
  send_failures_check = true;
  no_progress_check = true;
  light_interval = 200;
  heavy_interval = 3000;
  crossing_window = 5000;
  crossing_storm_threshold = 5;
  send_failures_threshold = 3;
  no_progress_timeout = 8000;
}

abbrev pub pending_ack_timeout : ℕ
pending_ack_timeout = 500

-- `u8::to_ascii_lowercase`.
unfoldable pub to_lower : ℕ → ℕ
to_lower b = if leb 65 b && leb b 90 then b + 32 else b

unfoldable pub eq_ignore_ascii_case : List ℕ → List ℕ → Bool
unfolding to_lower
eq_ignore_ascii_case a b = ite (bytes-discrete (map to_lower a) (map to_lower b)) true false

-- "off", "0" and "false".
abbrev pub off_words : List (List ℕ)
off_words = (111 ∷ 102 ∷ 102 ∷ []) ∷ (48 ∷ []) ∷ (102 ∷ 97 ∷ 108 ∷ 115 ∷ 101 ∷ []) ∷ []

unfoldable pub is_off : List ℕ → List (List ℕ) → Bool
unfolding eq_ignore_ascii_case
is_off v [] = false
is_off v (w ∷ ws) = eq_ignore_ascii_case v w || is_off v ws

-- With the environment variable LAN_MOUSE_WATCHDOG.
unfoldable pub env_override_enabled : Option (List ℕ) → WatchdogConfig → Bool
unfolding is_off
env_override_enabled none cfg = cfg.enabled
env_override_enabled (some v) cfg = if is_off v off_words then false else cfg.enabled

unfoldable pub any_check_enabled : Option (List ℕ) → WatchdogConfig → Bool
unfolding env_override_enabled
any_check_enabled env cfg =
    env_override_enabled env cfg
    && (cfg.ghost_active_check
        || (cfg.crossing_storm_check || (cfg.send_failures_check || cfg.no_progress_check)))

pub record WatchdogState : Type 0 where
  pub consecutive_send_failures : ℕ
  pub recent_crossings : List ℕ
  pub last_progress_at : ℕ

-- An entry of `captures`.
pub record Registered : Type 0 where
  pub handle : ℕ
  pub key : BarrierKey
  pub capture_type : CaptureType

-- The task, the capture of its session, and what went out: the messages handed to `conn.send` and
-- the events put into `event_tx`, in their order. `cancellation_token` and the ends of the channels
-- are not state.
pub record CaptureTask (B : Type 0) : Type 0 where
  pub capture : InputCapture B
  pub active_client : Option ℕ
  pub captures : List Registered
  pub release_bind : List ℕ
  pub state : State
  pub release_bind_prev : Bool
  pub watchdog : WatchdogState
  pub watchdog_config : WatchdogConfig
  pub last_monitors : List MonitorInfo
  pub sent : List (ProtoEvent × ℕ)
  pub emitted : List ICaptureEvent

unfoldable pub is_idle : State → Bool
is_idle State.idle = true
is_idle _ = false

unfoldable pub is_sending : State → Bool
is_sending State.sending = true
is_sending _ = false

unfoldable pub is_some : Option ℕ → Bool
is_some none = false
is_some (some _) = true

unfoldable pub should_skip_release : State → Option ℕ → Bool
unfolding is_idle is_some
should_skip_release state active_client = is_idle state && not (is_some active_client)

-- `Position::opposite`.
unfoldable pub opposite : CapturePosition → CapturePosition
opposite CapturePosition.left = CapturePosition.right
opposite CapturePosition.right = CapturePosition.left
opposite CapturePosition.top = CapturePosition.bottom
opposite CapturePosition.bottom = CapturePosition.top

unfoldable pub to_proto_pos : CapturePosition → Position
to_proto_pos CapturePosition.left = Position.left
to_proto_pos CapturePosition.right = Position.right
to_proto_pos CapturePosition.top = Position.top
to_proto_pos CapturePosition.bottom = Position.bottom
