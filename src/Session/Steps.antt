-- ===== src/Session/Steps.antt =====
-- The branches of the `select!` of `CaptureTask::do_capture_session`, src/capture.rs, in any order, and
-- the sessions that `do_capture` and `run` make of them.
use lan_mouse_pro.Common.{ℕ, if◌then◌else◌, Option, List, [], ◌∷◌}
use lan_mouse_pro.Capture.Barriers.{CaptureEvent}
use lan_mouse_pro.Capture.Stream.{Poll, poll_next}
use lan_mouse_pro.Session.Events.{handle_capture_event}
use lan_mouse_pro.Session.Outcome.{Outcome, done, ended, failed, and_then}
use lan_mouse_pro.Session.Outside.{Outside, with_world}
use lan_mouse_pro.Session.Received.{on_received, on_request, on_peer_lost}
use lan_mouse_pro.Session.Types.{CaptureRequest, CaptureTask, any_check_enabled}
use lan_mouse_pro.Session.Watchdog.{
  on_pending_tick, run_watchdog_light, run_watchdog_heavy, on_monitor_tick,
}
use lan_mouse_pro.Wire.Types.{ProtoEvent}

pub data Branch : Type 0 where
  next_event : Branch
  received : ℕ → ProtoEvent → Branch
  request : CaptureRequest → Branch
  pending_tick watchdog_light_tick watchdog_heavy_tick monitor_tick : Branch
  peer_lost : Option ℕ → Branch
  cancelled : Branch

module _ {B : Type 0} (out : Outside B) where
  -- With the answer of `capture.next()`; nothing yet leaves the branch waiting.
  unfoldable pub on_next : Poll (ℕ × CaptureEvent) → CaptureTask B → Outcome (CaptureTask B)
  on_next Poll.not_ready t = done t
  on_next Poll.closed t = ended t
  on_next Poll.error t = failed t
  on_next (Poll.item (handle, event)) t = handle_capture_event out handle event t

  unfoldable pub step : Branch → CaptureTask B → Outcome (CaptureTask B)
  unfolding on_next any_check_enabled
  step Branch.next_event t =
      let (answer, ic) = poll_next out.poll t.capture in on_next answer (record t { capture = ic })
  step (Branch.received handle event) t = on_received out handle event t
  step (Branch.request r) t = on_request out r t
  step Branch.pending_tick t = done (on_pending_tick out t.state t)
  step Branch.watchdog_light_tick t =
      done (
        if any_check_enabled out.watchdog_env t.watchdog_config
        then run_watchdog_light out t
        else t)
  step Branch.watchdog_heavy_tick t =
      done (
        if any_check_enabled out.watchdog_env t.watchdog_config
        then run_watchdog_heavy out t
        else t)
  step Branch.monitor_tick t = done (on_monitor_tick out t)
  step (Branch.peer_lost handle) t = on_peer_lost out handle t
  step Branch.cancelled t = ended t

  -- The loop: each branch with the world as it has become meanwhile.
  unfoldable pub session : List (B × Branch) → CaptureTask B → Outcome (CaptureTask B)
  unfolding step
  session [] t = done t
  session ((b, branch) ∷ rest) t = and_then (step branch (with_world t b)) (session rest)
