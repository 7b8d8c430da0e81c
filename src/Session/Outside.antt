-- ===== src/Session/Outside.antt =====
-- What the capture task calls, src/capture.rs: the capture backend, the connections and the clock are
-- a parameter, whose state B stands in the field `capture` of `InputCapture`. An answer true is `Ok`.
use lan_mouse_pro.Common.{ℕ, ◌+◌, ◌-◌, ◌^◌, min, Bool, Option, List, [], ◌∷◌, ◌++◌}
use lan_mouse_pro.Capture.Barriers.{Backend, CaptureEvent, InputCapture}
use lan_mouse_pro.Capture.Run.{Run}
use lan_mouse_pro.Capture.Stream.{Poll}
use lan_mouse_pro.Client.Types.{BarrierKey}
use lan_mouse_pro.Service.Monitors.{MonitorInfo}
use lan_mouse_pro.Session.Outcome.{Outcome, done, failed, panic}
use lan_mouse_pro.Session.Types.{State, ICaptureEvent, CaptureTask}
use lan_mouse_pro.Wire.Types.{ProtoEvent}

-- `same_monitors` is the derived `PartialEq` of the lists, `watchdog_env` the environment variable
-- LAN_MOUSE_WATCHDOG.
pub record Outside (B : Type 0) : Type 0 where
  pub barriers : Backend B
  pub poll : B → Poll (BarrierKey × CaptureEvent) × B
  pub release : B → Bool × B
  pub terminate : B → Bool × B
  pub start_capture : BarrierKey → B → Bool × B
  pub cancel_pending : BarrierKey → B → Bool × B
  pub monitors : B → List MonitorInfo
  pub send : ProtoEvent → ℕ → B → Bool × B
  pub dial : ℕ → B → B
  pub now : B → ℕ
  pub same_monitors : List MonitorInfo → List MonitorInfo → Bool
  pub watchdog_env : Option (List ℕ)

module _ {B : Type 0} where
  abbrev pub with_world : CaptureTask B → B → CaptureTask B
  with_world t b = record t { capture = record t.capture { capture = b } }

  abbrev pub with_state : State → CaptureTask B → CaptureTask B
  with_state state t = record t { state = state }

  unfoldable pub emit : ICaptureEvent → CaptureTask B → CaptureTask B
  emit event t = record t { emitted = t.emitted ++ (event ∷ []) }

  -- `saturating_add(1)` on the u32 counter of failures.
  unfoldable pub count_failure : CaptureTask B → CaptureTask B
  count_failure t = record t {
    watchdog = record t.watchdog {
      consecutive_send_failures = min (t.watchdog.consecutive_send_failures + 1) (2 ^ 32 - 1);
    };
  }

  -- `?` on what `InputCapture::create` or `destroy` answers; behind an error the capture is only
  -- terminated.
  unfoldable pub lift : CaptureTask B → Run (InputCapture B) → Outcome (CaptureTask B)
  lift t (Run.done ic) = done (record t { capture = ic })
  lift t Run.failed = failed t
  lift t Run.panic = panic

  module _ (out : Outside B) where
    unfoldable pub instant : CaptureTask B → ℕ
    instant t = out.now t.capture.capture

    unfoldable pub send : ProtoEvent → ℕ → CaptureTask B → Bool × CaptureTask B
    send event handle t =
        let (ok, b) = out.send event handle t.capture.capture in
        (ok, record (with_world t b) { sent = t.sent ++ ((event, handle) ∷ []) })

    -- `InputCapture::release`.
    unfoldable pub release : CaptureTask B → Bool × CaptureTask B
    release t =
        let (ok, b) = out.release t.capture.capture in
        (ok, record t { capture = record t.capture { capture = b; pressed_keys = [] } })

    unfoldable pub start_capture : BarrierKey → CaptureTask B → Bool × CaptureTask B
    start_capture key t =
        let (ok, b) = out.start_capture key t.capture.capture in (ok, with_world t b)

    unfoldable pub cancel_pending : BarrierKey → CaptureTask B → Bool × CaptureTask B
    cancel_pending key t =
        let (ok, b) = out.cancel_pending key t.capture.capture in (ok, with_world t b)

    -- The failures are forgotten, and the clock of the progress starts again.
    unfoldable pub refresh : CaptureTask B → CaptureTask B
    unfolding instant
    refresh t = record t {
      watchdog = record t.watchdog { consecutive_send_failures = 0; last_progress_at = instant t };
    }

    unfoldable pub reset_watchdog : CaptureTask B → CaptureTask B
    unfolding instant
    reset_watchdog t = record t {
      watchdog = record {
        consecutive_send_failures = 0;
        recent_crossings = [];
        last_progress_at = instant t;
      };
    }
