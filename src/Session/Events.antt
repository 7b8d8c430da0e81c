-- ===== src/Session/Events.antt =====
-- `CaptureTask::handle_capture_event`, src/capture.rs.
use lan_mouse_pro.Common.{
  ℕ, Bool, true, false, ◌==◌, ◌||◌, if◌then◌else◌, Option, none, some, List, [], ◌∷◌, ◌++◌,
}
use lan_mouse_pro.Capture.Barriers.{CaptureEvent}
use lan_mouse_pro.Capture.Stream.{keys_pressed}
use lan_mouse_pro.Client.Types.{BarrierKey, BarrierKey-discrete}
use lan_mouse_pro.Session.Outcome.{Outcome, done, panic, try}
use lan_mouse_pro.Session.Outside.{
  Outside, with_state, emit, count_failure, instant, send, release, cancel_pending, refresh,
}
use lan_mouse_pro.Session.Release.{release_capture}
use lan_mouse_pro.Session.Types.{
  State, CaptureType, ICaptureEvent, Registered, CaptureTask, opposite, to_proto_pos,
}
use lan_mouse_pro.Wire.Types.{ProtoEvent, InputEvent}
use mathlib.Core.Logic.{ite}
use native.Mathlib.Decide.{ℕ_discrete}

-- `get_key` and `get_type`, whose `expect` fails on none.
unfoldable pub find_capture : ℕ → List Registered → Option (BarrierKey × CaptureType)
find_capture handle [] = none
find_capture handle (c ∷ cs) =
    ite (ℕ_discrete c.handle handle) (some (c.key, c.capture_type)) (find_capture handle cs)

unfoldable pub is_default : CaptureType → Bool
is_default CaptureType.default = true
is_default CaptureType.enter_only = false

unfoldable pub is_default_capture_at : BarrierKey → List Registered → Bool
unfolding is_default
is_default_capture_at key [] = false
is_default_capture_at key (c ∷ cs) =
    ite (BarrierKey-discrete c.key key) (is_default c.capture_type) false
    || is_default_capture_at key cs

unfoldable pub is_trigger : CaptureEvent → Bool
is_trigger CaptureEvent.begin = true
is_trigger CaptureEvent.begin_pending = true
is_trigger _ = false

unfoldable pub is_pending_for : ℕ → State → Bool
is_pending_for handle (State.pending h key started) = h == handle
is_pending_for handle _ = false

unfoldable pub is_client : ℕ → Option ℕ → Bool
is_client handle none = false
is_client handle (some h) = h == handle

module _ {B : Type 0} where
  -- A client that is entered anew is the active one.
  unfoldable pub enter_client : ℕ → CaptureTask B → CaptureTask B
  unfolding is_client emit
  enter_client handle t =
      if is_client handle t.active_client
      then t
      else emit (ICaptureEvent.client_entered handle) (record t { active_client = some handle })

  module _ (out : Outside B) where
    unfoldable pub on_enter_only :
        CaptureEvent → ℕ → BarrierKey → CaptureTask B → Outcome (CaptureTask B)
    unfolding is_trigger emit is_default_capture_at
    on_enter_only event handle key t =
        let t1 = if is_trigger event then emit (ICaptureEvent.capture_begin handle) t else t in
        if is_default_capture_at key t1.captures then done t1 else try (release out t1)

    -- `conn.send(ProtoEvent::Enter(opposite_pos), handle)`.
    unfoldable pub send_enter : BarrierKey → ℕ → CaptureTask B → Bool × CaptureTask B
    unfolding to_proto_pos opposite
    send_enter key handle t = send out (ProtoEvent.enter (to_proto_pos (opposite key.pos))) handle t

    unfoldable pub begin_pending : ℕ → BarrierKey → CaptureTask B → CaptureTask B
    unfolding instant
    begin_pending handle key t = record t {
      state = State.pending handle key (instant out t);
      watchdog = record t.watchdog {
        recent_crossings = t.watchdog.recent_crossings ++ (instant out t ∷ []);
      };
    }

    -- With the answer to the Enter.
    unfoldable pub entered_pending : BarrierKey → Bool × CaptureTask B → CaptureTask B
    entered_pending key (true, t) = refresh out t
    entered_pending key (false, t) =
        count_failure (with_state State.idle (cancel_pending out key t).1)

    unfoldable pub on_begin_pending : ℕ → BarrierKey → CaptureTask B → CaptureTask B
    unfolding begin_pending send_enter entered_pending
    on_begin_pending handle key t =
        entered_pending key (send_enter key handle (begin_pending handle key t))

    unfoldable pub on_cancel_pending : ℕ → BarrierKey → CaptureTask B → CaptureTask B
    unfolding is_pending_for
    on_cancel_pending handle key t =
        let t1 = (cancel_pending out key t).1 in
        if is_pending_for handle t1.state then with_state State.idle t1 else t1

    -- With the answer to an Enter or an input event in the state Sending.
    unfoldable pub after_send : Bool × CaptureTask B → Outcome (CaptureTask B)
    after_send (true, t) = done (refresh out t)
    after_send (false, t) = try (release out (count_failure t))

    unfoldable pub on_begin : Bool → ℕ → BarrierKey → CaptureTask B → Outcome (CaptureTask B)
    unfolding enter_client send_enter after_send
    on_begin true handle key t =
        done (refresh out (with_state State.sending (enter_client handle t)))
    on_begin false handle key t =
        after_send (send_enter key handle (with_state State.sending (enter_client handle t)))

    unfoldable pub on_input : State → InputEvent → ℕ → CaptureTask B → Outcome (CaptureTask B)
    unfolding after_send
    on_input State.sending e handle t = after_send (send out (ProtoEvent.input e) handle t)
    on_input _ e handle t = done t

    unfoldable pub on_event :
        CaptureEvent → ℕ → BarrierKey → CaptureTask B → Outcome (CaptureTask B)
    unfolding on_begin_pending on_cancel_pending on_begin on_input is_pending_for
    on_event CaptureEvent.begin_pending handle key t = done (on_begin_pending handle key t)
    on_event CaptureEvent.cancel_pending handle key t = done (on_cancel_pending handle key t)
    on_event CaptureEvent.begin handle key t =
        on_begin (is_pending_for handle t.state) handle key
          (emit (ICaptureEvent.capture_begin handle) t)
    on_event (CaptureEvent.input e) handle key t = on_input t.state e handle t

    -- With what the handle is registered for.
    unfoldable pub on_registered :
        Option (BarrierKey × CaptureType)
        → CaptureEvent
        → ℕ
        → CaptureTask B
        → Outcome (CaptureTask B)
    unfolding on_event on_enter_only
    on_registered none event handle t = panic
    on_registered (some (key, CaptureType.enter_only)) event handle t =
        on_enter_only event handle key t
    on_registered (some (key, CaptureType.default)) event handle t = on_event event handle key t

    unfoldable pub handle_capture_event : ℕ → CaptureEvent → CaptureTask B → Outcome (CaptureTask B)
    unfolding on_registered find_capture
    handle_capture_event handle event t =
        let pressed = keys_pressed t.release_bind t.capture in
        let t1 = record t { release_bind_prev = pressed } in
        if pressed
        then try (release_capture out t1)
        else on_registered (find_capture handle t1.captures) event handle t1
