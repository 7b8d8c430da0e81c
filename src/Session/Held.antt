-- ===== src/Session/Held.antt =====
-- src/capture.rs: the state Sending stands for an active client, whatever branches the capture task
-- takes.
use lan_mouse_pro.Common.{
  ℕ, ◌≡◌, inl, inr, Bool, true, false, Bool-cases, Option, none, some, arith, if_both,
  if◌then◌else◌,
}
use lan_mouse_pro.Capture.Barriers.{CaptureEvent}
use lan_mouse_pro.Capture.Stream.{keys_pressed}
use lan_mouse_pro.Client.Types.{BarrierKey}
use lan_mouse_pro.Session.Events.{
  enter_client, is_client, on_enter_only, send_enter, begin_pending, entered_pending,
  on_begin_pending, on_cancel_pending, after_send, on_begin, on_input, on_event, on_registered,
  handle_capture_event, is_trigger, is_default_capture_at, is_pending_for, find_capture,
}
use lan_mouse_pro.Session.Outcome.{done, try, Partly, Partly-try}
use lan_mouse_pro.Session.Outside.{
  Outside, with_state, emit, count_failure, send, release, cancel_pending, refresh,
}
use lan_mouse_pro.Session.Release.{release_capture}
use lan_mouse_pro.Session.Released.{Held, IsHeld, release_capture-Releases}
use lan_mouse_pro.Session.Types.{State, ICaptureEvent, CaptureTask, CaptureType, is_some}
use lan_mouse_pro.Wire.Types.{InputEvent}

Held-idle :
    (state : State) (active_client : Option ℕ) → state ≡ State.idle → Held state active_client
Held-idle State.idle active_client h = tt
Held-idle (State.pending handle key started) active_client h = tt
Held-idle State.sending active_client h = ground arith

pub Held-some :
    (active_client : Option ℕ) → is_some active_client ≡ true → Held State.sending active_client
unfolding is_some
Held-some none h = ground arith
Held-some (some handle) h = tt

module _ {B : Type 0} (out : Outside B) where
  pub release_capture-IsHeld : (t : CaptureTask B) → IsHeld (release_capture out t).1
  release_capture-IsHeld t =
      let after = (release_capture out t).1 in
      Held-idle after.state after.active_client (release_capture-Releases out t).0

  enter_client-active :
      (handle : ℕ) (t : CaptureTask B) → is_some (enter_client handle t).active_client ≡ true
  unfolding enter_client is_some is_client emit
  enter_client-active handle t = ground arith

  after_send-IsHeld : (r : Bool × CaptureTask B) → IsHeld r.1 → Partly IsHeld (after_send out r)
  unfolding after_send refresh release count_failure
  after_send-IsHeld (true, t) h = h
  after_send-IsHeld (false, t) h = Partly-try IsHeld (release out (count_failure t)) h

  entered_pending-IsHeld :
      (key : BarrierKey) (r : Bool × CaptureTask B)
      → IsHeld r.1
      → IsHeld (entered_pending out key r)
  unfolding entered_pending refresh count_failure
  entered_pending-IsHeld key (true, t) h = h
  entered_pending-IsHeld key (false, t) h = tt

  on_begin_pending-IsHeld :
      (handle : ℕ) (key : BarrierKey) (t : CaptureTask B)
      → IsHeld (on_begin_pending out handle key t)
  unfolding on_begin_pending send_enter begin_pending entered_pending refresh cancel_pending
      count_failure send
  on_begin_pending-IsHeld handle key t =
      entered_pending-IsHeld key (send_enter out key handle (begin_pending out handle key t)) tt

  on_cancel_pending-IsHeld :
      (handle : ℕ) (key : BarrierKey) (t : CaptureTask B)
      → IsHeld t
      → IsHeld (on_cancel_pending out handle key t)
  unfolding on_cancel_pending cancel_pending
  on_cancel_pending-IsHeld handle key t h = elim (Bool-cases (is_pending_for handle t.state)) [
    | inl yes_here ↦ rw yes_here tt
    | inr not_here ↦ rw not_here h
  ]

  entered-IsHeld :
      (handle : ℕ) (t : CaptureTask B) → IsHeld (with_state State.sending (enter_client handle t))
  entered-IsHeld handle t =
      Held-some (enter_client handle t).active_client (enter_client-active handle t)

  on_begin-IsHeld :
      (promoted : Bool) (handle : ℕ) (key : BarrierKey) (t : CaptureTask B)
      → Partly IsHeld (on_begin out promoted handle key t)
  unfolding on_begin refresh send_enter send
  on_begin-IsHeld true handle key t = entered-IsHeld handle t
  on_begin-IsHeld false handle key t = after_send-IsHeld _ (entered-IsHeld handle t)

  on_input-IsHeld :
      (state : State) (e : InputEvent) (handle : ℕ) (t : CaptureTask B)
      → IsHeld t
      → Partly IsHeld (on_input out state e handle t)
  unfolding on_input send
  on_input-IsHeld State.idle e handle t h = h
  on_input-IsHeld (State.pending p key started) e handle t h = h
  on_input-IsHeld State.sending e handle t h = after_send-IsHeld _ h

  on_event-IsHeld :
      (event : CaptureEvent) (handle : ℕ) (key : BarrierKey) (t : CaptureTask B)
      → IsHeld t
      → Partly IsHeld (on_event out event handle key t)
  unfolding on_event emit
  on_event-IsHeld CaptureEvent.begin_pending handle key t h = on_begin_pending-IsHeld handle key t
  on_event-IsHeld CaptureEvent.cancel_pending handle key t h =
      on_cancel_pending-IsHeld handle key t h
  on_event-IsHeld CaptureEvent.begin handle key t h = on_begin-IsHeld _ handle key _
  on_event-IsHeld (CaptureEvent.input e) handle key t h = on_input-IsHeld t.state e handle t h

  on_enter_only-IsHeld :
      (event : CaptureEvent) (handle : ℕ) (key : BarrierKey) (t : CaptureTask B)
      → IsHeld t
      → Partly IsHeld (on_enter_only out event handle key t)
  unfolding on_enter_only emit release
  on_enter_only-IsHeld event handle key t h =
      let t1 = if is_trigger event then emit (ICaptureEvent.capture_begin handle) t else t in
      let h1 =
        if_both IsHeld (is_trigger event) (emit (ICaptureEvent.capture_begin handle) t) t h h in
      if_both (Partly IsHeld) (is_default_capture_at key t1.captures) (done t1)
        (try (release out t1)) h1 (Partly-try IsHeld (release out t1) h1)

  on_registered-IsHeld :
      (found : Option (BarrierKey × CaptureType)) (event : CaptureEvent) (handle : ℕ)
      (t : CaptureTask B)
      → IsHeld t
      → Partly IsHeld (on_registered out found event handle t)
  unfolding on_registered
  on_registered-IsHeld none event handle t h = tt
  on_registered-IsHeld (some (key, CaptureType.enter_only)) event handle t h =
      on_enter_only-IsHeld event handle key t h
  on_registered-IsHeld (some (key, CaptureType.default)) event handle t h =
      on_event-IsHeld event handle key t h

  pub handle_capture_event-IsHeld :
      (handle : ℕ) (event : CaptureEvent) (t : CaptureTask B)
      → IsHeld t
      → Partly IsHeld (handle_capture_event out handle event t)
  unfolding handle_capture_event
  handle_capture_event-IsHeld handle event t h =
      let t1 = record t { release_bind_prev = keys_pressed t.release_bind t.capture } in
      if_both (Partly IsHeld) (keys_pressed t.release_bind t.capture) (try (release_capture out t1))
        (on_registered out (find_capture handle t1.captures) event handle t1)
        (Partly-try IsHeld (release_capture out t1) (release_capture-IsHeld t1))
        (on_registered-IsHeld (find_capture handle t1.captures) event handle t1 h)
