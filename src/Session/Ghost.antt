-- ===== src/Session/Ghost.antt =====
-- src/capture.rs: the state Sending and the active client, over every sequence of branches.
use lan_mouse_pro.Common.{
  ℕ, Bool, true, false, Option, none, some, ◌==◌, List, [], ◌∷◌, if_both, if_each, if◌then◌else◌,
}
use lan_mouse_pro.Capture.Barriers.{CaptureEvent}
use lan_mouse_pro.Capture.Run.{Run}
use lan_mouse_pro.Capture.Stream.{Poll, poll_next}
use lan_mouse_pro.Capture.Barriers.{InputCapture}
use lan_mouse_pro.Client.Types.{BarrierKey}
use lan_mouse_pro.Session.Events.{is_client}
use lan_mouse_pro.Session.Outcome.{Partly-bind, done, try, Partly, Partly-try}
use lan_mouse_pro.Session.Outside.{
  instant, Outside, with_world, with_state, emit, lift, send, release, start_capture,
  cancel_pending, refresh,
}
use lan_mouse_pro.Session.Received.{
  is_stranger, after_start, on_ack, on_message, on_received, on_request, on_peer_lost, add_capture,
  remove_capture,
}
use lan_mouse_pro.Session.Release.{release_capture}
use lan_mouse_pro.Session.Released.{IsHeld}
use lan_mouse_pro.Session.Held.{Held-some, release_capture-IsHeld, handle_capture_event-IsHeld}
use lan_mouse_pro.Session.Steps.{Branch, on_next, step, session}
use lan_mouse_pro.Session.Types.{
  State, ICaptureEvent, CaptureTask, any_check_enabled, is_some, CaptureRequest,
}
use lan_mouse_pro.Session.Watchdog.{
  on_pending_tick, run_watchdog_light, run_watchdog_heavy, on_monitor_tick, check_storm,
  check_send_failures, check_no_progress, is_ghost, is_storm, is_failing, is_stuck, is_timed_out,
  progressed_at, with_failures, with_crossings, drop_expired,
}
use lan_mouse_pro.Wire.Types.{ProtoEvent}

module _ {B : Type 0} (out : Outside B) where
  after_start-IsHeld :
      (key : BarrierKey) (r : Bool × CaptureTask B) → IsHeld r.1 → IsHeld (after_start out key r)
  unfolding after_start
  after_start-IsHeld key (true, t) h = h
  after_start-IsHeld key (false, t) h = tt

  on_ack-IsHeld :
      (state : State) (handle : ℕ) (t : CaptureTask B)
      → IsHeld t
      → IsHeld (on_ack out state handle t)
  unfolding on_ack start_capture
  on_ack-IsHeld (State.pending p key started) handle t h =
      if_both IsHeld (p == handle) (after_start out key (start_capture out key t)) t
        (after_start-IsHeld key (start_capture out key t) h) h
  on_ack-IsHeld State.idle handle t h =
      if_each IsHeld (is_some t.active_client) (with_state State.sending t) t
        (Held-some t.active_client) (λ alone. h)
  on_ack-IsHeld State.sending handle t h =
      if_each IsHeld (is_some t.active_client) (with_state State.sending t) t
        (Held-some t.active_client) (λ alone. h)

  on_message-IsHeld :
      (event : ProtoEvent) (handle : ℕ) (t : CaptureTask B)
      → IsHeld t
      → Partly IsHeld (on_message out event handle t)
  unfolding on_message
  on_message-IsHeld (ProtoEvent.ack n) handle t h = on_ack-IsHeld t.state handle t h
  on_message-IsHeld (ProtoEvent.leave n) handle t h =
      Partly-try IsHeld (release_capture out t) (release_capture-IsHeld out t)
  on_message-IsHeld _ handle t h = h

  on_received-IsHeld :
      (handle : ℕ) (event : ProtoEvent) (t : CaptureTask B)
      → IsHeld t
      → Partly IsHeld (on_received out handle event t)
  unfolding on_received refresh
  on_received-IsHeld handle event t h =
      if_both (Partly IsHeld) (is_stranger handle t.active_client) (done t)
        (on_message out event handle (refresh out t)) h
        (on_message-IsHeld event handle (refresh out t) h)

  lift-IsHeld : (t : CaptureTask B) (r : Run (InputCapture B)) → IsHeld t → Partly IsHeld (lift t r)
  unfolding lift
  lift-IsHeld t (Run.done ic) h = h
  lift-IsHeld t Run.failed h = h
  lift-IsHeld t Run.panic h = tt

  on_request-IsHeld :
      (r : CaptureRequest) (t : CaptureTask B) → IsHeld t → Partly IsHeld (on_request out r t)
  unfolding on_request add_capture remove_capture send
  on_request-IsHeld CaptureRequest.reenable t h = h
  on_request-IsHeld CaptureRequest.release t h =
      Partly-try IsHeld (release_capture out t) (release_capture-IsHeld out t)
  on_request-IsHeld (CaptureRequest.create handle p ct) t h = lift-IsHeld _ _ h
  on_request-IsHeld (CaptureRequest.destroy handle) t h = lift-IsHeld _ _ h
  on_request-IsHeld (CaptureRequest.set_release_bind bind) t h = h
  on_request-IsHeld (CaptureRequest.dial handle) t h = h
  on_request-IsHeld (CaptureRequest.send_clip event handle) t h = h

  run_watchdog_light-IsHeld : (t : CaptureTask B) → IsHeld t → IsHeld (run_watchdog_light out t)
  unfolding run_watchdog_light refresh release
  run_watchdog_light-IsHeld t h =
      if_both IsHeld (is_ghost t) (refresh out (release out (with_state State.idle t)).1) t tt h

  check_send_failures-IsHeld :
      (now : ℕ) (t : CaptureTask B) → IsHeld t → IsHeld (check_send_failures out now t)
  unfolding check_send_failures check_no_progress
  check_send_failures-IsHeld now t h =
      if_both IsHeld (is_failing t) (progressed_at now (release_capture out (with_failures 0 t)).1)
        (check_no_progress out now t) (release_capture-IsHeld out (with_failures 0 t))
        (if_both IsHeld (is_stuck now t) (progressed_at now (release_capture out t).1) t
          (release_capture-IsHeld out t) h)

  check_storm-IsHeld : (now : ℕ) (t : CaptureTask B) → IsHeld t → IsHeld (check_storm out now t)
  unfolding check_storm
  check_storm-IsHeld now t h =
      if_both IsHeld (is_storm t) (progressed_at now (with_crossings [] (release_capture out t).1))
        (check_send_failures out now t) (release_capture-IsHeld out t)
        (check_send_failures-IsHeld now t h)

  run_watchdog_heavy-IsHeld : (t : CaptureTask B) → IsHeld t → IsHeld (run_watchdog_heavy out t)
  unfolding run_watchdog_heavy instant
  run_watchdog_heavy-IsHeld t h =
      let now = instant out t in
      let t1 =
        with_crossings
          (drop_expired now t.watchdog_config.crossing_window t.watchdog.recent_crossings) t in
      if_both IsHeld t.watchdog_config.crossing_storm_check (check_storm out now t1)
        (check_send_failures out now t) (check_storm-IsHeld now t1 h)
        (check_send_failures-IsHeld now t h)

  on_pending_tick-IsHeld :
      (state : State) (t : CaptureTask B) → IsHeld t → IsHeld (on_pending_tick out state t)
  unfolding on_pending_tick
  on_pending_tick-IsHeld State.idle t h = h
  on_pending_tick-IsHeld State.sending t h = h
  on_pending_tick-IsHeld (State.pending p key started) t h =
      if_both IsHeld (is_timed_out out started t)
        (with_state State.idle (cancel_pending out key t).1) t tt h

  released_if :
      (c : Bool) (t : CaptureTask B)
      → IsHeld t
      → Partly IsHeld (if c then try (release_capture out t) else done t)
  released_if c t h =
      if_both (Partly IsHeld) c (try (release_capture out t)) (done t)
        (Partly-try IsHeld (release_capture out t) (release_capture-IsHeld out t)) h

  on_peer_lost-IsHeld :
      (handle : Option ℕ) (t : CaptureTask B) → IsHeld t → Partly IsHeld (on_peer_lost out handle t)
  unfolding on_peer_lost
  on_peer_lost-IsHeld none t h = released_if (is_some t.active_client) t h
  on_peer_lost-IsHeld (some handle) t h = released_if (is_client handle t.active_client) t h

  on_next-IsHeld :
      (answer : Poll (ℕ × CaptureEvent)) (t : CaptureTask B)
      → IsHeld t
      → Partly IsHeld (on_next out answer t)
  unfolding on_next
  on_next-IsHeld Poll.not_ready t h = h
  on_next-IsHeld Poll.closed t h = h
  on_next-IsHeld Poll.error t h = h
  on_next-IsHeld (Poll.item (handle, event)) t h = handle_capture_event-IsHeld out handle event t h

  ticked-IsHeld :
      (c : Bool) (r t : CaptureTask B) → IsHeld r → IsHeld t → IsHeld (if c then r else t)
  ticked-IsHeld c r t hr h = if_both IsHeld c r t hr h

  on_monitor_tick-IsHeld : (t : CaptureTask B) → IsHeld t → IsHeld (on_monitor_tick out t)
  unfolding on_monitor_tick emit
  on_monitor_tick-IsHeld t h =
      let current = out.monitors t.capture.capture in
      if_both IsHeld (out.same_monitors current t.last_monitors) t
        (emit (ICaptureEvent.monitors_changed current) (record t { last_monitors = current })) h h

  step-IsHeld : (branch : Branch) (t : CaptureTask B) → IsHeld t → Partly IsHeld (step out branch t)
  unfolding step
  step-IsHeld Branch.next_event t h =
      let r = poll_next out.poll t.capture in on_next-IsHeld r.0 (record t { capture = r.1 }) h
  step-IsHeld (Branch.received handle event) t h = on_received-IsHeld handle event t h
  step-IsHeld (Branch.request r) t h = on_request-IsHeld r t h
  step-IsHeld Branch.pending_tick t h = on_pending_tick-IsHeld t.state t h
  step-IsHeld Branch.watchdog_light_tick t h =
      ticked-IsHeld (any_check_enabled out.watchdog_env t.watchdog_config)
        (run_watchdog_light out t) t (run_watchdog_light-IsHeld t h) h
  step-IsHeld Branch.watchdog_heavy_tick t h =
      ticked-IsHeld (any_check_enabled out.watchdog_env t.watchdog_config)
        (run_watchdog_heavy out t) t (run_watchdog_heavy-IsHeld t h) h
  step-IsHeld Branch.monitor_tick t h = on_monitor_tick-IsHeld t h
  step-IsHeld (Branch.peer_lost handle) t h = on_peer_lost-IsHeld handle t h
  step-IsHeld Branch.cancelled t h = h

  pub session-IsHeld :
      (branches : List (B × Branch)) (t : CaptureTask B)
      → IsHeld t
      → Partly IsHeld (session out branches t)
  unfolding session
  session-IsHeld [] t h = h
  session-IsHeld ((b, branch) ∷ rest) t h =
      Partly-bind IsHeld (session out rest) (step out branch (with_world t b))
        (step-IsHeld branch (with_world t b) h) (session-IsHeld rest)
