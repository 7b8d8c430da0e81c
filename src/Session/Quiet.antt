-- ===== src/Session/Quiet.antt =====
-- src/capture.rs: the branches that leave the registered captures, the barriers and the queue alone.
use lan_mouse_pro.Common.{
  ℕ, Bool, true, false, Option, none, some, ◌==◌, [], if_both, if_each, if◌then◌else◌,
}
use lan_mouse_pro.Client.Types.{BarrierKey}
use lan_mouse_pro.Session.Events.{is_client}
use lan_mouse_pro.Session.Outcome.{done, try, Leaves, Leaves-try}
use lan_mouse_pro.Session.Outside.{
  instant, Outside, with_state, emit, release, start_capture, cancel_pending, refresh,
}
use lan_mouse_pro.Session.Received.{
  is_stranger, after_start, on_ack, on_message, on_received, on_peer_lost,
}
use lan_mouse_pro.Session.Release.{release_capture}
use lan_mouse_pro.Session.Kept.{Kept, Keeps, release_capture-Keeps}
use lan_mouse_pro.Session.Types.{State, ICaptureEvent, CaptureTask, is_some}
use lan_mouse_pro.Session.Watchdog.{
  on_pending_tick, run_watchdog_light, run_watchdog_heavy, on_monitor_tick, check_storm,
  check_send_failures, check_no_progress, is_ghost, is_storm, is_failing, is_stuck, is_timed_out,
  progressed_at, with_failures, with_crossings, drop_expired,
}
use lan_mouse_pro.Wire.Types.{ProtoEvent}

module _ {B : Type 0} (out : Outside B) (x : Kept) where
  after_start-Keeps :
      (key : BarrierKey) (r : Bool × CaptureTask B)
      → (Keeps out x) r.1
      → (Keeps out x) (after_start out key r)
  unfolding after_start cancel_pending
  after_start-Keeps key (true, t) h = h
  after_start-Keeps key (false, t) h = h

  on_ack-Keeps :
      (state : State) (handle : ℕ) (t : CaptureTask B)
      → (Keeps out x) t
      → (Keeps out x) (on_ack out state handle t)
  unfolding on_ack start_capture
  on_ack-Keeps (State.pending p key started) handle t h =
      if_both (Keeps out x) (p == handle) (after_start out key (start_capture out key t)) t
        (after_start-Keeps key (start_capture out key t) h) h
  on_ack-Keeps State.idle handle t h =
      if_each (Keeps out x) (is_some t.active_client) (with_state State.sending t) t (λ held. h)
        (λ alone. h)
  on_ack-Keeps State.sending handle t h =
      if_each (Keeps out x) (is_some t.active_client) (with_state State.sending t) t (λ held. h)
        (λ alone. h)

  on_message-Keeps :
      (event : ProtoEvent) (handle : ℕ) (t : CaptureTask B)
      → (Keeps out x) t
      → Leaves (Keeps out x) (on_message out event handle t)
  unfolding on_message
  on_message-Keeps (ProtoEvent.ack n) handle t h = on_ack-Keeps t.state handle t h
  on_message-Keeps (ProtoEvent.leave n) handle t h =
      Leaves-try (Keeps out x) (release_capture out t) (release_capture-Keeps out x t h)
  on_message-Keeps _ handle t h = h

  pub on_received-Keeps :
      (handle : ℕ) (event : ProtoEvent) (t : CaptureTask B)
      → (Keeps out x) t
      → Leaves (Keeps out x) (on_received out handle event t)
  unfolding on_received refresh
  on_received-Keeps handle event t h =
      if_both (Leaves (Keeps out x)) (is_stranger handle t.active_client) (done t)
        (on_message out event handle (refresh out t)) h
        (on_message-Keeps event handle (refresh out t) h)

  pub run_watchdog_light-Keeps :
      (t : CaptureTask B) → (Keeps out x) t → (Keeps out x) (run_watchdog_light out t)
  unfolding run_watchdog_light refresh release
  run_watchdog_light-Keeps t h =
      if_both (Keeps out x) (is_ghost t) (refresh out (release out (with_state State.idle t)).1) t h
        h

  check_send_failures-Keeps :
      (now : ℕ) (t : CaptureTask B)
      → (Keeps out x) t
      → (Keeps out x) (check_send_failures out now t)
  unfolding check_send_failures check_no_progress
  check_send_failures-Keeps now t h =
      if_both (Keeps out x) (is_failing t)
        (progressed_at now (release_capture out (with_failures 0 t)).1)
        (check_no_progress out now t) (release_capture-Keeps out x (with_failures 0 t) h)
        (if_both (Keeps out x) (is_stuck now t) (progressed_at now (release_capture out t).1) t
          (release_capture-Keeps out x t h) h)

  check_storm-Keeps :
      (now : ℕ) (t : CaptureTask B) → (Keeps out x) t → (Keeps out x) (check_storm out now t)
  unfolding check_storm
  check_storm-Keeps now t h =
      if_both (Keeps out x) (is_storm t)
        (progressed_at now (with_crossings [] (release_capture out t).1))
        (check_send_failures out now t) (release_capture-Keeps out x t h)
        (check_send_failures-Keeps now t h)

  pub run_watchdog_heavy-Keeps :
      (t : CaptureTask B) → (Keeps out x) t → (Keeps out x) (run_watchdog_heavy out t)
  unfolding run_watchdog_heavy instant
  run_watchdog_heavy-Keeps t h =
      let now = instant out t in
      let t1 =
        with_crossings
          (drop_expired now t.watchdog_config.crossing_window t.watchdog.recent_crossings) t in
      if_both (Keeps out x) t.watchdog_config.crossing_storm_check (check_storm out now t1)
        (check_send_failures out now t) (check_storm-Keeps now t1 h)
        (check_send_failures-Keeps now t h)

  pub on_pending_tick-Keeps :
      (state : State) (t : CaptureTask B)
      → (Keeps out x) t
      → (Keeps out x) (on_pending_tick out state t)
  unfolding on_pending_tick cancel_pending
  on_pending_tick-Keeps State.idle t h = h
  on_pending_tick-Keeps State.sending t h = h
  on_pending_tick-Keeps (State.pending p key started) t h =
      if_both (Keeps out x) (is_timed_out out started t)
        (with_state State.idle (cancel_pending out key t).1) t h h

  released_if :
      (c : Bool) (t : CaptureTask B)
      → (Keeps out x) t
      → Leaves (Keeps out x) (if c then try (release_capture out t) else done t)
  released_if c t h =
      if_both (Leaves (Keeps out x)) c (try (release_capture out t)) (done t)
        (Leaves-try (Keeps out x) (release_capture out t) (release_capture-Keeps out x t h)) h

  pub on_peer_lost-Keeps :
      (handle : Option ℕ) (t : CaptureTask B)
      → (Keeps out x) t
      → Leaves (Keeps out x) (on_peer_lost out handle t)
  unfolding on_peer_lost
  on_peer_lost-Keeps none t h = released_if (is_some t.active_client) t h
  on_peer_lost-Keeps (some handle) t h = released_if (is_client handle t.active_client) t h

  pub on_monitor_tick-Keeps :
      (t : CaptureTask B) → (Keeps out x) t → (Keeps out x) (on_monitor_tick out t)
  unfolding on_monitor_tick emit
  on_monitor_tick-Keeps t h =
      let current = out.monitors t.capture.capture in
      if_both (Keeps out x) (out.same_monitors current t.last_monitors) t
        (emit (ICaptureEvent.monitors_changed current) (record t { last_monitors = current })) h h
