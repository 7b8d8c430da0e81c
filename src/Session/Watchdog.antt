-- ===== src/Session/Watchdog.antt =====
-- The ticks of `CaptureTask::do_capture_session`, src/capture.rs: the timeout of a pending capture, the
-- two watchdogs and the poll of the monitors.
use lan_mouse_pro.Common.{ℕ, ◌-◌, Bool, not, ◌&&◌, leb, ltb, if◌then◌else◌, List, [], ◌∷◌, length}
use lan_mouse_pro.Session.Outside.{
  Outside, with_state, emit, instant, release, cancel_pending, refresh,
}
use lan_mouse_pro.Session.Release.{release_capture}
use lan_mouse_pro.Session.Types.{
  State, ICaptureEvent, CaptureTask, is_idle, is_sending, is_some, pending_ack_timeout,
}

-- The times in front that lie further back than the window.
unfoldable pub drop_expired : (now window : ℕ) → List ℕ → List ℕ
drop_expired now window [] = []
drop_expired now window (front ∷ rest) =
    let dropped = drop_expired now window rest in
    if ltb window (now - front) then dropped else front ∷ rest

module _ {B : Type 0} where
  -- The ghost: Sending without an active client.
  unfoldable pub is_ghost : CaptureTask B → Bool
  unfolding is_sending is_some
  is_ghost t =
      t.watchdog_config.ghost_active_check && (is_sending t.state && not (is_some t.active_client))

  -- Crossing after crossing without success.
  unfoldable pub is_storm : CaptureTask B → Bool
  unfolding is_idle is_some
  is_storm t =
      leb t.watchdog_config.crossing_storm_threshold (length t.watchdog.recent_crossings)
      && (is_idle t.state && not (is_some t.active_client))

  unfoldable pub is_failing : CaptureTask B → Bool
  unfolding is_sending
  is_failing t =
      t.watchdog_config.send_failures_check
      && (is_sending t.state
          && leb t.watchdog_config.send_failures_threshold t.watchdog.consecutive_send_failures)

  unfoldable pub is_stuck : ℕ → CaptureTask B → Bool
  unfolding is_idle
  is_stuck now t =
      t.watchdog_config.no_progress_check
      && (not (is_idle t.state)
          && ltb t.watchdog_config.no_progress_timeout (now - t.watchdog.last_progress_at))

  abbrev pub progressed_at : ℕ → CaptureTask B → CaptureTask B
  progressed_at now t = record t { watchdog = record t.watchdog { last_progress_at = now } }

  abbrev pub with_failures : ℕ → CaptureTask B → CaptureTask B
  with_failures n t = record t { watchdog = record t.watchdog { consecutive_send_failures = n } }

  abbrev pub with_crossings : List ℕ → CaptureTask B → CaptureTask B
  with_crossings crossings t = record t {
    watchdog = record t.watchdog { recent_crossings = crossings };
  }

module _ {B : Type 0} (out : Outside B) where
  -- `started.elapsed() >= PENDING_ACK_TIMEOUT`.
  unfoldable pub is_timed_out : ℕ → CaptureTask B → Bool
  unfolding instant
  is_timed_out started t = leb pending_ack_timeout (instant out t - started)

  unfoldable pub on_pending_tick : State → CaptureTask B → CaptureTask B
  unfolding is_timed_out
  on_pending_tick (State.pending handle key started) t =
      if is_timed_out started t then with_state State.idle (cancel_pending out key t).1 else t
  on_pending_tick _ t = t

  unfoldable pub run_watchdog_light : CaptureTask B → CaptureTask B
  unfolding is_ghost
  run_watchdog_light t =
      if is_ghost t then refresh out (release out (with_state State.idle t)).1 else t

  -- (3) No progress.
  unfoldable pub check_no_progress : ℕ → CaptureTask B → CaptureTask B
  unfolding is_stuck
  check_no_progress now t =
      if is_stuck now t then progressed_at now (release_capture out t).1 else t

  -- (2) The storm of send failures, then (3).
  unfoldable pub check_send_failures : ℕ → CaptureTask B → CaptureTask B
  unfolding is_failing check_no_progress
  check_send_failures now t =
      if is_failing t
      then progressed_at now (release_capture out (with_failures 0 t)).1
      else check_no_progress now t

  -- (1) The crossing storm behind the cleanup of the window, then (2).
  unfoldable pub check_storm : ℕ → CaptureTask B → CaptureTask B
  unfolding is_storm check_send_failures
  check_storm now t =
      if is_storm t
      then progressed_at now (with_crossings [] (release_capture out t).1)
      else check_send_failures now t

  unfoldable pub run_watchdog_heavy : CaptureTask B → CaptureTask B
  unfolding instant drop_expired check_storm
  run_watchdog_heavy t =
      let now = instant out t in
      if t.watchdog_config.crossing_storm_check
      then check_storm now (
          with_crossings
            (drop_expired now t.watchdog_config.crossing_window t.watchdog.recent_crossings) t)
      else check_send_failures now t

  unfoldable pub on_monitor_tick : CaptureTask B → CaptureTask B
  unfolding emit
  on_monitor_tick t =
      let current = out.monitors t.capture.capture in
      if out.same_monitors current t.last_monitors
      then t
      else emit (ICaptureEvent.monitors_changed current) (record t { last_monitors = current })
