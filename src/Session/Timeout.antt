-- ===== src/Session/Timeout.antt =====
-- src/capture.rs: the timeout of a pending capture and what the heavy watchdog guarantees.
use lan_mouse_pro.Common.{
  ℕ, ◌-◌, ◌≡◌, ◌≢◌, ◌≤◌, ◌<◌, ◌⊎◌, refl, sym, ap, ◌∙◌, subst, inl, Bool, true, false, not,
  leb-false→lt, ==_refl, arith, if_each, if_both, if◌then◌else◌, some, [],
}
use lan_mouse_pro.Client.Types.{BarrierKey}
use lan_mouse_pro.Session.Events.{begin_pending, send_enter, entered_pending, on_begin_pending}
use lan_mouse_pro.Session.Outcome.{done}
use lan_mouse_pro.Session.Outside.{
  Outside, with_world, with_state, instant, send, cancel_pending, count_failure, refresh,
}
use lan_mouse_pro.Session.Received.{is_stranger, on_ack, on_message, on_received}
use lan_mouse_pro.Session.Release.{release_capture}
use lan_mouse_pro.Session.Released.{release_capture-Releases}
use lan_mouse_pro.Session.Types.{
  State, CaptureTask, is_idle, is_sending, is_some, pending_ack_timeout,
}
use lan_mouse_pro.Session.Watchdog.{
  drop_expired, is_storm, is_failing, is_stuck, progressed_at, with_failures, with_crossings,
  is_timed_out, on_pending_tick, check_no_progress, check_send_failures, check_storm,
  run_watchdog_heavy,
}
use lan_mouse_pro.Wire.Types.{ProtoEvent}

-- A capture that is pending became so less than 500 ms before the time.
abbrev pub IsFresh : ℕ → State → Type 0
IsFresh now (State.pending handle key started) = now - started < pending_ack_timeout
IsFresh now _ = Unit

module _ {B : Type 0} (out : Outside B) where
  young_enough :
      (started : ℕ) (t : CaptureTask B)
      → is_timed_out out started t ≡ false
      → instant out t - started < pending_ack_timeout
  unfolding is_timed_out
  young_enough started t young = leb-false→lt pending_ack_timeout (instant out t - started) young

  pending_tick-IsFresh :
      (state : State) (t : CaptureTask B)
      → t.state ≡ state
      → let after = on_pending_tick out state t in
        IsFresh (instant out t) after.state × (after.sent ≡ t.sent)
  unfolding on_pending_tick cancel_pending
  pending_tick-IsFresh State.idle t at = (subst (IsFresh (instant out t)) (sym at) tt, refl)
  pending_tick-IsFresh State.sending t at = (subst (IsFresh (instant out t)) (sym at) tt, refl)
  pending_tick-IsFresh (State.pending handle key started) t at =
      if_each (λ after. IsFresh (instant out t) after.state × (after.sent ≡ t.sent))
        (is_timed_out out started t) (with_state State.idle (cancel_pending out key t).1) t
        (λ over. (tt, refl))
        (λ young. (subst (IsFresh (instant out t)) (sym at) (young_enough started t young), refl))

  -- A tick of the timeout leaves no capture pending that has been so for 500 ms or more, whatever came
  -- before it; it tells the peers nothing.
  pub on_pending_tick-IsFresh :
      (t : CaptureTask B)
      → let after = on_pending_tick out t.state t in
        IsFresh (instant out t) after.state × (after.sent ≡ t.sent)
  on_pending_tick-IsFresh t = pending_tick-IsFresh t.state t refl

  -- Idle, or nothing that the two checks look for, if they are on.
  abbrev pub IsHealthy : ℕ → CaptureTask B → Type 0
  IsHealthy now t =
      (t.state ≡ State.idle)
      ⊎ (((t.watchdog_config.no_progress_check ≡ false)
            ⊎ (now - t.watchdog.last_progress_at ≤ t.watchdog_config.no_progress_timeout))
          × ((t.watchdog_config.send_failures_check ≡ false)
              ⊎ ((t.state ≢ State.sending)
                  ⊎ (t.watchdog.consecutive_send_failures
                      < t.watchdog_config.send_failures_threshold))))

  -- Without the two faults the task is healthy.
  faultless-IsHealthy :
      (now : ℕ) (t : CaptureTask B)
      → is_failing t ≡ false
      → is_stuck now t ≡ false
      → IsHealthy now t
  unfolding is_stuck is_idle is_failing is_sending
  faultless-IsHealthy now t calm moving = ground arith

  check_no_progress-IsHealthy :
      (now : ℕ) (t : CaptureTask B)
      → is_failing t ≡ false
      → IsHealthy now (check_no_progress out now t)
  unfolding check_no_progress
  check_no_progress-IsHealthy now t calm =
      if_each (IsHealthy now) (is_stuck now t) (progressed_at now (release_capture out t).1) t
        (λ stuck. inl (release_capture-Releases out t).0) (faultless-IsHealthy now t calm)

  check_send_failures-IsHealthy :
      (now : ℕ) (t : CaptureTask B) → IsHealthy now (check_send_failures out now t)
  unfolding check_send_failures
  check_send_failures-IsHealthy now t =
      if_each (IsHealthy now) (is_failing t)
        (progressed_at now (release_capture out (with_failures 0 t)).1)
        (check_no_progress out now t)
        (λ failing. inl (release_capture-Releases out (with_failures 0 t)).0)
        (check_no_progress-IsHealthy now t)

  check_storm-IsHealthy : (now : ℕ) (t : CaptureTask B) → IsHealthy now (check_storm out now t)
  unfolding check_storm
  check_storm-IsHealthy now t =
      if_both (IsHealthy now) (is_storm t)
        (progressed_at now (with_crossings [] (release_capture out t).1))
        (check_send_failures out now t) (inl (release_capture-Releases out t).0)
        (check_send_failures-IsHealthy now t)

  -- When the heavy watchdog has run, the task is Idle, or neither of the two faults is left: with the
  -- check of the progress on, the last progress lies no further back than the timeout, and with the
  -- check of the sends on, a task that is Sending has fewer failures in a row than the threshold.
  pub run_watchdog_heavy-IsHealthy :
      (t : CaptureTask B) → IsHealthy (instant out t) (run_watchdog_heavy out t)
  unfolding run_watchdog_heavy
  run_watchdog_heavy-IsHealthy t =
      let now = instant out t in
      let t1 =
        with_crossings
          (drop_expired now t.watchdog_config.crossing_window t.watchdog.recent_crossings) t in
      if_both (IsHealthy now) t.watchdog_config.crossing_storm_check (check_storm out now t1)
        (check_send_failures out now t) (check_storm-IsHealthy now t1)
        (check_send_failures-IsHealthy now t)

  begin_pending-active :
      (key : BarrierKey) (r : Bool × CaptureTask B)
      → (entered_pending out key r).active_client ≡ r.1.active_client
  unfolding entered_pending refresh count_failure cancel_pending
  begin_pending-active key (true, t) = refl
  begin_pending-active key (false, t) = refl

  on_pending_tick-active :
      (state : State) (t : CaptureTask B)
      → (on_pending_tick out state t).active_client ≡ t.active_client
  unfolding on_pending_tick cancel_pending
  on_pending_tick-active State.idle t = refl
  on_pending_tick-active State.sending t = refl
  on_pending_tick-active (State.pending handle key started) t =
      if_both (λ after. after.active_client ≡ t.active_client) (is_timed_out out started t)
        (with_state State.idle (cancel_pending out key t).1) t refl refl

  idle_ack-sending :
      (a n : ℕ) (t : CaptureTask B)
      → t.active_client ≡ some a
      → t.state ≡ State.idle
      → on_received out a (ProtoEvent.ack n) t ≡ done (with_state State.sending (refresh out t))
  unfolding on_received is_stranger on_message on_ack is_some refresh
  idle_ack-sending a n t active at =
      ap
        (λ o.
          if is_stranger a o then done t else on_message out (ProtoEvent.ack n) a (refresh out t))
        active
      ∙ (ap (λ c. if not c then done t else on_message out (ProtoEvent.ack n) a (refresh out t))
            (==_refl a)
          ∙ (ap (λ st. done (on_ack out st a (refresh out t))) at
              ∙ ap
                  (λ o.
                    done (
                      if is_some o
                      then with_state State.sending (refresh out t)
                      else refresh out t))
                  active))

  -- A crossing, and the tick of the timeout at a later time.
  abbrev pub crossed_and_ticked : ℕ → BarrierKey → B → CaptureTask B → CaptureTask B
  crossed_and_ticked handle key b t =
      let crossed = with_world (on_begin_pending out handle key t) b in
      on_pending_tick out crossed.state crossed

  -- A client that is still the active one when a crossing begins stays so when the crossing times out:
  -- its Ack, at any later time, then makes the task Sending.
  pub late_ack-sending :
      (a handle n : ℕ) (key : BarrierKey) (b later : B) (t : CaptureTask B)
      → t.active_client ≡ some a
      → (crossed_and_ticked handle key b t).state ≡ State.idle
      → on_received out a (ProtoEvent.ack n) (with_world (crossed_and_ticked handle key b t) later)
        ≡ done (
            with_state State.sending
              (refresh out (with_world (crossed_and_ticked handle key b t) later)))
  unfolding on_begin_pending send_enter send begin_pending
  late_ack-sending a handle n key b later t active over =
      let crossed = with_world (on_begin_pending out handle key t) b in
      idle_ack-sending a n (with_world (crossed_and_ticked handle key b t) later)
        (on_pending_tick-active crossed.state crossed
          ∙ (begin_pending-active key (send_enter out key handle (begin_pending out handle key t))
              ∙ active))
        over
