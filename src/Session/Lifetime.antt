-- ===== src/Session/Lifetime.antt =====
-- `CaptureTask::run`, `do_capture` and `create_captures`, src/capture.rs: a session is started, and
-- behind its end the requests are served until one asks for the next session. What
-- `InputCapture::new` answers is a parameter of each session: none stands for its error.
use lan_mouse_pro.Common.{ℕ, Bool, true, false, ◌&&◌, Option, none, some, List, [], ◌∷◌}
use lan_mouse_pro.Capture.Barriers
use lan_mouse_pro.Capture.Barriers.{InputCapture}
use lan_mouse_pro.Capture.Run.{Run, ◌>>=◌}
use lan_mouse_pro.Session.Outcome.{and_then, Outcome, done, ended, failed, panic, try}
use lan_mouse_pro.Session.Outside.{Outside, with_world, emit, lift, send}
use lan_mouse_pro.Session.Received.{add_capture, remove_capture}
use lan_mouse_pro.Session.Steps.{Branch, session}
use lan_mouse_pro.Session.Types.{
  State, ICaptureEvent, CaptureRequest, WatchdogConfig, Registered, CaptureTask,
}

module _ {B : Type 0} where
  -- `InputCapture::new` on the backend that it was given.
  abbrev pub new_capture : B → InputCapture B
  new_capture b = record {
    capture = b;
    pressed_keys = [];
    position_map = [];
    id_map = [];
    pending = [];
  }

  -- `Capture::new`.
  unfoldable pub new_task : List ℕ → WatchdogConfig → ℕ → B → CaptureTask B
  new_task release_bind watchdog_config now b = record {
    capture = new_capture b;
    active_client = none;
    captures = [];
    release_bind = release_bind;
    state = State.idle;
    release_bind_prev = false;
    watchdog = record {
      consecutive_send_failures = 0;
      recent_crossings = [];
      last_progress_at = now;
    };
    watchdog_config = watchdog_config;
    last_monitors = [];
    sent = [];
    emitted = [];
  }

  module _ (out : Outside B) where
    unfoldable pub create_captures : List Registered → InputCapture B → Run (InputCapture B)
    create_captures [] ic = Run.done ic
    create_captures (c ∷ cs) ic =
        Barriers.create out.barriers c.handle c.key ic >>= create_captures cs

    -- The new capture, the first list of monitors, and the guard.
    unfoldable pub open_session : B → CaptureTask B → CaptureTask B
    unfolding emit
    open_session b t =
        let initial = out.monitors b in
        emit ICaptureEvent.capture_enabled (
          emit (ICaptureEvent.monitors_changed initial)
            (record t { capture = new_capture b; last_monitors = initial }))

    -- Behind the session, which may have ended with an error: `capture.terminate()`, and the guard's
    -- drop.
    unfoldable pub close_session : Bool → CaptureTask B → Outcome (CaptureTask B)
    unfolding emit
    close_session ok t =
        let (terminated, b) = out.terminate t.capture.capture in
        try (ok && terminated, emit ICaptureEvent.capture_disabled (with_world t b))

    -- With the outcome of the session.
    unfoldable pub after_session : Outcome (CaptureTask B) → Outcome (CaptureTask B)
    unfolding close_session
    after_session (done t) = close_session true t
    after_session (ended t) = close_session true t
    after_session (failed t) = close_session false t
    after_session panic = panic

    -- With the outcome of `create_captures`.
    unfoldable pub with_captures :
        List (B × Branch) → Outcome (CaptureTask B) → Outcome (CaptureTask B)
    unfolding close_session after_session session
    with_captures branches (done t) = after_session (session out branches t)
    with_captures branches (ended t) = after_session (ended t)
    with_captures branches (failed t) = close_session false t
    with_captures branches panic = panic

    unfoldable pub do_capture :
        Option B → List (B × Branch) → CaptureTask B → Outcome (CaptureTask B)
    unfolding open_session with_captures create_captures
    do_capture none branches t = failed t
    do_capture (some b) branches t =
        let opened = open_session b t in
        with_captures branches (lift opened (create_captures opened.captures opened.capture))

    -- A request between two sessions.
    unfoldable pub serve_between : CaptureRequest → CaptureTask B → CaptureTask B
    unfolding add_capture remove_capture
    serve_between CaptureRequest.reenable t = t
    serve_between (CaptureRequest.create h p ct) t = add_capture h p ct t
    serve_between (CaptureRequest.destroy h) t = remove_capture h t
    serve_between CaptureRequest.release t = t
    serve_between (CaptureRequest.set_release_bind bind) t = record t { release_bind = bind }
    serve_between (CaptureRequest.dial handle) t = with_world t (out.dial handle t.capture.capture)
    serve_between (CaptureRequest.send_clip event handle) t = (send out event handle t).1

    -- The requests up to `Reenable`.
    unfoldable pub wait_reenable : List CaptureRequest → CaptureTask B → CaptureTask B
    unfolding serve_between
    wait_reenable [] t = t
    wait_reenable (CaptureRequest.reenable ∷ rs) t = t
    wait_reenable (r ∷ rs) t = wait_reenable rs (serve_between r t)

    -- With the outcome of `do_capture`, whose error is only logged.
    unfoldable pub behind : List CaptureRequest → Outcome (CaptureTask B) → Outcome (CaptureTask B)
    unfolding wait_reenable
    behind requests (done t) = done (wait_reenable requests t)
    behind requests (ended t) = done (wait_reenable requests t)
    behind requests (failed t) = done (wait_reenable requests t)
    behind requests panic = panic

    -- One turn of the loop: a session, and what is served behind it.
    unfoldable pub run :
        List (Option B × (List (B × Branch) × List CaptureRequest))
        → CaptureTask B
        → Outcome (CaptureTask B)
    unfolding do_capture behind
    run [] t = done t
    run ((b, (branches, requests)) ∷ rounds) t =
        and_then (behind requests (do_capture b branches t)) (run rounds)
