-- ===== src/Session/Runs.antt =====
-- src/capture.rs: the capture task from its creation on.
use lan_mouse_pro.Common.{
  ℕ, ◌≡◌, refl, ap, Bool, true, false, not, ◌&&◌, Option, none, some, List, [], ◌∷◌, arith,
  if◌then◌else◌,
}
use lan_mouse_pro.Capture.Barriers.{InputCapture}
use lan_mouse_pro.Capture.Run.{Run}
use lan_mouse_pro.Session.Ghost.{session-IsHeld}
use lan_mouse_pro.Session.Lifetime.{
  new_task, create_captures, open_session, close_session, after_session, with_captures, do_capture,
  serve_between, wait_reenable, behind, run,
}
use lan_mouse_pro.Session.Outcome.{
  Outcome, done, ended, failed, panic, Partly, Partly-bind, Partly-mono, Partly-try,
}
use lan_mouse_pro.Session.Outside.{
  Outside, with_state, with_world, refresh, release, emit, lift, send,
}
use lan_mouse_pro.Session.Received.{add_capture, remove_capture}
use lan_mouse_pro.Session.Released.{Held, IsHeld}
use lan_mouse_pro.Session.Steps.{Branch}
use lan_mouse_pro.Session.Types.{
  State, ICaptureEvent, CaptureRequest, WatchdogConfig, CaptureTask, is_sending, is_some,
}
use lan_mouse_pro.Session.Watchdog.{is_ghost, run_watchdog_light}

module _ {B : Type 0} (out : Outside B) where
  close_session-IsHeld :
      (ok : Bool) (t : CaptureTask B) → IsHeld t → Partly IsHeld (close_session out ok t)
  unfolding close_session emit
  close_session-IsHeld ok t h =
      let (terminated, b) = out.terminate t.capture.capture in
      Partly-try IsHeld (ok && terminated, emit ICaptureEvent.capture_disabled (with_world t b)) h

  after_session-IsHeld :
      (o : Outcome (CaptureTask B)) → Partly IsHeld o → Partly IsHeld (after_session out o)
  unfolding after_session
  after_session-IsHeld (done t) h = close_session-IsHeld true t h
  after_session-IsHeld (ended t) h = close_session-IsHeld true t h
  after_session-IsHeld (failed t) h = close_session-IsHeld false t h
  after_session-IsHeld panic h = tt

  with_captures-IsHeld :
      (branches : List (B × Branch)) (o : Outcome (CaptureTask B))
      → Partly IsHeld o
      → Partly IsHeld (with_captures out branches o)
  unfolding with_captures
  with_captures-IsHeld branches (done t) h =
      after_session-IsHeld _ (session-IsHeld out branches t h)
  with_captures-IsHeld branches (ended t) h = after_session-IsHeld (ended t) h
  with_captures-IsHeld branches (failed t) h = close_session-IsHeld false t h
  with_captures-IsHeld branches panic h = tt

  lift-IsHeld : (t : CaptureTask B) (r : Run (InputCapture B)) → IsHeld t → Partly IsHeld (lift t r)
  unfolding lift
  lift-IsHeld t (Run.done ic) h = h
  lift-IsHeld t Run.failed h = h
  lift-IsHeld t Run.panic h = tt

  do_capture-IsHeld :
      (b : Option B) (branches : List (B × Branch)) (t : CaptureTask B)
      → IsHeld t
      → Partly IsHeld (do_capture out b branches t)
  unfolding do_capture open_session emit
  do_capture-IsHeld none branches t h = h
  do_capture-IsHeld (some b) branches t h =
      let opened = open_session out b t in
      with_captures-IsHeld branches _
        (lift-IsHeld opened (create_captures out opened.captures opened.capture) h)

  serve_between-IsHeld :
      (r : CaptureRequest) (t : CaptureTask B) → IsHeld t → IsHeld (serve_between out r t)
  unfolding serve_between add_capture remove_capture send
  serve_between-IsHeld CaptureRequest.reenable t h = h
  serve_between-IsHeld (CaptureRequest.create p key ct) t h = h
  serve_between-IsHeld (CaptureRequest.destroy p) t h = h
  serve_between-IsHeld CaptureRequest.release t h = h
  serve_between-IsHeld (CaptureRequest.set_release_bind bind) t h = h
  serve_between-IsHeld (CaptureRequest.dial p) t h = h
  serve_between-IsHeld (CaptureRequest.send_clip event p) t h = h

  wait_reenable-IsHeld :
      (rs : List CaptureRequest) (t : CaptureTask B) → IsHeld t → IsHeld (wait_reenable out rs t)
  unfolding wait_reenable
  wait_reenable-IsHeld [] t h = h
  wait_reenable-IsHeld (CaptureRequest.reenable ∷ rs) t h = h
  wait_reenable-IsHeld (r ∷ rs) t h = wait_reenable-IsHeld rs _ (serve_between-IsHeld r t h)

  behind-IsHeld :
      (rs : List CaptureRequest) (o : Outcome (CaptureTask B))
      → Partly IsHeld o
      → Partly IsHeld (behind out rs o)
  unfolding behind
  behind-IsHeld rs (done t) h = wait_reenable-IsHeld rs t h
  behind-IsHeld rs (ended t) h = wait_reenable-IsHeld rs t h
  behind-IsHeld rs (failed t) h = wait_reenable-IsHeld rs t h
  behind-IsHeld rs panic h = tt

  rounds-IsHeld :
      (rounds : List (Option B × (List (B × Branch) × List CaptureRequest))) (t : CaptureTask B)
      → IsHeld t
      → Partly IsHeld (run out rounds t)
  unfolding run
  rounds-IsHeld [] t h = h
  rounds-IsHeld ((b, (branches, requests)) ∷ rounds) t h =
      Partly-bind IsHeld (run out rounds) (behind out requests (do_capture out b branches t))
        (behind-IsHeld requests (do_capture out b branches t) (do_capture-IsHeld b branches t h))
        (rounds-IsHeld rounds)

  Held-no_ghost :
      (state : State) (active_client : Option ℕ)
      → Held state active_client
      → (is_sending state && not (is_some active_client)) ≡ false
  unfolding is_sending is_some
  Held-no_ghost State.idle active_client h = refl
  Held-no_ghost (State.pending p key started) active_client h = refl
  Held-no_ghost State.sending none h = absurd h
  Held-no_ghost State.sending (some handle) h = refl

  and_off : (a b : Bool) → b ≡ false → (a && b) ≡ false
  and_off a b h = ground arith

  -- The light watchdog changes nothing where the task is Sending only while a client is active.
  run_watchdog_light-IsHeld : (t : CaptureTask B) → IsHeld t → run_watchdog_light out t ≡ t
  unfolding run_watchdog_light is_ghost
  run_watchdog_light-IsHeld t h =
      ap (λ c. if c then refresh out (release out (with_state State.idle t)).1 else t)
        (and_off t.watchdog_config.ghost_active_check
          (is_sending t.state && not (is_some t.active_client))
          (Held-no_ghost t.state t.active_client h))

  -- From the creation of the capture task on, whatever branches its sessions take, however they end,
  -- and whatever is requested between them: the task is in the state Sending only while a client is
  -- active, so that the light watchdog finds nothing to change.
  pub run-IsHeld :
      (rounds : List (Option B × (List (B × Branch) × List CaptureRequest))) (release_bind : List ℕ)
      (cfg : WatchdogConfig) (now : ℕ) (b : B)
      → Partly
          (λ t. IsHeld t × (run_watchdog_light out t ≡ t))
          (run out rounds (new_task release_bind cfg now b))
  unfolding new_task
  run-IsHeld rounds release_bind cfg now b =
      let task = new_task release_bind cfg now b in
      Partly-mono IsHeld (λ t. IsHeld t × (run_watchdog_light out t ≡ t)) (run out rounds task)
        (rounds-IsHeld rounds task tt) (λ t h. (h, run_watchdog_light-IsHeld t h))
