-- ===== src/Session/NoPanic.antt =====
-- src/capture.rs: which branches cannot make the capture task panic.
use lan_mouse_pro.Common.{
  ℕ, ◌≡◌, refl, sym, ap, ◌∙◌, subst, inl, inr, none, Option-cases, Bool, if_both, if◌then◌else◌,
}
use lan_mouse_pro.Capture.Barriers
use lan_mouse_pro.Capture.Barriers.{Backend, CaptureEvent, InputCapture}
use lan_mouse_pro.Capture.Operations.{IsPut, IsGone, create-IsPut, destroy-IsGone}
use lan_mouse_pro.Capture.Run.{Safe, Safe-OnDone}
use lan_mouse_pro.Capture.Queue.{SameQueue, create-SameQueue, destroy-SameQueue}
use lan_mouse_pro.Capture.Stream.{Poll, poll_next}
use lan_mouse_pro.Session.Events.{find_capture, handle_capture_event}
use lan_mouse_pro.Session.Barriers.{Unqueued, created-IsKnown, destroyed-IsKnown, lift-Continues}
use lan_mouse_pro.Session.Kept.{
  Kept, kept, Keeps, release_capture-Keeps, handle_capture_event-Keeps,
}
use lan_mouse_pro.Session.Known.{
  key_found, IsRegistered, Agree, IsKnown, IsKnown-IsValid, Delivers, poll_next-known,
}
use lan_mouse_pro.Session.Outcome.{
  Outcome, done, ended, failed, panic, try, Leaves, Continues, Leaves-try,
}
use lan_mouse_pro.Session.Outside.{Outside, send}
use lan_mouse_pro.Session.Quiet.{
  on_received-Keeps, run_watchdog_light-Keeps, run_watchdog_heavy-Keeps, on_pending_tick-Keeps,
  on_peer_lost-Keeps, on_monitor_tick-Keeps,
}
use lan_mouse_pro.Session.Received.{add_capture, remove_capture, on_request}
use lan_mouse_pro.Session.Release.{release_capture}
use lan_mouse_pro.Session.Steps.{Branch, on_next, step}
use lan_mouse_pro.Session.Types.{CaptureRequest, CaptureTask, any_check_enabled}
use lan_mouse_pro.Session.Watchdog.{
  on_pending_tick, on_monitor_tick, run_watchdog_light, run_watchdog_heavy,
}

-- A capture is created under a handle that is not registered, and destroyed under one that is, for which
-- no event is queued.
abbrev pub IsAdmitted : {B : Type 0} → CaptureRequest → CaptureTask B → Type 0
IsAdmitted (CaptureRequest.create h p ct) t = find_capture h t.captures ≡ none
IsAdmitted (CaptureRequest.destroy h) t = IsRegistered t.captures h × Unqueued h t.capture.pending
IsAdmitted _ t = Unit

abbrev pub IsAdmissible : {B : Type 0} → Branch → CaptureTask B → Type 0
IsAdmissible (Branch.request r) t = IsAdmitted r t
IsAdmissible _ t = Unit

module _ {B : Type 0} (out : Outside B) where
  kept_on :
      (x : Kept) (o : Outcome (CaptureTask B))
      → Agree x
      → Leaves (Keeps out x) o
      → Continues IsKnown o
  kept_on x (done t) known same = subst Agree (sym same) known
  kept_on x (ended t) known same = tt
  kept_on x (failed t) known same = tt
  kept_on x panic known same = same

  kept_after : (t after : CaptureTask B) → IsKnown t → Keeps out (kept t) after → IsKnown after
  kept_after t after known same = subst Agree (sym same) known

  ticked-IsKnown :
      (c : Bool) (after t : CaptureTask B)
      → IsKnown t
      → Keeps out (kept t) after
      → IsKnown (if c then after else t)
  ticked-IsKnown c after t known same =
      if_both IsKnown c after t (kept_after t after known same) known

  -- A registered handle is taken down without a panic.
  pub destroy-Safe :
      (h : ℕ) (t : CaptureTask B)
      → IsKnown t
      → IsRegistered t.captures h
      → Safe
          (λ after. IsGone h t.capture after × SameQueue t.capture after)
          (Barriers.destroy out.barriers h t.capture)
  destroy-Safe h t known here = elim (Option-cases (find_capture h t.captures)) [
    | inl absent ↦ absurd (here absent)
    | inr (found, registered) ↦
        Safe-OnDone (IsGone h t.capture) (SameQueue t.capture)
          (Barriers.destroy out.barriers h t.capture)
          (destroy-IsGone out.barriers h found.0 t.capture (IsKnown-IsValid t known)
            (known.same_keys h ∙ ap key_found registered))
          (destroy-SameQueue out.barriers h t.capture)
  ]

  on_request-IsKnown :
      (r : CaptureRequest) (t : CaptureTask B)
      → IsKnown t
      → IsAdmitted r t
      → Continues IsKnown (on_request out r t)
  unfolding on_request send
  on_request-IsKnown CaptureRequest.reenable t known ok = known
  on_request-IsKnown CaptureRequest.release t known ok =
      kept_on (kept t) (try (release_capture out t)) known (
        Leaves-try (Keeps out (kept t)) (release_capture out t)
          (release_capture-Keeps out (kept t) t refl))
  on_request-IsKnown (CaptureRequest.create h p ct) t known fresh =
      lift-Continues (λ after. IsPut h p t.capture after × SameQueue t.capture after) IsKnown
        (add_capture h p ct t) (Barriers.create out.barriers h p t.capture)
        (Safe-OnDone (IsPut h p t.capture) (SameQueue t.capture) _
          (create-IsPut out.barriers h p t.capture (IsKnown-IsValid t known)
            (known.same_keys h ∙ ap key_found fresh))
          (create-SameQueue out.barriers h p t.capture))
        (λ after made. created-IsKnown h p ct t after known fresh made)
  on_request-IsKnown (CaptureRequest.destroy h) t known (here, unqueued) =
      lift-Continues (λ after. IsGone h t.capture after × SameQueue t.capture after) IsKnown
        (remove_capture h t) (Barriers.destroy out.barriers h t.capture)
        (destroy-Safe h t known here)
        (λ after gone. destroyed-IsKnown h t after known unqueued gone)
  on_request-IsKnown (CaptureRequest.set_release_bind bind) t known ok = known
  on_request-IsKnown (CaptureRequest.dial handle) t known ok = known
  on_request-IsKnown (CaptureRequest.send_clip event handle) t known ok = known

  on_next-IsKnown :
      (answer : Poll (ℕ × CaptureEvent)) (t : CaptureTask B)
      → IsKnown t
      → Delivers t.captures answer
      → Continues IsKnown (on_next out answer t)
  unfolding on_next
  on_next-IsKnown Poll.not_ready t known d = known
  on_next-IsKnown Poll.closed t known d = tt
  on_next-IsKnown Poll.error t known d = tt
  on_next-IsKnown (Poll.item (handle, event)) t known d =
      kept_on (kept t) (handle_capture_event out handle event t) known
        (handle_capture_event-Keeps out (kept t) handle event t d refl)

  -- While the registered captures, the barriers and the queue agree, no branch makes the capture task
  -- panic, and where the session goes on they agree again; provided that a capture is created under a
  -- new handle, and destroyed under a registered handle for which no event is queued.
  pub step-IsKnown :
      (branch : Branch) (t : CaptureTask B)
      → IsKnown t
      → IsAdmissible branch t
      → Continues IsKnown (step out branch t)
  unfolding step
  step-IsKnown Branch.next_event t known ok =
      let r = poll_next out.poll t.capture in
      let (delivered, known') = poll_next-known t.captures out.poll t.capture known in
      on_next-IsKnown r.0 (record t { capture = r.1 }) known' delivered
  step-IsKnown (Branch.received handle event) t known ok =
      kept_on (kept t) _ known (on_received-Keeps out (kept t) handle event t refl)
  step-IsKnown (Branch.request r) t known ok = on_request-IsKnown r t known ok
  step-IsKnown Branch.pending_tick t known ok =
      kept_after t (on_pending_tick out t.state t) known
        (on_pending_tick-Keeps out (kept t) t.state t refl)
  step-IsKnown Branch.watchdog_light_tick t known ok =
      ticked-IsKnown (any_check_enabled out.watchdog_env t.watchdog_config)
        (run_watchdog_light out t) t known (run_watchdog_light-Keeps out (kept t) t refl)
  step-IsKnown Branch.watchdog_heavy_tick t known ok =
      ticked-IsKnown (any_check_enabled out.watchdog_env t.watchdog_config)
        (run_watchdog_heavy out t) t known (run_watchdog_heavy-Keeps out (kept t) t refl)
  step-IsKnown Branch.monitor_tick t known ok =
      kept_after t (on_monitor_tick out t) known (on_monitor_tick-Keeps out (kept t) t refl)
  step-IsKnown (Branch.peer_lost handle) t known ok =
      kept_on (kept t) _ known (on_peer_lost-Keeps out (kept t) handle t refl)
  step-IsKnown Branch.cancelled t known ok = tt
