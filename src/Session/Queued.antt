-- ===== src/Session/Queued.antt =====
-- src/capture.rs: a capture is destroyed while an event is queued for it.
use lan_mouse_pro.Common.{ℕ, ◌≡◌, refl, ap, ◌∙◌, none, false, List, [], ◌∷◌, ◌&&◌, if◌then◌else◌}
use lan_mouse_pro.Capture.Barriers
use lan_mouse_pro.Capture.Barriers.{Backend, CaptureEvent, InputCapture}
use lan_mouse_pro.Capture.Operations.{IsGone}
use lan_mouse_pro.Capture.Queue.{SameQueue}
use lan_mouse_pro.Capture.Stream.{poll_next, poll_queue, contains_key, keys_pressed}
use lan_mouse_pro.Session.Events.{find_capture, handle_capture_event, on_registered}
use lan_mouse_pro.Session.Barriers.{find_capture-remove, lift-Continues}
use lan_mouse_pro.Session.Known.{IsRegistered, IsKnown}
use lan_mouse_pro.Session.NoPanic.{destroy-Safe}
use lan_mouse_pro.Session.Outcome.{panic, try, Continues}
use lan_mouse_pro.Session.Outside.{Outside}
use lan_mouse_pro.Session.Received.{remove_capture, on_request}
use lan_mouse_pro.Session.Release.{release_capture}
use lan_mouse_pro.Session.Steps.{Branch, on_next, step}
use lan_mouse_pro.Session.Types.{CaptureRequest, CaptureTask}
use mathlib.Core.Logic.{if_pos}
use native.Mathlib.Decide.{ℕ_discrete}

keys_pressed-same :
    {B : Type 0} (keys : List ℕ) (before after : InputCapture B)
    → after.pressed_keys ≡ before.pressed_keys
    → keys_pressed keys after ≡ keys_pressed keys before
unfolding keys_pressed
keys_pressed-same [] before after same = refl
keys_pressed-same (k ∷ ks) before after same =
    ap (λ b. contains_key k after.pressed_keys && b) (keys_pressed-same ks before after same)
    ∙ ap (λ ps. contains_key k ps && keys_pressed ks before) same

module _ {B : Type 0} (out : Outside B) where
  -- The event of a handle that is not registered makes the task panic, unless it releases the capture.
  unregistered-panic :
      (h : ℕ) (event : CaptureEvent) (t : CaptureTask B)
      → find_capture h t.captures ≡ none
      → keys_pressed t.release_bind t.capture ≡ false
      → handle_capture_event out h event t ≡ panic
  unfolding handle_capture_event on_registered
  unregistered-panic h event t absent open_keys =
      let t1 = record t { release_bind_prev = keys_pressed t.release_bind t.capture } in
      ap
        (λ c.
          if c
          then try (release_capture out t1)
          else on_registered out (find_capture h t.captures) event h t1)
        open_keys
      ∙ ap (λ o. on_registered out o event h t1) absent

  -- Where the front of the queue is an event for a registered handle, a request to destroy that handle
  -- is served, unless the backend fails, and the next event that is handled makes the capture task
  -- panic; provided that the captures, the barriers and the queue agree before, and that the release
  -- keys are not held.
  pub destroy-queued-panic :
      (h : ℕ) (event : CaptureEvent) (rest : List (ℕ × CaptureEvent)) (t : CaptureTask B)
      → IsKnown t
      → IsRegistered t.captures h
      → t.capture.pending ≡ (h, event) ∷ rest
      → keys_pressed t.release_bind t.capture ≡ false
      → Continues
          (λ after. step out Branch.next_event after ≡ panic)
          (step out (Branch.request (CaptureRequest.destroy h)) t)
  unfolding step on_request on_next poll_next poll_queue remove_capture
  destroy-queued-panic h event rest t known here queued open_keys =
      lift-Continues (λ after. IsGone h t.capture after × SameQueue t.capture after)
        (λ after. step out Branch.next_event after ≡ panic) (remove_capture h t)
        (Barriers.destroy out.barriers h t.capture) (destroy-Safe out h t known here)
        (λ after gone.
          ap
            (λ es.
              let r = poll_queue out.poll es after in
              on_next out r.0 (record (remove_capture h t) { capture = r.1 }))
            (gone.1.0 ∙ queued)
          ∙ unregistered-panic h event
              (record (remove_capture h t) { capture = record after { pending = rest } })
              (find_capture-remove h h t.captures
                ∙ if_pos (ℕ_discrete h h) refl none (find_capture h t.captures))
              (keys_pressed-same t.release_bind t.capture (record after { pending = rest }) gone.1.1
                ∙ open_keys))
