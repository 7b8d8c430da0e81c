-- ===== src/Session/Release.antt =====
-- `CaptureTask::release_capture`, src/capture.rs.
use lan_mouse_pro.Common.{ℕ, Bool, true, if◌then◌else◌, Option, none, some, List, [], ◌∷◌}
use lan_mouse_pro.Capture.Stream.{take_pressed_keys}
use lan_mouse_pro.Session.Outside.{
  Outside, with_state, send, release, cancel_pending, reset_watchdog,
}
use lan_mouse_pro.Session.Types.{State, CaptureTask, should_skip_release}
use lan_mouse_pro.Wire.Types.{ProtoEvent, InputEvent, KeyboardEvent}

abbrev pub key_up : ℕ → ProtoEvent
key_up key = ProtoEvent.input (InputEvent.keyboard (KeyboardEvent.key 0 key 0))

abbrev pub mods_zero : ProtoEvent
mods_zero = ProtoEvent.input (InputEvent.keyboard (KeyboardEvent.modifiers 0 0 0 0))

module _ {B : Type 0} (out : Outside B) where
  -- A failed send is only logged.
  unfoldable pub send_key_ups : List ℕ → ℕ → CaptureTask B → CaptureTask B
  send_key_ups [] handle t = t
  send_key_ups (key ∷ keys) handle t = send_key_ups keys handle (send out (key_up key) handle t).1

  unfoldable pub leave_client : Option ℕ → CaptureTask B → CaptureTask B
  unfolding send_key_ups take_pressed_keys
  leave_client none t = t
  leave_client (some handle) t =
      let (held_keys, ic) = take_pressed_keys t.capture in
      let t1 = send_key_ups held_keys handle (record t { capture = ic; active_client = none }) in
      let t2 = (send out mods_zero handle t1).1 in (send out (ProtoEvent.leave 0) handle t2).1

  -- Behind the early return.
  unfoldable pub release_state : State → CaptureTask B → Bool × CaptureTask B
  unfolding leave_client
  release_state (State.pending handle key started) t =
      let (ok, t1) = release out (with_state State.idle (cancel_pending out key t).1) in
      (ok, reset_watchdog out t1)
  release_state _ t =
      let (ok, t1) = release out (with_state State.idle (leave_client t.active_client t)) in
      (ok, reset_watchdog out t1)

  unfoldable pub release_capture : CaptureTask B → Bool × CaptureTask B
  unfolding release_state
  release_capture t =
      if should_skip_release t.state t.active_client
      then (true, reset_watchdog out t)
      else release_state t.state t
