-- ===== src/Session/Kept.antt =====
-- src/capture.rs: what of the capture task only its `Create` and `Destroy` requests and the stream of
-- the backend change.
use lan_mouse_pro.Common.{
  ℕ, ◌≡◌, ◌≢◌, refl, Bool, true, false, Option, none, some, List, [], ◌∷◌, if_both, if◌then◌else◌,
}
use lan_mouse_pro.Capture.Barriers.{CaptureEvent}
use lan_mouse_pro.Capture.Stream.{keys_pressed, take_pressed_keys}
use lan_mouse_pro.Client.Types.{BarrierKey}
use lan_mouse_pro.Session.Events.{
  enter_client, is_client, on_enter_only, send_enter, begin_pending, entered_pending,
  on_begin_pending, on_cancel_pending, after_send, on_begin, on_input, on_event, on_registered,
  handle_capture_event, is_trigger, is_default_capture_at, is_pending_for, find_capture,
}
use lan_mouse_pro.Session.Outcome.{done, try, Leaves, Leaves-try}
use lan_mouse_pro.Session.Outside.{
  Outside, with_state, emit, count_failure, send, release, cancel_pending, refresh, reset_watchdog,
}
use lan_mouse_pro.Session.Release.{
  key_up, send_key_ups, leave_client, release_state, release_capture,
}
use lan_mouse_pro.Session.Types.{
  State, CaptureType, ICaptureEvent, Registered, CaptureTask, should_skip_release,
}
use lan_mouse_pro.Wire.Types.{ProtoEvent, InputEvent}

-- The registered captures, the maps of the barriers and the queue of events.
abbrev pub Kept : Type 0
Kept =
    List Registered
    × (List (ℕ × BarrierKey) × (List (BarrierKey × List ℕ) × List (ℕ × CaptureEvent)))

abbrev pub kept : {B : Type 0} → CaptureTask B → Kept
kept t = (t.captures, (t.capture.id_map, (t.capture.position_map, t.capture.pending)))

module _ {B : Type 0} (out : Outside B) (x : Kept) where
  abbrev pub Keeps : CaptureTask B → Type 0
  Keeps t = kept t ≡ x

  send_key_ups-Keeps :
      (keys : List ℕ) (handle : ℕ) (t : CaptureTask B)
      → Keeps t
      → Keeps (send_key_ups out keys handle t)
  unfolding send_key_ups send
  send_key_ups-Keeps [] handle t h = h
  send_key_ups-Keeps (k ∷ ks) handle t h =
      send_key_ups-Keeps ks handle (send out (key_up k) handle t).1 h

  leave_client-Keeps :
      (active_client : Option ℕ) (t : CaptureTask B)
      → Keeps t
      → Keeps (leave_client out active_client t)
  unfolding leave_client take_pressed_keys send
  leave_client-Keeps none t h = h
  leave_client-Keeps (some handle) t h =
      send_key_ups-Keeps t.capture.pressed_keys handle
        (record t { capture = record t.capture { pressed_keys = [] }; active_client = none }) h

  release_state-Keeps :
      (state : State) (t : CaptureTask B) → Keeps t → Keeps (release_state out state t).1
  unfolding release_state release reset_watchdog cancel_pending
  release_state-Keeps State.idle t h = leave_client-Keeps t.active_client t h
  release_state-Keeps State.sending t h = leave_client-Keeps t.active_client t h
  release_state-Keeps (State.pending p key started) t h = h

  pub release_capture-Keeps : (t : CaptureTask B) → Keeps t → Keeps (release_capture out t).1
  unfolding release_capture reset_watchdog
  release_capture-Keeps t h =
      if_both (λ r. Keeps r.1) (should_skip_release t.state t.active_client)
        (true, reset_watchdog out t) (release_state out t.state t) h
        (release_state-Keeps t.state t h)

  pub enter_client-Keeps :
      (handle : ℕ) (t : CaptureTask B) → Keeps t → Keeps (enter_client handle t)
  unfolding enter_client emit
  enter_client-Keeps handle t h =
      if_both Keeps (is_client handle t.active_client) t
        (emit (ICaptureEvent.client_entered handle) (record t { active_client = some handle })) h h

  after_send-Keeps : (r : Bool × CaptureTask B) → Keeps r.1 → Leaves Keeps (after_send out r)
  unfolding after_send refresh release count_failure
  after_send-Keeps (true, t) h = h
  after_send-Keeps (false, t) h = Leaves-try Keeps (release out (count_failure t)) h

  entered_pending-Keeps :
      (key : BarrierKey) (r : Bool × CaptureTask B) → Keeps r.1 → Keeps (entered_pending out key r)
  unfolding entered_pending refresh count_failure cancel_pending
  entered_pending-Keeps key (true, t) h = h
  entered_pending-Keeps key (false, t) h = h

  on_begin-Keeps :
      (promoted : Bool) (handle : ℕ) (key : BarrierKey) (t : CaptureTask B)
      → Keeps t
      → Leaves Keeps (on_begin out promoted handle key t)
  unfolding on_begin refresh send_enter send
  on_begin-Keeps true handle key t h = enter_client-Keeps handle t h
  on_begin-Keeps false handle key t h =
      after_send-Keeps
        (send_enter out key handle (with_state State.sending (enter_client handle t)))
        (enter_client-Keeps handle t h)

  on_input-Keeps :
      (state : State) (e : InputEvent) (handle : ℕ) (t : CaptureTask B)
      → Keeps t
      → Leaves Keeps (on_input out state e handle t)
  unfolding on_input send
  on_input-Keeps State.idle e handle t h = h
  on_input-Keeps (State.pending p key started) e handle t h = h
  on_input-Keeps State.sending e handle t h =
      after_send-Keeps (send out (ProtoEvent.input e) handle t) h

  on_event-Keeps :
      (event : CaptureEvent) (handle : ℕ) (key : BarrierKey) (t : CaptureTask B)
      → Keeps t
      → Leaves Keeps (on_event out event handle key t)
  unfolding on_event emit on_begin_pending send_enter begin_pending send on_cancel_pending
      cancel_pending
  on_event-Keeps CaptureEvent.begin_pending handle key t h =
      entered_pending-Keeps key (send_enter out key handle (begin_pending out handle key t)) h
  on_event-Keeps CaptureEvent.cancel_pending handle key t h =
      let t1 = (cancel_pending out key t).1 in
      if_both Keeps (is_pending_for handle t1.state) (with_state State.idle t1) t1 h h
  on_event-Keeps CaptureEvent.begin handle key t h =
      on_begin-Keeps (is_pending_for handle t.state) handle key
        (emit (ICaptureEvent.capture_begin handle) t) h
  on_event-Keeps (CaptureEvent.input e) handle key t h = on_input-Keeps t.state e handle t h

  on_registered-Keeps :
      (found : Option (BarrierKey × CaptureType)) (event : CaptureEvent) (handle : ℕ)
      (t : CaptureTask B)
      → found ≢ none
      → Keeps t
      → Leaves Keeps (on_registered out found event handle t)
  unfolding on_registered on_enter_only emit release
  on_registered-Keeps none event handle t known h = absurd (known refl)
  on_registered-Keeps (some (key, CaptureType.enter_only)) event handle t known h =
      let t1 = if is_trigger event then emit (ICaptureEvent.capture_begin handle) t else t in
      let h1 =
        if_both Keeps (is_trigger event) (emit (ICaptureEvent.capture_begin handle) t) t h h in
      if_both (Leaves Keeps) (is_default_capture_at key t1.captures) (done t1)
        (try (release out t1)) h1 (Leaves-try Keeps (release out t1) h1)
  on_registered-Keeps (some (key, CaptureType.default)) event handle t known h =
      on_event-Keeps event handle key t h

  -- An event of a registered capture does not make the task panic.
  pub handle_capture_event-Keeps :
      (handle : ℕ) (event : CaptureEvent) (t : CaptureTask B)
      → find_capture handle t.captures ≢ none
      → Keeps t
      → Leaves Keeps (handle_capture_event out handle event t)
  unfolding handle_capture_event
  handle_capture_event-Keeps handle event t known h =
      let t1 = record t { release_bind_prev = keys_pressed t.release_bind t.capture } in
      if_both (Leaves Keeps) (keys_pressed t.release_bind t.capture) (try (release_capture out t1))
        (on_registered out (find_capture handle t1.captures) event handle t1)
        (Leaves-try Keeps (release_capture out t1) (release_capture-Keeps t1 h))
        (on_registered-Keeps (find_capture handle t1.captures) event handle t1 known h)
