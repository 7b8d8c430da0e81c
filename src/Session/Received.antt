-- ===== src/Session/Received.antt =====
-- The messages of the peers, the requests of the service and the notices of lost peers, src/capture.rs:
-- branches of `CaptureTask::do_capture_session`.
use lan_mouse_pro.Common.{
  ℕ, Bool, true, false, not, ◌==◌, if◌then◌else◌, Option, none, some, List, [], ◌∷◌, ◌++◌,
}
use lan_mouse_pro.Capture.Barriers
use lan_mouse_pro.Client.Types.{BarrierKey}
use lan_mouse_pro.Session.Events.{is_client}
use lan_mouse_pro.Session.Outcome.{Outcome, done, try}
use lan_mouse_pro.Session.Outside.{
  Outside, with_world, with_state, lift, send, start_capture, cancel_pending, refresh,
}
use lan_mouse_pro.Session.Release.{release_capture}
use lan_mouse_pro.Session.Types.{
  State, CaptureType, CaptureRequest, Registered, CaptureTask, is_some,
}
use lan_mouse_pro.Wire.Types.{ProtoEvent}
use mathlib.Core.Logic.{ite}
use native.Mathlib.Decide.{ℕ_discrete}

-- `self.captures.retain(|&(h, ..)| handle != h)`.
unfoldable pub remove_captures : ℕ → List Registered → List Registered
remove_captures handle [] = []
remove_captures handle (c ∷ cs) =
    let rest = remove_captures handle cs in ite (ℕ_discrete c.handle handle) rest (c ∷ rest)

-- Some other client is the active one.
unfoldable pub is_stranger : ℕ → Option ℕ → Bool
is_stranger handle none = false
is_stranger handle (some active) = not (handle == active)

module _ {B : Type 0} where
  unfoldable pub add_capture : ℕ → BarrierKey → CaptureType → CaptureTask B → CaptureTask B
  add_capture handle key capture_type t = record t {
    captures =
        t.captures ++ (record { handle = handle; key = key; capture_type = capture_type } ∷ []);
  }

  unfoldable pub remove_capture : ℕ → CaptureTask B → CaptureTask B
  unfolding remove_captures
  remove_capture handle t = record t { captures = remove_captures handle t.captures }

  module _ (out : Outside B) where
    -- With the answer of `start_capture`.
    unfoldable pub after_start : BarrierKey → Bool × CaptureTask B → CaptureTask B
    after_start key (true, t) = t
    after_start key (false, t) = with_state State.idle (cancel_pending out key t).1

    unfoldable pub on_ack : State → ℕ → CaptureTask B → CaptureTask B
    unfolding after_start is_some
    on_ack (State.pending pending_h key started) handle t =
        if pending_h == handle then after_start key (start_capture out key t) else t
    on_ack _ handle t = if is_some t.active_client then with_state State.sending t else t

    unfoldable pub on_message : ProtoEvent → ℕ → CaptureTask B → Outcome (CaptureTask B)
    unfolding on_ack
    on_message (ProtoEvent.ack _) handle t = done (on_ack t.state handle t)
    on_message (ProtoEvent.leave _) handle t = try (release_capture out t)
    on_message _ handle t = done t

    unfoldable pub on_received : ℕ → ProtoEvent → CaptureTask B → Outcome (CaptureTask B)
    unfolding is_stranger on_message
    on_received handle event t =
        if is_stranger handle t.active_client
        then done t
        else on_message event handle (refresh out t)

    unfoldable pub on_request : CaptureRequest → CaptureTask B → Outcome (CaptureTask B)
    unfolding add_capture remove_capture
    on_request CaptureRequest.reenable t = done t
    on_request CaptureRequest.release t = try (release_capture out t)
    on_request (CaptureRequest.create h p ct) t =
        lift (add_capture h p ct t) (Barriers.create out.barriers h p t.capture)
    on_request (CaptureRequest.destroy h) t =
        lift (remove_capture h t) (Barriers.destroy out.barriers h t.capture)
    on_request (CaptureRequest.set_release_bind bind) t = done (record t { release_bind = bind })
    on_request (CaptureRequest.dial handle) t =
        done (with_world t (out.dial handle t.capture.capture))
    on_request (CaptureRequest.send_clip event handle) t = done (send out event handle t).1

    -- None: the senders are gone.
    unfoldable pub on_peer_lost : Option ℕ → CaptureTask B → Outcome (CaptureTask B)
    unfolding is_some is_client
    on_peer_lost none t = if is_some t.active_client then try (release_capture out t) else done t
    on_peer_lost (some handle) t =
        if is_client handle t.active_client then try (release_capture out t) else done t
