-- ===== src/Session/Released.antt =====
-- `CaptureTask::release_capture`, src/capture.rs: what it leaves and what it sends.
use lan_mouse_pro.Common.{
  ℕ, ◌≡◌, refl, sym, ap, ◌∙◌, inl, inr, true, Bool-cases, Option, none, some, List, [], ◌∷◌, ◌++◌,
  map, append_assoc, append-nil, arith,
}
use lan_mouse_pro.Capture.Stream.{take_pressed_keys}
use lan_mouse_pro.Session.Outside.{Outside, send, release, cancel_pending, reset_watchdog}
use lan_mouse_pro.Session.Release.{
  key_up, mods_zero, send_key_ups, leave_client, release_state, release_capture,
}
use lan_mouse_pro.Session.Types.{State, CaptureTask, is_idle, is_some, should_skip_release}
use lan_mouse_pro.Wire.Types.{ProtoEvent}

-- Sending without an active client is what the light watchdog looks for.
abbrev pub Held : State → Option ℕ → Type 0
Held State.sending none = ⊥
Held _ _ = Unit

abbrev pub IsHeld : {B : Type 0} → CaptureTask B → Type 0
IsHeld t = Held t.state t.active_client

pub should_skip_release-quiet :
    (state : State) (active_client : Option ℕ)
    → should_skip_release state active_client ≡ true
    → (state ≡ State.idle) × (active_client ≡ none)
unfolding should_skip_release is_idle is_some
should_skip_release-quiet state active_client h = ground arith

-- What a client is told when the capture is released: the end of every key that is held, no modifiers,
-- and that the capture left; nothing where it was pending only, or no client is active.
abbrev pub told : Option ℕ → List ℕ → List (ProtoEvent × ℕ)
told none keys = []
told (some handle) keys =
    map (λ k. (key_up k, handle)) keys ++ ((mods_zero, handle) ∷ (ProtoEvent.leave 0, handle) ∷ [])

abbrev pub farewell : State → Option ℕ → List ℕ → List (ProtoEvent × ℕ)
farewell (State.pending handle key started) active_client keys = []
farewell State.idle active_client keys = told active_client keys
farewell State.sending active_client keys = told active_client keys

abbrev pub client_left : State → Option ℕ → Option ℕ
client_left (State.pending handle key started) active_client = active_client
client_left State.idle active_client = none
client_left State.sending active_client = none

module _ {B : Type 0} (out : Outside B) where
  -- The sends of the keys change nothing but the world and what was sent.
  send_key_ups-rest :
      (keys : List ℕ) (handle : ℕ) (t : CaptureTask B)
      → let r = send_key_ups out keys handle t in
        (r.active_client ≡ t.active_client)
        × (r.sent ≡ t.sent ++ map (λ k. (key_up k, handle)) keys)
  unfolding send_key_ups send
  send_key_ups-rest [] handle t = (refl, sym (append-nil t.sent))
  send_key_ups-rest (k ∷ ks) handle t =
      let (same, more) = send_key_ups-rest ks handle (send out (key_up k) handle t).1 in
      (
        same,
        more ∙ append_assoc t.sent ((key_up k, handle) ∷ []) (map (λ k. (key_up k, handle)) ks),
      )

  leave_client-told :
      (active_client : Option ℕ) (t : CaptureTask B)
      → t.active_client ≡ active_client
      → let r = leave_client out active_client t in
        (r.active_client ≡ none) × (r.sent ≡ t.sent ++ told active_client t.capture.pressed_keys)
  unfolding leave_client send take_pressed_keys
  leave_client-told none t same = (same, sym (append-nil t.sent))
  leave_client-told (some handle) t same =
      let keys = t.capture.pressed_keys in
      let (gone, more) =
        send_key_ups-rest keys handle
          (record t { capture = record t.capture { pressed_keys = [] }; active_client = none }) in
      (
        gone,
        ap (λ s. (s ++ ((mods_zero, handle) ∷ [])) ++ ((ProtoEvent.leave 0, handle) ∷ [])) more
            ∙ (append_assoc (t.sent ++ map (λ k. (key_up k, handle)) keys)
                  ((mods_zero, handle) ∷ []) ((ProtoEvent.leave 0, handle) ∷ [])
                ∙ append_assoc t.sent (map (λ k. (key_up k, handle)) keys)
                    ((mods_zero, handle) ∷ (ProtoEvent.leave 0, handle) ∷ [])),
      )

  -- What `release_capture` leaves of a state, an active client and held keys.
  abbrev pub IsReleased : State → Option ℕ → List ℕ → List (ProtoEvent × ℕ) → CaptureTask B → Type 0
  IsReleased state active_client keys sent after =
      (after.state ≡ State.idle)
      × ((after.active_client ≡ client_left state active_client)
          × (after.sent ≡ sent ++ farewell state active_client keys))

  abbrev pub Releases : CaptureTask B → CaptureTask B → Type 0
  Releases t after = IsReleased t.state t.active_client t.capture.pressed_keys t.sent after

  release_state-IsReleased :
      (state : State) (t : CaptureTask B)
      → IsReleased state t.active_client t.capture.pressed_keys t.sent (release_state out state t).1
  unfolding release_state release reset_watchdog cancel_pending
  release_state-IsReleased State.idle t = (refl, leave_client-told t.active_client t refl)
  release_state-IsReleased (State.pending handle key started) t =
      (refl, (refl, sym (append-nil t.sent)))
  release_state-IsReleased State.sending t = (refl, leave_client-told t.active_client t refl)

  pub release_capture-Releases : (t : CaptureTask B) → Releases t (release_capture out t).1
  unfolding release_capture reset_watchdog
  release_capture-Releases t = elim (Bool-cases (should_skip_release t.state t.active_client)) [
    | inl skips ↦
        let (at, alone) = should_skip_release-quiet t.state t.active_client skips in
        rw skips (rw (at, alone) (refl, (refl, sym (append-nil t.sent))))
    | inr goes ↦ rw goes (release_state-IsReleased t.state t)
  ]
