-- ===== src/Capture/Stream.antt =====
-- input-capture/src/lib.rs: the event stream of `InputCapture` (`poll_next`) and the keys that it has
-- seen pressed. What the backend's own stream answers is a parameter.
use lan_mouse_pro.Common.{
  ℕ, zero, suc, Bool, true, false, ◌==◌, ◌&&◌, leb, if◌then◌else◌, Option, none, some, List, [],
  ◌∷◌, ◌++◌, map,
}
use lan_mouse_pro.Capture.Barriers.{CaptureEvent, InputCapture, retain}
use lan_mouse_pro.Client.Types.{BarrierKey, BarrierKey-discrete}
use lan_mouse_pro.HashMap
use lan_mouse_pro.Wire.Types.{InputEvent, KeyboardEvent}
use mathlib.Core.Logic.{ite}
use native.Mathlib.Decide.{ℕ_discrete}

-- `Poll<Option<Result<A, CaptureError>>>`: nothing yet, the end of the stream, an error, an item.
pub data Poll (A : Type 0) : Type 0 where
  not_ready : Poll A
  closed : Poll A
  error : Poll A
  item : A → Poll A

unfoldable pub contains_key : ℕ → List ℕ → Bool
contains_key k [] = false
contains_key k (p ∷ ps) = ite (ℕ_discrete p k) true (contains_key k ps)

-- `HashSet::insert`.
unfoldable pub insert_key : ℕ → List ℕ → List ℕ
unfolding contains_key
insert_key k ps = if contains_key k ps then ps else k ∷ ps

-- The highest scancode, `Linux::KeyCount`: the codes below are all taken.
abbrev pub key_count : ℕ
key_count = 249

unfoldable pub unwrap_or_default : Option (List ℕ) → List ℕ
unwrap_or_default none = []
unwrap_or_default (some ids) = ids

module _ {B : Type 0} where
  unfoldable pub keys_pressed : List ℕ → InputCapture B → Bool
  unfolding contains_key
  keys_pressed [] ic = true
  keys_pressed (k ∷ ks) ic = contains_key k ic.pressed_keys && keys_pressed ks ic

  unfoldable pub update_pressed_keys : ℕ → ℕ → InputCapture B → InputCapture B
  unfolding insert_key retain
  update_pressed_keys key state ic =
      if leb key key_count
      then record ic {
        pressed_keys =
            if state == 1 then insert_key key ic.pressed_keys else retain key ic.pressed_keys;
      }
      else ic

  unfoldable pub take_pressed_keys : InputCapture B → List ℕ × InputCapture B
  take_pressed_keys ic = (ic.pressed_keys, record ic { pressed_keys = [] })

  unfoldable pub track_keys : CaptureEvent → InputCapture B → InputCapture B
  unfolding update_pressed_keys
  track_keys (CaptureEvent.input (InputEvent.keyboard (KeyboardEvent.key time key state))) ic =
      update_pressed_keys key state ic
  track_keys event ic = ic

  unfoldable pub subscribers : BarrierKey → InputCapture B → List ℕ
  unfolding unwrap_or_default
  subscribers key ic = unwrap_or_default (HashMap.get BarrierKey-discrete key ic.position_map)

  unfoldable pub fan_out :
      List ℕ → CaptureEvent → InputCapture B → Poll (ℕ × CaptureEvent) × InputCapture B
  fan_out [] event ic = (Poll.not_ready, ic)
  fan_out (id ∷ []) event ic = (Poll.item (id, event), ic)
  fan_out (first ∷ next ∷ rest) event ic = (
    Poll.item (first, event),
    record ic { pending = ic.pending ++ map (λ id. (id, event)) (next ∷ rest) },
  )

  -- With the answer of the backend's stream.
  unfoldable pub on_poll :
      Poll (BarrierKey × CaptureEvent) → InputCapture B → Poll (ℕ × CaptureEvent) × InputCapture B
  unfolding track_keys subscribers fan_out
  on_poll Poll.not_ready ic = (Poll.not_ready, ic)
  on_poll Poll.closed ic = (Poll.closed, ic)
  on_poll Poll.error ic = (Poll.error, ic)
  on_poll (Poll.item (key, event)) ic =
      let ic' = track_keys event ic in fan_out (subscribers key ic') event ic'

  module _ (poll : B → Poll (BarrierKey × CaptureEvent) × B) where
    -- With the queue of events.
    unfoldable pub poll_queue :
        List (ℕ × CaptureEvent) → InputCapture B → Poll (ℕ × CaptureEvent) × InputCapture B
    unfolding on_poll
    poll_queue (e ∷ es) ic = (Poll.item e, record ic { pending = es })
    poll_queue [] ic =
        let (answer, b) = poll ic.capture in on_poll answer (record ic { capture = b })

    unfoldable pub poll_next : InputCapture B → Poll (ℕ × CaptureEvent) × InputCapture B
    unfolding poll_queue
    poll_next ic = poll_queue ic.pending ic

    -- The answers of so many polls, the last state behind them.
    unfoldable pub poll_times : ℕ → InputCapture B → List (Poll (ℕ × CaptureEvent)) × InputCapture B
    unfolding poll_next
    poll_times zero ic = ([], ic)
    poll_times (suc n) ic =
        let (answer, ic') = poll_next ic in
        let (answers, last) = poll_times n ic' in (answer ∷ answers, last)
