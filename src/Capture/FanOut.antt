-- ===== src/Capture/FanOut.antt =====
-- input-capture/src/lib.rs: what the polls of `InputCapture` deliver, and which keys it holds.
use lan_mouse_pro.Common.{
  ℕ, ◌≡◌, refl, sym, ap, ◌∙◌, inl, inr, Bool-cases, leb, List, [], ◌∷◌, ◌++◌, map, length,
}
use lan_mouse_pro.Capture.Barriers.{CaptureEvent, InputCapture}
use lan_mouse_pro.Capture.Stream.{
  Poll, key_count, update_pressed_keys, track_keys, subscribers, fan_out, on_poll, poll_queue,
  poll_next, poll_times,
}
use lan_mouse_pro.Client.Types.{BarrierKey}
use lan_mouse_pro.Wire.Types.{InputEvent, KeyboardEvent}

module _ {B : Type 0} (poll : B → Poll (BarrierKey × CaptureEvent) × B) where
  -- What stands in the queue comes out in its order.
  poll_times_queue :
      (event : CaptureEvent) (ids : List ℕ) (ic : InputCapture B)
      → poll_times poll (length ids) (record ic { pending = map (λ i. (i, event)) ids })
        ≡ (map (λ i. Poll.item (i, event)) ids, record ic { pending = [] })
  unfolding poll_times poll_next poll_queue
  poll_times_queue event [] ic = refl
  poll_times_queue event (i ∷ ids) ic =
      ap (λ r. (Poll.item (i, event) ∷ r.0, r.1)) (poll_times_queue event ids ic)

fan_out_all :
    {B : Type 0} (id : ℕ) (ids : List ℕ) (event : CaptureEvent) (ic : InputCapture B)
    → ic.pending ≡ []
    → fan_out (id ∷ ids) event ic
      ≡ (Poll.item (id, event), record ic { pending = map (λ i. (i, event)) ids })
unfolding fan_out
fan_out_all id [] event ic empty =
    ap (λ es. (Poll.item (id, event), record ic { pending = es })) empty
fan_out_all id (next ∷ rest) event ic empty =
    ap
      (λ es.
        (Poll.item (id, event), record ic { pending = es ++ map (λ i. (i, event)) (next ∷ rest) }))
      empty

-- The keys change, nothing else.
abbrev pub WithKeys : {B : Type 0} → InputCapture B → InputCapture B → Type 0
WithKeys ic after = (ks : List ℕ) × (after ≡ record ic { pressed_keys = ks })

module _ {B : Type 0} where
  update_pressed_keys-WithKeys :
      (key state : ℕ) (ic : InputCapture B) → WithKeys ic (update_pressed_keys key state ic)
  unfolding update_pressed_keys
  update_pressed_keys-WithKeys key state ic = elim (Bool-cases (leb key key_count)) [
    | inl known ↦ rw known (_, refl)
    | inr unknown ↦ rw unknown (ic.pressed_keys, refl)
  ]

  pub track_keys-WithKeys :
      (event : CaptureEvent) (ic : InputCapture B) → WithKeys ic (track_keys event ic)
  unfolding track_keys
  track_keys-WithKeys (CaptureEvent.input (InputEvent.keyboard (KeyboardEvent.key t k s))) ic =
      update_pressed_keys-WithKeys k s ic
  track_keys-WithKeys (CaptureEvent.input (InputEvent.keyboard (KeyboardEvent.modifiers d l o g)))
        ic =
      (ic.pressed_keys, refl)
  track_keys-WithKeys (CaptureEvent.input (InputEvent.pointer p)) ic = (ic.pressed_keys, refl)
  track_keys-WithKeys CaptureEvent.begin ic = (ic.pressed_keys, refl)
  track_keys-WithKeys CaptureEvent.begin_pending ic = (ic.pressed_keys, refl)
  track_keys-WithKeys CaptureEvent.cancel_pending ic = (ic.pressed_keys, refl)

module _ {B : Type 0} (poll : B → Poll (BarrierKey × CaptureEvent) × B) (ic : InputCapture B)
    (key : BarrierKey) (event : CaptureEvent) (b : B) (id : ℕ) (ids : List ℕ)
    (empty : ic.pending ≡ []) (answer : poll ic.capture ≡ (Poll.item (key, event), b))
    (at : subscribers key ic ≡ id ∷ ids) where
  tracked : InputCapture B
  tracked = track_keys event (record ic { capture = b })

  tracked-subscribers : subscribers key tracked ≡ id ∷ ids
  unfolding tracked subscribers
  tracked-subscribers =
      ap (subscribers key) (track_keys-WithKeys event (record ic { capture = b })).1 ∙ at

  tracked-pending : tracked.pending ≡ []
  unfolding tracked
  tracked-pending =
      ap (λ t. t.pending) (track_keys-WithKeys event (record ic { capture = b })).1 ∙ empty

  first_poll :
      poll_next poll ic
      ≡ (Poll.item (id, event), record tracked { pending = map (λ i. (i, event)) ids })
  unfolding poll_next poll_queue on_poll tracked
  first_poll =
      ap (λ es. poll_queue poll es ic) empty
      ∙ (ap (λ r. on_poll r.0 (record ic { capture = r.1 })) answer
          ∙ (ap (λ found. fan_out found event tracked) tracked-subscribers
              ∙ fan_out_all id ids event tracked tracked-pending))

  rest_polls :
      poll_times poll (length ids) (record tracked { pending = map (λ i. (i, event)) ids })
      ≡ (map (λ i. Poll.item (i, event)) ids, tracked)
  rest_polls =
      poll_times_queue poll event ids tracked
      ∙ ap (λ es. (map (λ i. Poll.item (i, event)) ids, record tracked { pending = es }))
          (sym tracked-pending)

-- An event that the backend reports at a barrier, nothing being queued, is delivered to every
-- subscriber of the barrier, once and in the order in which they stand there: so many polls as there
-- are subscribers answer just that, and leave an empty queue and nothing else changed but the backend and
-- the pressed keys.
pub poll_times_all :
    {B : Type 0} (poll : B → Poll (BarrierKey × CaptureEvent) × B) (ic : InputCapture B)
    (key : BarrierKey) (event : CaptureEvent) (b : B) (id : ℕ) (ids : List ℕ)
    → ic.pending ≡ []
    → poll ic.capture ≡ (Poll.item (key, event), b)
    → subscribers key ic ≡ id ∷ ids
    → poll_times poll (length (id ∷ ids)) ic
      ≡ (map (λ i. Poll.item (i, event)) (id ∷ ids), track_keys event (record ic { capture = b }))
unfolding poll_times tracked
poll_times_all poll ic key event b id ids empty answer at =
    ap (λ r. let last = poll_times poll (length ids) r.1 in (r.0 ∷ last.0, last.1))
      (first_poll poll ic key event b id ids empty answer at)
    ∙ ap (λ r. (Poll.item (id, event) ∷ r.0, r.1))
        (rest_polls poll ic key event b id ids empty answer at)
