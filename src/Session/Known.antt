-- ===== src/Session/Known.antt =====
-- src/capture.rs and input-capture/src/lib.rs: the registered captures of the task, the barriers and
-- the queue of events agree.
use lan_mouse_pro.Common.{
  ℕ, ◌≡◌, ◌≢◌, refl, sym, ap, subst, Option, none, some, List, [], ◌∷◌, ◌++◌, map, All, arith,
}
use lan_mouse_pro.Capture.Barriers.{CaptureEvent, InputCapture}
use lan_mouse_pro.Capture.Invariant.{IsValid, ids_at, nonempty}
use lan_mouse_pro.Capture.FanOut.{track_keys-WithKeys}
use lan_mouse_pro.Capture.Operations.{key_of_id}
use lan_mouse_pro.Capture.Stream.{
  Poll, subscribers, unwrap_or_default, track_keys, fan_out, on_poll, poll_queue, poll_next,
}
use lan_mouse_pro.Client.Types.{BarrierKey, BarrierKey-discrete}
use lan_mouse_pro.HashMap
use lan_mouse_pro.Session.Events.{find_capture}
use lan_mouse_pro.Session.Kept.{Kept, kept}
use lan_mouse_pro.Session.Types.{CaptureType, Registered, CaptureTask}
use mathlib.Core.Option.{none-ne-some}
use mathlib.Core.Logic.{if_pos, if_neg}
use native.Mathlib.Decide.{ℕ_discrete}

abbrev pub key_found : Option (BarrierKey × CaptureType) → Option BarrierKey
key_found none = none
key_found (some found) = some found.0

abbrev pub IsRegistered : List Registered → ℕ → Type 0
IsRegistered captures handle = find_capture handle captures ≢ none

abbrev pub AllRegistered : List Registered → List (ℕ × CaptureEvent) → Type 0
AllRegistered captures events = All (λ e. IsRegistered captures e.0) events

-- The maps of the barriers are valid, they have a key for just the handles that are registered, the
-- key that is registered, and no event is queued for a handle that is not.
pub record Agree (x : Kept) : Type 0 where
  pub ids_Distinct : HashMap.Distinct ℕ_discrete x.1.0
  pub keys_Distinct : HashMap.Distinct BarrierKey-discrete x.1.1.0
  pub inverse :
      (key : BarrierKey) → HashMap.get BarrierKey-discrete key x.1.1.0 ≡ nonempty (ids_at key x.1.0)
  pub same_keys : (h : ℕ) → key_of_id h x.1.0 ≡ key_found (find_capture h x.0)
  pub queue : AllRegistered x.0 x.1.1.1

abbrev pub IsKnown : {B : Type 0} → CaptureTask B → Type 0
IsKnown t = Agree (kept t)

pub IsKnown-IsValid : {B : Type 0} (t : CaptureTask B) → IsKnown t → IsValid t.capture
IsKnown-IsValid t known = record {
  ids_Distinct = known.ids_Distinct;
  keys_Distinct = known.keys_Distinct;
  inverse = known.inverse;
}

pub key_found-none :
    (found : Option (BarrierKey × CaptureType)) → key_found found ≢ none → found ≢ none
key_found-none none h p = h refl
key_found-none (some found) h p = none-ne-some found (sym p)

get-tail :
    (h : ℕ) (e : ℕ × BarrierKey) (m : List (ℕ × BarrierKey))
    → key_of_id h m ≢ none
    → key_of_id h (e ∷ m) ≢ none
unfolding HashMap.get
get-tail h e m found = ground arith

get-head : (i : ℕ) (k : BarrierKey) (m : List (ℕ × BarrierKey)) → key_of_id i ((i, k) ∷ m) ≢ none
unfolding HashMap.get
get-head i k m = ground arith

nonempty-All :
    (P : ℕ → Type 0) (ids : List ℕ) → All P ids → All P (unwrap_or_default (nonempty ids))
unfolding unwrap_or_default nonempty
nonempty-All P [] h = tt
nonempty-All P (i ∷ ids) h = h

-- Every id at a key is registered.
ids_at-IsRegistered :
    (captures : List Registered) (key : BarrierKey) (m : List (ℕ × BarrierKey))
    → ((h : ℕ) → key_of_id h m ≢ none → IsRegistered captures h)
    → All (IsRegistered captures) (ids_at key m)
unfolding ids_at
ids_at-IsRegistered captures key [] known = tt
ids_at-IsRegistered captures key ((i, k) ∷ m) known =
    let rest = ids_at-IsRegistered captures key m (λ h p. known h (get-tail h (i, k) m p)) in
    elim (BarrierKey-discrete k key) [
      | yes p ↦ rw (if_pos (BarrierKey-discrete k key) p) (known i (get-head i k m), rest)
      | no p ↦ rw (if_neg (BarrierKey-discrete k key) p) rest
    ]

module _ (captures : List Registered) where
  -- The handle of an event that is delivered is registered.
  abbrev pub Delivers : Poll (ℕ × CaptureEvent) → Type 0
  Delivers (Poll.item e) = IsRegistered captures e.0
  Delivers _ = Unit

  All-map :
      (event : CaptureEvent) (ids : List ℕ)
      → All (IsRegistered captures) ids
      → AllRegistered captures (map (λ id. (id, event)) ids)
  All-map event [] h = tt
  All-map event (i ∷ ids) h = (h.0, All-map event ids h.1)

  All-append :
      (es fs : List (ℕ × CaptureEvent))
      → AllRegistered captures es
      → AllRegistered captures fs
      → AllRegistered captures (es ++ fs)
  All-append [] fs h g = g
  All-append (e ∷ es) fs h g = (h.0, All-append es fs h.1 g)

  module _ {B : Type 0} where
    abbrev pub kept_with : InputCapture B → Kept
    kept_with ic = (captures, (ic.id_map, (ic.position_map, ic.pending)))

    subscribers-IsRegistered :
        (key : BarrierKey) (ic : InputCapture B)
        → Agree (kept_with ic)
        → All (IsRegistered captures) (subscribers key ic)
    unfolding subscribers
    subscribers-IsRegistered key ic known =
        subst (λ o. All (IsRegistered captures) (unwrap_or_default o)) (sym (known.inverse key))
          (nonempty-All (IsRegistered captures) (ids_at key ic.id_map) (
            ids_at-IsRegistered captures key ic.id_map (λ h found.
              key_found-none (find_capture h captures)
                (subst (λ o. o ≢ none) (known.same_keys h) found))))

    queued :
        (es : List (ℕ × CaptureEvent)) (ic : InputCapture B)
        → Agree (kept_with ic)
        → AllRegistered captures es
        → Agree (kept_with (record ic { pending = es }))
    queued es ic known h = record {
      ids_Distinct = known.ids_Distinct;
      keys_Distinct = known.keys_Distinct;
      inverse = known.inverse;
      same_keys = known.same_keys;
      queue = h;
    }

    fan_out-known :
        (ids : List ℕ) (event : CaptureEvent) (ic : InputCapture B)
        → All (IsRegistered captures) ids
        → Agree (kept_with ic)
        → let r = fan_out ids event ic in Delivers r.0 × Agree (kept_with r.1)
    unfolding fan_out
    fan_out-known [] event ic h known = (tt, known)
    fan_out-known (i ∷ []) event ic h known = (h.0, known)
    fan_out-known (first ∷ next ∷ rest) event ic h known = (
      h.0,
      queued _ ic known (All-append ic.pending _ known.queue (All-map event (next ∷ rest) h.1)),
    )

    track_keys-kept :
        (event : CaptureEvent) (ic : InputCapture B)
        → kept_with ic ≡ kept_with (track_keys event ic)
    track_keys-kept event ic = ap kept_with (sym (track_keys-WithKeys event ic).1)

    on_poll-known :
        (answer : Poll (BarrierKey × CaptureEvent)) (ic : InputCapture B)
        → Agree (kept_with ic)
        → let r = on_poll answer ic in Delivers r.0 × Agree (kept_with r.1)
    unfolding on_poll
    on_poll-known Poll.not_ready ic known = (tt, known)
    on_poll-known Poll.closed ic known = (tt, known)
    on_poll-known Poll.error ic known = (tt, known)
    on_poll-known (Poll.item (key, event)) ic known =
        let ic' = track_keys event ic in
        let known' = subst Agree (track_keys-kept event ic) known in
        fan_out-known (subscribers key ic') event ic' (subscribers-IsRegistered key ic' known')
          known'

    poll_queue-known :
        (poll : B → Poll (BarrierKey × CaptureEvent) × B) (es : List (ℕ × CaptureEvent))
        (ic : InputCapture B)
        → AllRegistered captures es
        → Agree (kept_with ic)
        → let r = poll_queue poll es ic in Delivers r.0 × Agree (kept_with r.1)
    unfolding poll_queue
    poll_queue-known poll [] ic h known =
        on_poll-known (poll ic.capture).0 (record ic { capture = (poll ic.capture).1 }) known
    poll_queue-known poll (e ∷ es) ic h known = (h.0, queued es ic known h.1)

    pub poll_next-known :
        (poll : B → Poll (BarrierKey × CaptureEvent) × B) (ic : InputCapture B)
        → Agree (kept_with ic)
        → let r = poll_next poll ic in Delivers r.0 × Agree (kept_with r.1)
    unfolding poll_next
    poll_next-known poll ic known = poll_queue-known poll ic.pending ic known.queue known
