-- ===== src/Capture/Order.antt =====
-- input-capture/src/lib.rs: the subscribers of a barrier stand in the order of their creation.
use lan_mouse_pro.Common.{ℕ, ◌≡◌, refl, ap, ◌∙◌, subst, none, List, [], ◌∷◌, ◌++◌, map, length}
use lan_mouse_pro.Capture.Barriers
use lan_mouse_pro.Capture.Barriers.{Backend, CaptureEvent, InputCapture, keep_remaining, retain}
use lan_mouse_pro.Capture.FanOut.{poll_times_all}
use lan_mouse_pro.Capture.Invariant.{IsValid, ids_at, ids_at-erase, ids_at-put, nonempty}
use lan_mouse_pro.Capture.Queue.{SameQueue, create-SameQueue, destroy-SameQueue}
use lan_mouse_pro.Capture.Run.{OnDone, Run, done, ◌>>=◌}
use lan_mouse_pro.Capture.Succeeds.{
  create-Valid, create-ids, destroy-Valid, destroy-ids, done_inversion,
}
use lan_mouse_pro.Capture.Stream.{Poll, poll_times, subscribers, track_keys, unwrap_or_default}
use lan_mouse_pro.Client.Types.{BarrierKey, BarrierKey-discrete}
use lan_mouse_pro.HashMap
use mathlib.Core.Logic.{ite}
use native.Mathlib.Decide.{ℕ_discrete}

-- What is asked of the barriers, one thing after the other.
pub data BarrierCall : Type 0 where
  create : ℕ → BarrierKey → BarrierCall
  destroy : ℕ → BarrierCall

-- Of these handles at a key, which stand there after the calls: a new one is last.
unfoldable pub order_of : BarrierKey → List BarrierCall → List ℕ → List ℕ
unfolding retain
order_of key [] ids = ids
order_of key (BarrierCall.create id at ∷ calls) ids =
    order_of key calls (ids ++ ite (BarrierKey-discrete at key) (id ∷ []) [])
order_of key (BarrierCall.destroy id ∷ calls) ids = order_of key calls (retain id ids)

module _ {B : Type 0} (backend : Backend B) where
  unfoldable pub barrier_call : BarrierCall → InputCapture B → Run (InputCapture B)
  unfolding Barriers.create Barriers.destroy
  barrier_call (BarrierCall.create id key) ic = Barriers.create backend id key ic
  barrier_call (BarrierCall.destroy id) ic = Barriers.destroy backend id ic

  unfoldable pub barrier_calls : List BarrierCall → InputCapture B → Run (InputCapture B)
  unfolding barrier_call
  barrier_calls [] ic = done ic
  barrier_calls (call ∷ calls) ic = barrier_call call ic >>= barrier_calls calls

-- The maps are valid, nothing is queued, and these handles stand at the key, in this order.
abbrev Stands : {B : Type 0} → BarrierKey → List ℕ → InputCapture B → Type 0
Stands key ids ic = IsValid ic × ((ic.pending ≡ []) × (ids_at key ic.id_map ≡ ids))

module _ {B : Type 0} (backend : Backend B) where
  create-Stands :
      (id : ℕ) (at key : BarrierKey) (ids : List ℕ) (ic after : InputCapture B)
      → Stands key ids ic
      → Barriers.create backend id at ic ≡ done after
      → Stands key (ids ++ ite (BarrierKey-discrete at key) (id ∷ []) []) after
  create-Stands id at key ids ic after (valid, (empty, stand)) ends =
      let (is_valid, fresh) =
        subst (OnDone (λ a. IsValid a × (HashMap.get ℕ_discrete id ic.id_map ≡ none))) ends
          (create-Valid backend id at ic valid) in
      let same = subst (OnDone (SameQueue ic)) ends (create-SameQueue backend id at ic) in
      let put =
        subst (OnDone (λ a. a.id_map ≡ HashMap.put ℕ_discrete id at ic.id_map)) ends
          (create-ids backend id at ic) in
      (
        is_valid,
        (
          same.0 ∙ empty,
          ap (ids_at key) put
              ∙ (ids_at-put id at key ic.id_map fresh
                  ∙ ap (λ xs. xs ++ ite (BarrierKey-discrete at key) (id ∷ []) []) stand),
        ),
      )

  destroy-Stands :
      (id : ℕ) (key : BarrierKey) (ids : List ℕ) (ic after : InputCapture B)
      → Stands key ids ic
      → Barriers.destroy backend id ic ≡ done after
      → Stands key (retain id ids) after
  destroy-Stands id key ids ic after (valid, (empty, stand)) ends =
      let is_valid = subst (OnDone IsValid) ends (destroy-Valid backend id ic valid) in
      let same = subst (OnDone (SameQueue ic)) ends (destroy-SameQueue backend id ic) in
      let erased =
        subst (OnDone (λ a. a.id_map ≡ HashMap.erase ℕ_discrete id ic.id_map)) ends
          (destroy-ids backend id ic) in
      (
        is_valid,
        (
          same.0 ∙ empty,
          ap (ids_at key) erased
              ∙ (ids_at-erase id key ic.id_map valid.ids_Distinct ∙ ap (retain id) stand),
        ),
      )

  barrier_calls-Stands :
      (calls : List BarrierCall) (key : BarrierKey) (ids : List ℕ) (ic after : InputCapture B)
      → Stands key ids ic
      → barrier_calls backend calls ic ≡ done after
      → Stands key (order_of key calls ids) after
  unfolding barrier_calls barrier_call order_of
  barrier_calls-Stands [] key ids ic after stands ends = subst (OnDone (Stands key ids)) ends stands
  barrier_calls-Stands (BarrierCall.create id at ∷ calls) key ids ic after stands ends =
      let (mid, (first, rest)) =
        done_inversion (Barriers.create backend id at ic) (barrier_calls backend calls) after
          ends in
      barrier_calls-Stands calls key (ids ++ ite (BarrierKey-discrete at key) (id ∷ []) []) mid
        after (create-Stands id at key ids ic mid stands first) rest
  barrier_calls-Stands (BarrierCall.destroy id ∷ calls) key ids ic after stands ends =
      let (mid, (first, rest)) =
        done_inversion (Barriers.destroy backend id ic) (barrier_calls backend calls) after ends in
      barrier_calls-Stands calls key (retain id ids) mid after
        (destroy-Stands id key ids ic mid stands first) rest

unwrap-nonempty : (ids : List ℕ) → unwrap_or_default (nonempty ids) ≡ ids
unfolding unwrap_or_default nonempty
unwrap-nonempty [] = refl
unwrap-nonempty (i ∷ is) = refl

Stands-subscribers :
    {B : Type 0} (key : BarrierKey) (ids : List ℕ) (ic : InputCapture B)
    → Stands key ids ic
    → subscribers key ic ≡ ids
unfolding subscribers
Stands-subscribers key ids ic (valid, (empty, stand)) =
    ap unwrap_or_default (valid.inverse key) ∙ (unwrap-nonempty (ids_at key ic.id_map) ∙ stand)

-- Barriers are created and destroyed, at any keys, by calls that all succeed, from valid maps with
-- nothing queued and the handles ids at a key. An event that the backend then reports at that key is
-- delivered to every handle that stands there, once and in the order of their creation: those of ids
-- and behind them those created since, without the ones destroyed. So many polls as there are of them
-- answer just that, and leave an empty queue and nothing else changed but the backend and the pressed
-- keys.
pub barrier_calls-poll_times :
    {B : Type 0} (backend : Backend B) (poll : B → Poll (BarrierKey × CaptureEvent) × B)
    (calls : List BarrierCall) (ic after : InputCapture B) (key : BarrierKey) (event : CaptureEvent)
    (b : B) (ids : List ℕ) (first : ℕ) (others : List ℕ)
    → IsValid ic
    → ic.pending ≡ []
    → ids_at key ic.id_map ≡ ids
    → barrier_calls backend calls ic ≡ done after
    → order_of key calls ids ≡ first ∷ others
    → poll after.capture ≡ (Poll.item (key, event), b)
    → poll_times poll (length (first ∷ others)) after ≡ (
      map (λ i. Poll.item (i, event)) (first ∷ others),
      track_keys event (record after { capture = b }),
    )
barrier_calls-poll_times backend poll calls ic after key event b ids first others valid empty stand
      ends order answer =
    let stands = barrier_calls-Stands backend calls key ids ic after (valid, (empty, stand)) ends in
    poll_times_all poll after key event b first others stands.1.0 answer
      (Stands-subscribers key (order_of key calls ids) after stands ∙ order)
