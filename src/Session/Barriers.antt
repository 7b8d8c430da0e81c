-- ===== src/Session/Barriers.antt =====
-- src/capture.rs: the requests `Create` and `Destroy`, and the agreement of the registered captures with
-- the barriers and the queue.
use lan_mouse_pro.Common.{
  ℕ, ◌≡◌, ◌≢◌, refl, sym, ◌∙◌, subst, none, some, List, [], ◌∷◌, ◌++◌, All, arith,
}
use lan_mouse_pro.Capture.Barriers.{CaptureEvent, InputCapture}
use lan_mouse_pro.Capture.Operations.{IsPut, IsGone}
use lan_mouse_pro.Capture.Run.{Run, Safe}
use lan_mouse_pro.Capture.Queue.{SameQueue}
use lan_mouse_pro.Client.Types.{BarrierKey}
use lan_mouse_pro.Session.Events.{find_capture}
use lan_mouse_pro.Session.Known.{IsRegistered, AllRegistered, IsKnown}
use lan_mouse_pro.Session.Outcome.{Continues}
use lan_mouse_pro.Session.Outside.{lift}
use lan_mouse_pro.Session.Received.{remove_captures, add_capture, remove_capture}
use lan_mouse_pro.Session.Types.{CaptureType, Registered, CaptureTask}
use mathlib.Core.Logic.{ite, if_pos, if_neg}
use mathlib.Core.Option.{none-ne-some}
use native.Mathlib.Decide.{ℕ_discrete}

abbrev entry : ℕ → BarrierKey → CaptureType → Registered
entry h p ct = record { handle = h; key = p; capture_type = ct }

find_capture-last :
    (h q : ℕ) (p : BarrierKey) (ct : CaptureType) (cs : List Registered)
    → find_capture h cs ≡ none
    → find_capture q (cs ++ (entry h p ct ∷ []))
      ≡ ite (ℕ_discrete h q) (some (p, ct)) (find_capture q cs)
unfolding find_capture
find_capture-last h q p ct [] fresh = refl
find_capture-last h q p ct (c ∷ cs) fresh = ground (arith, find_capture-last h q p ct cs)

pub find_capture-remove :
    (h q : ℕ) (cs : List Registered)
    → find_capture q (remove_captures h cs) ≡ ite (ℕ_discrete h q) none (find_capture q cs)
unfolding find_capture remove_captures
find_capture-remove h q [] = ground arith
find_capture-remove h q (c ∷ cs) = ground (arith, find_capture-remove h q cs)

registered_last :
    (h q : ℕ) (p : BarrierKey) (ct : CaptureType) (cs : List Registered)
    → find_capture h cs ≡ none
    → IsRegistered cs q
    → IsRegistered (cs ++ (entry h p ct ∷ [])) q
registered_last h q p ct cs fresh known =
    subst (λ o. o ≢ none) (sym (find_capture-last h q p ct cs fresh))
      (elim (ℕ_discrete h q) [
        | yes same ↦ rw (if_pos (ℕ_discrete h q) same) (λ e. none-ne-some (p, ct) (sym e))
        | no other ↦ rw (if_neg (ℕ_discrete h q) other) known
      ])

registered_removed :
    (h q : ℕ) (cs : List Registered)
    → h ≢ q
    → IsRegistered cs q
    → IsRegistered (remove_captures h cs) q
registered_removed h q cs other known =
    subst (λ o. o ≢ none) (sym (find_capture-remove h q cs))
      (rw (if_neg (ℕ_discrete h q) other) known)

-- No event is queued for the handle.
abbrev pub Unqueued : ℕ → List (ℕ × CaptureEvent) → Type 0
Unqueued h events = All (λ e. h ≢ e.0) events

AllRegistered-removed :
    (h : ℕ) (cs : List Registered) (es : List (ℕ × CaptureEvent))
    → Unqueued h es
    → AllRegistered cs es
    → AllRegistered (remove_captures h cs) es
AllRegistered-removed h cs [] u known = tt
AllRegistered-removed h cs (e ∷ es) u known =
    (registered_removed h e.0 cs u.0 known.0, AllRegistered-removed h cs es u.1 known.1)

AllRegistered-last :
    (h : ℕ) (p : BarrierKey) (ct : CaptureType) (cs : List Registered)
    (es : List (ℕ × CaptureEvent))
    → find_capture h cs ≡ none
    → AllRegistered cs es
    → AllRegistered (cs ++ (entry h p ct ∷ [])) es
AllRegistered-last h p ct cs [] fresh known = tt
AllRegistered-last h p ct cs (e ∷ es) fresh known =
    (registered_last h e.0 p ct cs fresh known.0, AllRegistered-last h p ct cs es fresh known.1)

module _ {B : Type 0} where
  pub created-IsKnown :
      (h : ℕ) (p : BarrierKey) (ct : CaptureType) (t : CaptureTask B) (after : InputCapture B)
      → IsKnown t
      → find_capture h t.captures ≡ none
      → IsPut h p t.capture after × SameQueue t.capture after
      → IsKnown (record (add_capture h p ct t) { capture = after })
  unfolding add_capture
  created-IsKnown h p ct t after known fresh (put, same) = record {
    ids_Distinct = put.0.ids_Distinct;
    keys_Distinct = put.0.keys_Distinct;
    inverse = put.0.inverse;
    same_keys = λ q. rw (find_capture-last h q p ct t.captures fresh) (elim (ℕ_discrete h q) [
      | yes here ↦ rw (if_pos (ℕ_discrete h q) here, sym here) put.1.0
      | no other ↦ rw (if_neg (ℕ_discrete h q) other) (put.1.1 q other ∙ known.same_keys q)
    ]);
    queue =
        subst (AllRegistered (t.captures ++ (entry h p ct ∷ []))) (sym same.0)
          (AllRegistered-last h p ct t.captures t.capture.pending fresh known.queue);
  }

  pub destroyed-IsKnown :
      (h : ℕ) (t : CaptureTask B) (after : InputCapture B)
      → IsKnown t
      → Unqueued h t.capture.pending
      → IsGone h t.capture after × SameQueue t.capture after
      → IsKnown (record (remove_capture h t) { capture = after })
  unfolding remove_capture
  destroyed-IsKnown h t after known u (gone, same) = record {
    ids_Distinct = gone.0.ids_Distinct;
    keys_Distinct = gone.0.keys_Distinct;
    inverse = gone.0.inverse;
    same_keys = λ q. rw (find_capture-remove h q t.captures) (elim (ℕ_discrete h q) [
      | yes here ↦ rw (if_pos (ℕ_discrete h q) here, sym here) gone.1.0
      | no other ↦ rw (if_neg (ℕ_discrete h q) other) (gone.1.1 q other ∙ known.same_keys q)
    ]);
    queue =
        subst (AllRegistered (remove_captures h t.captures)) (sym same.0)
          (AllRegistered-removed h t.captures t.capture.pending u known.queue);
  }

  pub lift-Continues :
      (P : InputCapture B → Type 0) (Q : CaptureTask B → Type 0) (t : CaptureTask B)
      (r : Run (InputCapture B))
      → Safe P r
      → ((ic : InputCapture B) → P ic → Q (record t { capture = ic }))
      → Continues Q (lift t r)
  unfolding lift
  lift-Continues P Q t (Run.done ic) h next = next ic h
  lift-Continues P Q t Run.failed h next = tt
  lift-Continues P Q t Run.panic h next = h
