-- ===== src/Session/Restart.antt =====
-- `CaptureTask::create_captures`, src/capture.rs: the barriers of a new session.
use lan_mouse_pro.Common.{
  ◌≡◌, refl, sym, ap, ◌∙◌, subst, none, List, [], ◌∷◌, ◌++◌, append_assoc, append-nil,
}
use lan_mouse_pro.Capture.Barriers
use lan_mouse_pro.Capture.Barriers.{InputCapture}
use lan_mouse_pro.Capture.Invariant.{ids_at, nonempty}
use lan_mouse_pro.Capture.Operations.{IsPut, create-IsPut}
use lan_mouse_pro.Capture.Queue.{SameQueue, create-SameQueue}
use lan_mouse_pro.Capture.Run.{Safe, Safe-bind, Safe-OnDone}
use lan_mouse_pro.HashMap
use lan_mouse_pro.Session.Barriers.{created-IsKnown}
use lan_mouse_pro.Session.Events.{find_capture}
use lan_mouse_pro.Session.Known.{IsKnown, IsKnown-IsValid, key_found}
use lan_mouse_pro.Session.Lifetime.{new_capture, create_captures, open_session}
use lan_mouse_pro.Session.Outside.{Outside, emit}
use lan_mouse_pro.Session.Received.{add_capture}
use lan_mouse_pro.Session.Types.{Registered, CaptureTask}

-- No handle is registered twice, nor before.
abbrev pub AreNew : List Registered → List Registered → Type 0
AreNew seen [] = Unit
AreNew seen (c ∷ cs) = (find_capture c.handle seen ≡ none) × AreNew (seen ++ (c ∷ [])) cs

abbrev with_created :
    {B : Type 0} → CaptureTask B → List Registered → InputCapture B → CaptureTask B
with_created t captures ic = record t { captures = captures; capture = ic }

module _ {B : Type 0} (out : Outside B) where
  create_captures-rest :
      (cs : List Registered) (t : CaptureTask B)
      → IsKnown t
      → AreNew t.captures cs
      → Safe
          (λ ic. IsKnown (with_created t (t.captures ++ cs) ic))
          (create_captures out cs t.capture)
  unfolding create_captures add_capture
  create_captures-rest [] t known new =
      subst (λ captures. IsKnown (with_created t captures t.capture)) (sym (append-nil t.captures))
        known
  create_captures-rest (c ∷ cs) t known new =
      Safe-bind (λ after. IsPut c.handle c.key t.capture after × SameQueue t.capture after)
        (λ ic. IsKnown (with_created t (t.captures ++ (c ∷ cs)) ic)) (create_captures out cs)
        (Barriers.create out.barriers c.handle c.key t.capture)
        (Safe-OnDone (IsPut c.handle c.key t.capture) (SameQueue t.capture)
          (Barriers.create out.barriers c.handle c.key t.capture)
          (create-IsPut out.barriers c.handle c.key t.capture (IsKnown-IsValid t known)
            (known.same_keys c.handle ∙ ap key_found new.0))
          (create-SameQueue out.barriers c.handle c.key t.capture))
        (λ after made.
          subst
            (λ captures.
              Safe (λ ic. IsKnown (with_created t captures ic)) (create_captures out cs after))
            (append_assoc t.captures (c ∷ []) cs)
            (create_captures-rest cs (with_created t (t.captures ++ (c ∷ [])) after)
              (created-IsKnown c.handle c.key c.capture_type t after known new.0 made) new.1))

  new_capture-IsKnown : (t : CaptureTask B) (b : B) → IsKnown (with_created t [] (new_capture b))
  unfolding HashMap.get ids_at nonempty find_capture
  new_capture-IsKnown t b = record {
    ids_Distinct = tt;
    keys_Distinct = tt;
    inverse = λ key. refl;
    same_keys = λ h. refl;
    queue = tt;
  }

  -- Whatever the last session left, the barriers of a new one are created without a panic if no handle
  -- is registered twice, and unless the backend fails they are those of the registered captures: the
  -- captures, the barriers and the empty queue agree.
  pub open_session-IsKnown :
      (b : B) (t : CaptureTask B)
      → AreNew [] t.captures
      → Safe
          (λ ic. IsKnown (record (open_session out b t) { capture = ic }))
          (create_captures out (open_session out b t).captures (open_session out b t).capture)
  unfolding open_session emit
  open_session-IsKnown b t new =
      create_captures-rest t.captures (with_created t [] (new_capture b)) (new_capture-IsKnown t b)
        new
