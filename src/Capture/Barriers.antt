-- ===== src/Capture/Barriers.antt =====
-- `InputCapture`, its `create` and its `destroy`, input-capture/src/lib.rs, and the requests that
-- reach them through `CaptureTask::do_capture_session` of src/capture.rs. The backend is a
-- parameter: `None` stands for its error. `pressed_keys` is a `HashSet` of scancodes: a list, in an
-- order that the code does not rely on.
use lan_mouse_pro.Common.{ℕ, Option, none, some, List, [], ◌∷◌, ◌++◌}
use lan_mouse_pro.Capture.Run.{Run, done, failed, panic}
use lan_mouse_pro.Client.Types.{BarrierKey, BarrierKey-discrete}
use lan_mouse_pro.HashMap
use lan_mouse_pro.Wire.Types.{InputEvent}
use mathlib.Core.Logic.{ite}
use native.Mathlib.Decide.{ℕ_discrete}

pub record Backend (B : Type 0) : Type 0 where
  pub create : BarrierKey → B → Option B
  pub destroy : BarrierKey → B → Option B

pub data CaptureEvent : Type 0 where
  begin begin_pending cancel_pending : CaptureEvent
  input : InputEvent → CaptureEvent

pub record InputCapture (B : Type 0) : Type 0 where
  pub capture : B
  pub pressed_keys : List ℕ
  pub position_map : List (BarrierKey × List ℕ)
  pub id_map : List (ℕ × BarrierKey)
  pub pending : List (ℕ × CaptureEvent)

-- `remaining.retain(|&i| i != id)`.
unfoldable pub retain : ℕ → List ℕ → List ℕ
retain id [] = []
retain id (i ∷ is) = let rest = retain id is in ite (ℕ_discrete i id) rest (i ∷ rest)

module _ {B : Type 0} (backend : Backend B) where
  unfoldable pub create : ℕ → BarrierKey → InputCapture B → Run (InputCapture B)
  create id key ic = elim (HashMap.get ℕ_discrete id ic.id_map) [
    | some _ ↦ panic
    | none ↦
        let ic' : InputCapture B = record ic { id_map = HashMap.put ℕ_discrete id key ic.id_map } in
        elim (HashMap.get BarrierKey-discrete key ic.position_map) [
          | some v ↦ done (record ic' {
            position_map = HashMap.put BarrierKey-discrete key (v ++ (id ∷ [])) ic.position_map;
          })
          | none ↦ elim (backend.create key ic.capture) [
            | none ↦ failed
            | some b ↦ done (record ic' {
              capture = b;
              position_map = HashMap.put BarrierKey-discrete key (id ∷ []) ic.position_map;
            })
          ]
        ]
  ]

  -- With the ids that are left at the key: no id left means no barrier.
  unfoldable pub keep_remaining : BarrierKey → List ℕ → InputCapture B → Run (InputCapture B)
  keep_remaining key [] ic = elim (backend.destroy key ic.capture) [
    | none ↦ failed
    | some b ↦ done (record ic {
      capture = b;
      position_map = HashMap.erase BarrierKey-discrete key ic.position_map;
    })
  ]
  keep_remaining key (i ∷ is) ic =
      done
        (record ic { position_map = HashMap.put BarrierKey-discrete key (i ∷ is) ic.position_map })

  unfoldable pub destroy : ℕ → InputCapture B → Run (InputCapture B)
  unfolding retain keep_remaining
  destroy id ic = elim (HashMap.get ℕ_discrete id ic.id_map) [
    | none ↦ panic
    | some key ↦ elim (HashMap.get BarrierKey-discrete key ic.position_map) [
      | none ↦ panic
      | some v ↦
          keep_remaining key (retain id v)
            (record ic { id_map = HashMap.erase ℕ_discrete id ic.id_map })
    ]
  ]
