-- ===== src/Capture/Invariant.antt =====
-- input-capture/src/lib.rs: when the two maps of `InputCapture` are each other's inverse.
use lan_mouse_pro.Common.{ℕ, ◌≡◌, ◌≢◌, refl, sym, arith, Option, none, some, List, [], ◌∷◌, ◌++◌}
use lan_mouse_pro.Capture.Barriers.{InputCapture, retain}
use lan_mouse_pro.Client.Types.{BarrierKey, BarrierKey-discrete}
use lan_mouse_pro.HashMap
use mathlib.Core.Logic.{ite}
use mathlib.Core.Option.{none-ne-some, some-injective}
use native.Mathlib.Decide.{ℕ_discrete}

-- The ids that stand at the key.
unfoldable pub ids_at : BarrierKey → List (ℕ × BarrierKey) → List ℕ
ids_at key [] = []
ids_at key (e ∷ m) = let rest = ids_at key m in ite (BarrierKey-discrete e.1 key) (e.0 ∷ rest) rest

unfoldable pub nonempty : List ℕ → Option (List ℕ)
nonempty [] = none
nonempty (i ∷ is) = some (i ∷ is)

-- A key has an entry just where some id stands at it, and the entry lists those ids.
pub record IsValid {B : Type 0} (ic : InputCapture B) : Type 0 where
  pub ids_Distinct : HashMap.Distinct ℕ_discrete ic.id_map
  pub keys_Distinct : HashMap.Distinct BarrierKey-discrete ic.position_map
  pub inverse :
      (key : BarrierKey)
      → HashMap.get BarrierKey-discrete key ic.position_map ≡ nonempty (ids_at key ic.id_map)

-- A new id stands last at its key.
pub ids_at-put :
    (id : ℕ) (key q : BarrierKey) (m : List (ℕ × BarrierKey))
    → HashMap.get ℕ_discrete id m ≡ none
    → ids_at q (HashMap.put ℕ_discrete id key m)
      ≡ ids_at q m ++ ite (BarrierKey-discrete key q) (id ∷ []) []
unfolding ids_at HashMap.put HashMap.get
ids_at-put id key q [] h = refl
ids_at-put id key q (e ∷ m) h = ground (arith, ids_at-put id key q m)

retain_absent :
    (id : ℕ) (q : BarrierKey) (m : List (ℕ × BarrierKey))
    → HashMap.get ℕ_discrete id m ≡ none
    → retain id (ids_at q m) ≡ ids_at q m
unfolding ids_at retain HashMap.get
retain_absent id q [] h = refl
retain_absent id q (e ∷ m) h = ground (arith, retain_absent id q m)

-- Where the id is erased, it is taken out of the ids at every key.
pub ids_at-erase :
    (id : ℕ) (q : BarrierKey) (m : List (ℕ × BarrierKey))
    → HashMap.Distinct ℕ_discrete m
    → ids_at q (HashMap.erase ℕ_discrete id m) ≡ retain id (ids_at q m)
unfolding ids_at retain HashMap.erase
ids_at-erase id q [] d = refl
ids_at-erase id q (e ∷ m) d = ground (arith, ids_at-erase id q m d.1, retain_absent e.0 q m d.0)

pub ids_at-erase_ne :
    (id : ℕ) (key q : BarrierKey) (m : List (ℕ × BarrierKey))
    → HashMap.get ℕ_discrete id m ≡ some key
    → key ≢ q
    → ids_at q (HashMap.erase ℕ_discrete id m) ≡ ids_at q m
unfolding ids_at HashMap.erase HashMap.get
ids_at-erase_ne id key q [] h p = refl
ids_at-erase_ne id key q (e ∷ m) h p = ground (arith, ids_at-erase_ne id key q m)

pub nonempty-some : (is : List ℕ) (v : List ℕ) → nonempty is ≡ some v → is ≡ v
unfolding nonempty
nonempty-some [] v h = absurd (none-ne-some v h)
nonempty-some (i ∷ is) v h = some-injective (i ∷ is) v h

pub nonempty-none : (is : List ℕ) → nonempty is ≡ none → is ≡ []
unfolding nonempty
nonempty-none [] h = refl
nonempty-none (i ∷ is) h = absurd (none-ne-some (i ∷ is) (sym h))

pub nonempty-last : (is : List ℕ) (i : ℕ) → nonempty (is ++ (i ∷ [])) ≡ some (is ++ (i ∷ []))
unfolding nonempty
nonempty-last [] i = refl
nonempty-last (j ∷ is) i = refl

-- An id that has a key is among the ids at it.
pub nonempty-ids_at :
    (id : ℕ) (key : BarrierKey) (m : List (ℕ × BarrierKey))
    → HashMap.get ℕ_discrete id m ≡ some key
    → nonempty (ids_at key m) ≢ none
unfolding nonempty ids_at HashMap.get
nonempty-ids_at id key [] h = absurd (none-ne-some key h)
nonempty-ids_at id key (e ∷ m) h = ground (arith, nonempty-ids_at id key m)
