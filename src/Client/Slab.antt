-- ===== src/Client/Slab.antt =====
-- The `slab` crate, which holds the clients of src/client.rs: a map from small keys to values. The
-- program relies on the laws below, which restate the crate's documentation.
use lan_mouse_pro.Common.{ℕ, ◌≡◌, ◌≢◌, Option, none, some, List, [], ◌∷◌, ◌⊎◌}

-- The value stands in the list.
abbrev pub Holds : {A : Type 0} → A → List A → Type 0
Holds e [] = ⊥
Holds e (x ∷ xs) = (x ≡ e) ⊎ Holds e xs

pub record Slab (V : Type 0) : Type 1 where
  pub S : Type 0
  pub empty : S
  pub insert : V → S → ℕ × S
  pub get : ℕ → S → Option V
  -- A write through the reference that `get_mut` gives.
  pub set : ℕ → V → S → S
  pub try_remove : ℕ → S → S × Option V
  pub iter : S → List (ℕ × V)
  pub get-empty : (k : ℕ) → get k empty ≡ none
  pub insert_vacant : (v : V) (s : S) → get (insert v s).0 s ≡ none
  pub get-insert_self : (v : V) (s : S) → get (insert v s).0 (insert v s).1 ≡ some v
  pub get-insert_ne : (v : V) (s : S) (k : ℕ) → (insert v s).0 ≢ k → get k (insert v s).1 ≡ get k s
  pub get-set_self : (k : ℕ) (v old : V) (s : S) → get k s ≡ some old → get k (set k v s) ≡ some v
  pub get-set_ne : (k q : ℕ) (v : V) (s : S) → k ≢ q → get q (set k v s) ≡ get q s
  pub removed : (k : ℕ) (s : S) → (try_remove k s).1 ≡ get k s
  pub get-remove_self : (k : ℕ) (s : S) → get k (try_remove k s).0 ≡ none
  pub get-remove_ne : (k q : ℕ) (s : S) → k ≢ q → get q (try_remove k s).0 ≡ get q s
  -- `iter` lists exactly the occupied keys.
  pub iter_sound : (s : S) (e : ℕ × V) → Holds e (iter s) → get e.0 s ≡ some e.1
  pub iter_complete : (k : ℕ) (v : V) (s : S) → get k s ≡ some v → Holds (k, v) (iter s)
