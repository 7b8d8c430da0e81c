-- ===== src/HashMap.antt =====
-- Rust's `HashMap` as an association list with distinct keys: `get`, `insert` and `remove` as the
-- clipboard caches use them, over keys with a decidable equality.
use lan_mouse_pro.Common.{
  ℕ, ◌+◌, ◌≡◌, ◌≢◌, refl, sym, ◌∙◌, arith, Option, none, some, List, [], ◌∷◌,
}
use mathlib.Core.Logic.{ite, if_pos, if_neg}

module _ {ℓ} {K V : Type ℓ} (dec : Discrete K) where
  unfoldable pub get : K → List (K × V) → Option V
  get k [] = none
  get k (e ∷ m) = ite (dec e.0 k) (some e.1) (get k m)

  -- An entry of the key is replaced; a new key goes to the end.
  unfoldable pub put : K → V → List (K × V) → List (K × V)
  put k v [] = (k, v) ∷ []
  put k v (e ∷ m) = ite (dec e.0 k) ((k, v) ∷ m) (e ∷ put k v m)

  unfoldable pub erase : K → List (K × V) → List (K × V)
  erase k [] = []
  erase k (e ∷ m) = ite (dec e.0 k) m (e ∷ erase k m)

  abbrev pub Distinct : List (K × V) → Type ℓ
  Distinct [] = Unit
  Distinct (e ∷ m) = (get e.0 m ≡ none) × Distinct m

  pub get-put :
      (k q : K) (v : V) (m : List (K × V)) → get q (put k v m) ≡ ite (dec k q) (some v) (get q m)
  unfolding get put
  get-put k q v [] = refl
  get-put k q v (e ∷ m) = ground (arith, get-put k q v m)

  pub get-put_self : (k : K) (v : V) (m : List (K × V)) → get k (put k v m) ≡ some v
  get-put_self k v m = get-put k k v m ∙ if_pos (dec k k) refl _ _

  pub get-put_ne : (k q : K) (v : V) (m : List (K × V)) → k ≢ q → get q (put k v m) ≡ get q m
  get-put_ne k q v m h = get-put k q v m ∙ if_neg (dec k q) h _ _

  pub get-erase_ne : (k q : K) (m : List (K × V)) → k ≢ q → get q (erase k m) ≡ get q m
  unfolding get erase
  get-erase_ne k q [] h = refl
  get-erase_ne k q (e ∷ m) h = ground (arith, get-erase_ne k q m)

  pub get-erase_self : (k : K) (m : List (K × V)) → Distinct m → get k (erase k m) ≡ none
  unfolding get erase
  get-erase_self k [] d = refl
  get-erase_self k (e ∷ m) d = elim (dec e.0 k) [
    | yes p ↦ rw (if_pos (dec e.0 k) p) (rw p at d.0)
    | no p ↦ rw (if_neg (dec e.0 k) p, if_neg (dec e.0 k) p) (get-erase_self k m d.1)
  ]

  pub erase_absent : (k : K) (m : List (K × V)) → get k m ≡ none → erase k m ≡ m
  unfolding get erase
  erase_absent k [] h = refl
  erase_absent k (e ∷ m) h = ground (arith, erase_absent k m)

  pub Distinct-put : (k : K) (v : V) (m : List (K × V)) → Distinct m → Distinct (put k v m)
  unfolding put get
  Distinct-put k v [] d = (refl, tt)
  Distinct-put k v (e ∷ m) d = elim (dec e.0 k) [
    | yes p ↦ rw (if_pos (dec e.0 k) p) (rw p at d.0, d.1)
    | no p ↦
        rw (if_neg (dec e.0 k) p)
          (get-put_ne k e.0 v m (λ q. p (sym q)) ∙ d.0, Distinct-put k v m d.1)
  ]

  pub Distinct-erase : (k : K) (m : List (K × V)) → Distinct m → Distinct (erase k m)
  unfolding erase
  Distinct-erase k [] d = tt
  Distinct-erase k (e ∷ m) d = elim (dec e.0 k) [
    | yes p ↦ rw (if_pos (dec e.0 k) p) d.1
    | no p ↦
        rw (if_neg (dec e.0 k) p)
          (get-erase_ne k e.0 m (λ q. p (sym q)) ∙ d.0, Distinct-erase k m d.1)
  ]

  -- A map in which no key is found is empty.
  pub empty_of_absent : (m : List (K × V)) → ((k : K) → get k m ≡ none) → m ≡ []
  unfolding get
  empty_of_absent [] h = refl
  empty_of_absent (e ∷ m) h = ground (arith, h e.0)

  -- The sum of a measure of the values.
  module _ (size : V → ℕ) where
    unfoldable pub total : List (K × V) → ℕ
    total [] = 0
    total (e ∷ m) = size e.1 + total m

    pub total-put_new :
        (k : K) (v : V) (m : List (K × V)) → get k m ≡ none → total (put k v m) ≡ total m + size v
    unfolding total put get
    total-put_new k v [] h = omega arith
    total-put_new k v (e ∷ m) h = ground (arith, total-put_new k v m)

    pub total-put_old :
        (k : K) (v old : V) (m : List (K × V))
        → get k m ≡ some old
        → total (put k v m) + size old ≡ total m + size v
    unfolding total put get
    total-put_old k v old [] h = cc
    total-put_old k v old (e ∷ m) h = ground (arith, total-put_old k v old m)

    pub total-erase :
        (k : K) (v : V) (m : List (K × V)) → get k m ≡ some v → total (erase k m) + size v ≡ total m
    unfolding total erase get
    total-erase k v [] h = cc
    total-erase k v (e ∷ m) h = ground (arith, total-erase k v m)
