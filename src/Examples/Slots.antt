-- ===== src/Examples/Slots.antt =====
-- A slab that never uses a key again: the values stand in a list of slots, and a key is an index.
use lan_mouse_pro.Common.{
  ℕ, zero, suc, ◌+◌, ◌≡◌, ◌≢◌, refl, sym, ap, ◌∙◌, inl, inr, arith, Option, none, some, List, [],
  ◌∷◌, length, subst,
}
use lan_mouse_pro.Client.Slab.{Slab, Holds}
use mathlib.Core.Option.{some-injective, none-ne-some}

module _ {V : Type 0} where
  unfoldable pub slot : ℕ → List (Option V) → Option V
  slot k [] = none
  slot zero (o ∷ os) = o
  slot (suc k) (o ∷ os) = slot k os

  -- The slot is written where it exists.
  unfoldable pub put_slot : ℕ → Option V → List (Option V) → List (Option V)
  put_slot k v [] = []
  put_slot zero v (o ∷ os) = v ∷ os
  put_slot (suc k) v (o ∷ os) = o ∷ put_slot k v os

  unfoldable pub append_slot : V → List (Option V) → List (Option V)
  append_slot v [] = some v ∷ []
  append_slot v (o ∷ os) = o ∷ append_slot v os

  unfoldable pub iter_from : ℕ → List (Option V) → List (ℕ × V)
  iter_from n [] = []
  iter_from n (none ∷ os) = iter_from (suc n) os
  iter_from n (some v ∷ os) = (n, v) ∷ iter_from (suc n) os

  pub slot_vacant : (s : List (Option V)) → slot (length s) s ≡ none
  unfolding slot
  slot_vacant [] = refl
  slot_vacant (o ∷ os) = slot_vacant os

  pub slot-append_self : (v : V) (s : List (Option V)) → slot (length s) (append_slot v s) ≡ some v
  unfolding slot append_slot
  slot-append_self v [] = refl
  slot-append_self v (o ∷ os) = slot-append_self v os

  pub slot-append_ne :
      (v : V) (s : List (Option V)) (k : ℕ) → length s ≢ k → slot k (append_slot v s) ≡ slot k s
  unfolding slot append_slot
  slot-append_ne v [] zero h = absurd (h refl)
  slot-append_ne v [] (suc k) h = refl
  slot-append_ne v (o ∷ os) zero h = refl
  slot-append_ne v (o ∷ os) (suc k) h = slot-append_ne v os k (λ p. h (ap suc p))

  pub slot-put_self :
      (k : ℕ) (v old : V) (s : List (Option V))
      → slot k s ≡ some old
      → slot k (put_slot k (some v) s) ≡ some v
  unfolding slot put_slot
  slot-put_self k v old [] h = absurd (none-ne-some old h)
  slot-put_self zero v old (o ∷ os) h = refl
  slot-put_self (suc k) v old (o ∷ os) h = slot-put_self k v old os h

  pub slot-put_none : (k : ℕ) (s : List (Option V)) → slot k (put_slot k none s) ≡ none
  unfolding slot put_slot
  slot-put_none k [] = refl
  slot-put_none zero (o ∷ os) = refl
  slot-put_none (suc k) (o ∷ os) = slot-put_none k os

  pub slot-put_ne :
      (k q : ℕ) (v : Option V) (s : List (Option V)) → k ≢ q → slot q (put_slot k v s) ≡ slot q s
  unfolding slot put_slot
  slot-put_ne k q v [] h = refl
  slot-put_ne zero zero v (o ∷ os) h = absurd (h refl)
  slot-put_ne zero (suc q) v (o ∷ os) h = refl
  slot-put_ne (suc k) zero v (o ∷ os) h = refl
  slot-put_ne (suc k) (suc q) v (o ∷ os) h = slot-put_ne k q v os (λ p. h (ap suc p))

  pub iter_from_sound :
      (n : ℕ) (s : List (Option V)) (e : ℕ × V)
      → Holds e (iter_from n s)
      → (k : ℕ) × ((e.0 ≡ n + k) × (slot k s ≡ some e.1))
  unfolding iter_from slot
  iter_from_sound n [] e h = absurd h
  iter_from_sound n (none ∷ os) e h =
      let r = iter_from_sound (suc n) os e h in (suc r.0, (omega arith, r.1.1))
  iter_from_sound n (some v ∷ os) e (inl p) =
      (0, (ap (λ x. x.0) (sym p) ∙ omega arith, ap (λ x. some x.1) p))
  iter_from_sound n (some v ∷ os) e (inr h) =
      let r = iter_from_sound (suc n) os e h in (suc r.0, (omega arith, r.1.1))

  pub iter_from_complete :
      (n k j : ℕ) (v : V) (s : List (Option V))
      → j ≡ n + k
      → slot k s ≡ some v
      → Holds (j, v) (iter_from n s)
  unfolding iter_from slot
  iter_from_complete n k j v [] q h = absurd (none-ne-some v h)
  iter_from_complete n zero j v (none ∷ os) q h = absurd (none-ne-some v h)
  iter_from_complete n zero j v (some w ∷ os) q h =
      let same : j ≡ n = omega arith in inl (rw (same, some-injective w v h) refl)
  iter_from_complete n (suc k) j v (none ∷ os) q h =
      iter_from_complete (suc n) k j v os (omega arith) h
  iter_from_complete n (suc k) j v (some w ∷ os) q h =
      inr (iter_from_complete (suc n) k j v os (omega arith) h)

pub iter_sound_lem :
    {V : Type 0} (s : List (Option V)) (e : ℕ × V) → Holds e (iter_from 0 s) → slot e.0 s ≡ some e.1
iter_sound_lem s e h =
    let r = iter_from_sound 0 s e h in
    let at : r.0 ≡ e.0 = (let place = r.1.0 in omega arith) in
    subst (λ q. slot q s ≡ some e.1) at r.1.1

pub slot-nil : {V : Type 0} (k : ℕ) → slot {V = V} k [] ≡ none
unfolding slot
slot-nil k = refl

abbrev pub slots : (V : Type 0) → Slab V
slots V = record {
  S = List (Option V);
  empty = [];
  insert = λ v s. (length s, append_slot v s);
  get = slot;
  set = λ k v. put_slot k (some v);
  try_remove = λ k s. (put_slot k none s, slot k s);
  iter = iter_from 0;
  get-empty = slot-nil;
  insert_vacant = λ v s. slot_vacant s;
  get-insert_self = slot-append_self;
  get-insert_ne = slot-append_ne;
  get-set_self = slot-put_self;
  get-set_ne = λ k q v. slot-put_ne k q (some v);
  removed = λ k s. refl;
  get-remove_self = slot-put_none;
  get-remove_ne = λ k q. slot-put_ne k q none;
  iter_sound = λ s e h. iter_sound_lem s e h;
  iter_complete = λ k v s. iter_from_complete 0 k k v s (omega arith);
}
