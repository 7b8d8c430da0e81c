-- ===== src/Examples/CacheRuns.antt =====
-- The clipboard caches on concrete histories. The keys are numbers.
use lan_mouse_pro.Common.{
  ℕ, ◌-◌, ◌<◌, ◌≡◌, ◌≢◌, refl, inl, inr, ◌≤◌, arith, none, some, [], ◌∷◌, ltb, if◌then◌else◌,
}
use lan_mouse_pro.Cache.{
  ClipboardCache, CacheEntry, with_byte_budget_and_ttl, insert, lookup, remove, evict, replaced,
  drop_entry, add_usize, sub_usize, ◌>>=◌,
}
use lan_mouse_pro.Cache.Evict.{In}
use lan_mouse_pro.Cache.Invariant.{IsValid, empty-IsValid}
use lan_mouse_pro.Cache.Operations.{insert-IsValid, lookup-view, view}
use lan_mouse_pro.Cache.Retention.{insert_new_retained, insert_stale_lost}
use lan_mouse_pro.FileCache.{insert_owned, insert_returning_prev, insert_owned-IsValid}
use lan_mouse_pro.FileCache.Recount.{shrink, inserts-recounting_insert}
use lan_mouse_pro.HashMap
use lan_mouse_pro.HashMap.{total}
use mathlib.Core.Logic.{if_neg}
use mathlib.Core.Option
use native.Mathlib.Decide.{ℕ_discrete as dec}

cache_code : Unit {0}
unfolding insert lookup remove evict replaced drop_entry add_usize sub_usize
    with_byte_budget_and_ttl HashMap.get HashMap.put HashMap.erase dec insert_owned
    insert_returning_prev
cache_code = tt

abbrev empty : ClipboardCache ℕ
empty = record { byte_budget = 5; ttl = 10; entries = []; lru = []; bytes_used = 0 }

empty_cache-IsValid : IsValid dec empty
unfolding with_byte_budget_and_ttl
empty_cache-IsValid = empty-IsValid dec 5 10 (omega arith)

-- Key 1 is stored and removed, then key 2 is stored: the queue still begins with key 1.
abbrev stale : ClipboardCache ℕ
stale = record empty {
  entries = (2, record { bytes = 7 ∷ 8 ∷ 9 ∷ []; inserted_at = 3 }) ∷ [];
  lru = 1 ∷ 2 ∷ [];
  bytes_used = 3;
}

stale_reached :
    (do
      (c, _) ← insert dec 1 1 (7 ∷ []) empty
      (c, _) ← remove dec 1 c
      (c, _) ← insert dec 3 2 (7 ∷ 8 ∷ 9 ∷ []) c
      some c)
    ≡ some stale
unfolding cache_code
stale_reached = refl

stale_tracked : (q : ℕ) (e : CacheEntry) → HashMap.get dec q stale.entries ≡ some e → In q stale.lru
unfolding HashMap.get
stale_tracked q e found = elim (dec 2 q) [
  | yes p ↦ inr (inl p)
  | no p ↦ cc (rw (if_neg (dec 2 q) p) at found)
]

stale-IsValid : IsValid dec stale
unfolding cache_code total
stale-IsValid = record {
  consistent = record { distinct = (refl, tt); counted = refl; tracked = stale_tracked };
  within = omega arith;
  small = omega arith;
}

insert-IsValid_example :
    (c' : ClipboardCache ℕ) × (insert dec 4 3 (1 ∷ 2 ∷ 3 ∷ []) stale
      ≡ some (
        c',
        if ltb stale.byte_budget 3
            then none
            else Option.map (λ e. e.bytes) (HashMap.get dec 3 stale.entries),
      ))
    × IsValid dec c'
    × (stale.byte_budget < 3 → c' ≡ stale)
insert-IsValid_example = insert-IsValid dec 4 3 (1 ∷ 2 ∷ 3 ∷ []) stale stale-IsValid

lookup-view_example :
    (c' : ClipboardCache ℕ) × (lookup dec 20 2 stale ≡ some (c', view dec 20 stale 2))
    × IsValid dec c'
    × ((later : ℕ) (q : ℕ) → 20 ≤ later → view dec later c' q ≡ view dec later stale q)
lookup-view_example = lookup-view dec 20 2 stale stale-IsValid

-- Key 3 is new: key 2 is evicted for it, and it stays.
insert_new_retained_example :
    (c' : ClipboardCache ℕ) × (insert dec 4 3 (1 ∷ 2 ∷ 3 ∷ []) stale ≡ some (c', none))
    × ((later : ℕ) → later - 4 < 10 → view dec later c' 3 ≡ some (1 ∷ 2 ∷ 3 ∷ []))
insert_new_retained_example =
    insert_new_retained dec 4 3 (1 ∷ 2 ∷ 3 ∷ []) stale stale-IsValid (omega arith) (λ h. elim h [
      | inl p ↦ absurd (omega arith)
      | inr r ↦ elim r [ inl p ↦ absurd (omega arith) | inr n ↦ n ]
    ])

-- Key 1 is stored again, and lost at once.
insert_stale_lost_example :
    (c' : ClipboardCache ℕ) × (insert dec 4 1 (1 ∷ 2 ∷ 3 ∷ []) stale ≡ some (c', none))
    × ((later : ℕ) → view dec later c' 1 ≡ none)
    × ((later : ℕ) (q : ℕ) → 1 ≢ q → view dec later c' q ≡ view dec later stale q)
unfolding cache_code
insert_stale_lost_example =
    insert_stale_lost dec 4 1 (1 ∷ 2 ∷ 3 ∷ []) stale stale-IsValid (omega arith) (2 ∷ []) refl refl
      (omega arith)

-- Three bytes under key 3 take keys 1 and 2 out of the queue.
abbrev shrunk : ClipboardCache ℕ
shrunk = record stale {
  entries = (3, record { bytes = 1 ∷ 2 ∷ 3 ∷ []; inserted_at = 4 }) ∷ [];
  lru = 3 ∷ [];
}

inserts-recounting_insert_example :
    (insert_owned dec 4 3 (1 ∷ 2 ∷ 3 ∷ []) stale ≡ some shrunk)
    × (insert_returning_prev dec 4 3 (1 ∷ 2 ∷ 3 ∷ []) stale ≡ some (shrunk, none))
unfolding cache_code shrink HashMap.total
inserts-recounting_insert_example =
    inserts-recounting_insert dec 4 3 (1 ∷ 2 ∷ 3 ∷ []) stale stale-IsValid

insert_owned-IsValid_example :
    (c' : ClipboardCache ℕ) × (insert_owned dec 4 3 (1 ∷ []) stale ≡ some c')
    × IsValid dec c'
    × (stale.byte_budget < 1 → c' ≡ stale)
insert_owned-IsValid_example = insert_owned-IsValid dec 4 3 (1 ∷ []) stale stale-IsValid
