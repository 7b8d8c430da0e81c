-- ===== src/FileCache.antt =====
-- The clipboard file cache, src/clipboard/file_cache.rs: `FileCache`. Its state, its eviction loop,
-- `lookup` and `remove` are those of the byte cache (Cache.antt) with a larger budget; it has two
-- ways to insert.
pub mod Recount
use lan_mouse_pro.Common.{
  ℕ, ◌*◌, ◌<◌, ◌≡◌, refl, ap, ◌∙◌, arith, Bool, ltb, if◌then◌else◌, Option, none, some, List,
  length,
}
use lan_mouse_pro.Cache
use lan_mouse_pro.Cache.{
  ClipboardCache, CacheEntry, with_byte_budget_and_ttl, replaced, add_usize, evict, ◌>>=◌,
}
use lan_mouse_pro.Cache.Invariant.{IsValid}
use lan_mouse_pro.Cache.Operations.{insert-IsValid}
use lan_mouse_pro.HashMap
use mathlib.Core.Option

abbrev pub FileCache : Type 0 → Type 0
FileCache K = ClipboardCache K

abbrev pub file_cache_byte_budget : ℕ
file_cache_byte_budget = 1024 * 1024 * 1024

abbrev pub file_cache_ttl : ℕ
file_cache_ttl = 5 * 60

unfoldable pub new_file_cache : {K : Type 0} → FileCache K
unfolding with_byte_budget_and_ttl
new_file_cache = with_byte_budget_and_ttl file_cache_byte_budget file_cache_ttl

module _ {K : Type 0} (dec : Discrete K) where
  -- The insert of the hot path: the bytes are moved in, and nothing is returned.
  unfoldable pub insert_owned : ℕ → K → List ℕ → FileCache K → Option (FileCache K)
  insert_owned now k bytes c = if ltb c.byte_budget (length bytes) then some c else (do
    let previous_entry = HashMap.get dec k c.entries
    let entry : CacheEntry = record { bytes = bytes; inserted_at = now }
    c₁ ← replaced dec k previous_entry (record c { entries = HashMap.put dec k entry c.entries })
    used ← add_usize c₁.bytes_used (length bytes)
    evict dec c₁.lru (record c₁ { bytes_used = used }))

  -- The insert that returns the previous value.
  unfoldable pub insert_returning_prev :
      ℕ → K → List ℕ → FileCache K → Option (FileCache K × Option (List ℕ))
  insert_returning_prev now k bytes c =
      if ltb c.byte_budget (length bytes) then some (c, none) else (do
        let previous_entry = HashMap.get dec k c.entries
        let entry : CacheEntry = record { bytes = bytes; inserted_at = now }
        c₁ ←
            replaced dec k previous_entry (record c { entries = HashMap.put dec k entry c.entries })
        used ← add_usize c₁.bytes_used (length bytes)
        c₂ ← evict dec c₁.lru (record c₁ { bytes_used = used })
        some (c₂, Option.map (λ e. e.bytes) previous_entry))

  unfoldable pub lookup_file : ℕ → K → FileCache K → Option (FileCache K × Option (List ℕ))
  unfolding Cache.lookup
  lookup_file now k c = Cache.lookup dec now k c

  unfoldable pub remove_file : K → FileCache K → Option (FileCache K × Bool)
  unfolding Cache.remove
  remove_file k c = Cache.remove dec k c

  insert_returning_prev-insert :
      (now : ℕ) (k : K) (bytes : List ℕ) (c : FileCache K)
      → insert_returning_prev now k bytes c ≡ Cache.insert dec now k bytes c
  unfolding insert_returning_prev Cache.insert
  insert_returning_prev-insert now k bytes c = refl

  -- The two inserts leave the same cache, and fault on the same inputs.
  insert_owned-insert_returning_prev :
      (now : ℕ) (k : K) (bytes : List ℕ) (c : FileCache K)
      → insert_owned now k bytes c ≡ Option.map (λ r. r.0) (insert_returning_prev now k bytes c)
  unfolding insert_owned insert_returning_prev
  insert_owned-insert_returning_prev now k bytes c = ground arith

  -- On a valid cache an insert of the hot path never faults and keeps the cache valid; an insert
  -- above the budget changes nothing.
  pub insert_owned-IsValid :
      (now : ℕ) (k : K) (bytes : List ℕ) (c : FileCache K)
      → IsValid dec c
      → (c' : FileCache K) × (insert_owned now k bytes c ≡ some c')
        × IsValid dec c'
        × (c.byte_budget < length bytes → c' ≡ c)
  insert_owned-IsValid now k bytes c v =
      let (c', e, valid, same) = insert-IsValid dec now k bytes c v in
      (
        c',
        insert_owned-insert_returning_prev now k bytes c
            ∙ ap (Option.map (λ r. r.0)) (insert_returning_prev-insert now k bytes c ∙ e)
            ∙ (refl),
        valid,
        same,
      )
