-- ===== src/Cache.antt =====
-- The clipboard byte cache, src/clipboard/cache.rs: `ClipboardCache`, content-addressed, with a byte
-- budget, insertion-order eviction and a time to live. Keys are generic (the program's are SHA-256
-- digests), bytes are numbers, an `Instant` and a `Duration` are numbers of one unit, and the current
-- time is an argument.
pub mod Retention
pub mod Operations
pub mod Invariant
pub mod Evict
use lan_mouse_pro.Common.{
  ℕ, ◌+◌, ◌-◌, ◌*◌, ◌^◌, Bool, true, false, ltb, if◌then◌else◌, Option, none, some, List, [], ◌∷◌,
  ◌++◌, length,
}
use lan_mouse_pro.HashMap
use mathlib.Core.Option

-- `usize` arithmetic; `none` is the overflow panic of a checked build.
infixl 5 ◌>>=◌
abbrev pub ◌>>=◌ {ℓ κ} : {A : Type ℓ} {B : Type κ} → Option A → (A → Option B) → Option B
none >>= f = none
some a >>= f = f a

unfoldable pub sub_usize : ℕ → ℕ → Option ℕ
sub_usize a b = if ltb a b then none else some (a - b)

unfoldable pub add_usize : ℕ → ℕ → Option ℕ
add_usize a b = if ltb (a + b) (2 ^ 64) then some (a + b) else none

pub record CacheEntry : Type 0 where
  pub bytes : List ℕ
  pub inserted_at : ℕ

abbrev pub size : CacheEntry → ℕ
size e = length e.bytes

pub record ClipboardCache (K : Type 0) : Type 0 where
  pub byte_budget : ℕ
  pub ttl : ℕ
  pub entries : List (K × CacheEntry)
  pub lru : List K
  pub bytes_used : ℕ

abbrev pub clipboard_cache_byte_budget : ℕ
clipboard_cache_byte_budget = 200 * 1024 * 1024

abbrev pub clipboard_cache_ttl : ℕ
clipboard_cache_ttl = 5 * 60

unfoldable pub with_byte_budget_and_ttl : {K : Type 0} → ℕ → ℕ → ClipboardCache K
with_byte_budget_and_ttl byte_budget ttl = record {
  byte_budget = byte_budget;
  ttl = ttl;
  entries = [];
  lru = [];
  bytes_used = 0;
}

unfoldable pub new : {K : Type 0} → ClipboardCache K
unfolding with_byte_budget_and_ttl
new = with_byte_budget_and_ttl clipboard_cache_byte_budget clipboard_cache_ttl

module _ {K : Type 0} (dec : Discrete K) where
  -- `if let Some(removed) = self.entries.remove(k) { self.bytes_used -= removed.bytes.len() }`.
  unfoldable pub drop_entry : K → ClipboardCache K → Option (ClipboardCache K)
  drop_entry k c = elim (HashMap.get dec k c.entries) [
    | none ↦ some c
    | some removed ↦ do
      used ← sub_usize c.bytes_used (size removed)
      some (record c { entries = HashMap.erase dec k c.entries; bytes_used = used })
  ]

  -- `while self.bytes_used > self.byte_budget`, over the queue from its front; on an empty queue the
  -- loop breaks.
  unfoldable pub evict : List K → ClipboardCache K → Option (ClipboardCache K)
  unfolding drop_entry
  evict [] c = some (record c { lru = [] })
  evict (oldest ∷ lru) c = elim (ltb c.byte_budget c.bytes_used) [
    | true ↦ (do c' ← drop_entry oldest c; evict lru c')
    | false ↦ some (record c { lru = oldest ∷ lru })
  ]

  -- What `entries.insert` returned decides what is taken off the count, and whether the key joins
  -- the queue.
  unfoldable pub replaced : K → Option CacheEntry → ClipboardCache K → Option (ClipboardCache K)
  replaced k (some prev) c = do
    used ← sub_usize c.bytes_used (size prev)
    some (record c { bytes_used = used })
  replaced k none c = some (record c { lru = c.lru ++ (k ∷ []) })

  -- The cache and the previous value.
  unfoldable pub insert :
      ℕ → K → List ℕ → ClipboardCache K → Option (ClipboardCache K × Option (List ℕ))
  unfolding evict replaced
  insert now k bytes c = if ltb c.byte_budget (length bytes) then some (c, none) else (do
    let previous_entry = HashMap.get dec k c.entries
    let entry : CacheEntry = record { bytes = bytes; inserted_at = now }
    c₁ ← replaced k previous_entry (record c { entries = HashMap.put dec k entry c.entries })
    used ← add_usize c₁.bytes_used (length bytes)
    c₂ ← evict c₁.lru (record c₁ { bytes_used = used })
    some (c₂, Option.map (λ e. e.bytes) previous_entry))

  -- `now.duration_since(t)` is 0 for a later `t`.
  unfoldable pub lookup : ℕ → K → ClipboardCache K → Option (ClipboardCache K × Option (List ℕ))
  unfolding drop_entry
  lookup now k c = elim (HashMap.get dec k c.entries) [
    | none ↦ some (c, none)
    | some entry ↦
        if ltb (now - entry.inserted_at) c.ttl
        then some (c, some entry.bytes)
        else (do c' ← drop_entry k c; some (c', none))
  ]

  unfoldable pub remove : K → ClipboardCache K → Option (ClipboardCache K × Bool)
  remove k c = elim (HashMap.get dec k c.entries) [
    | none ↦ some (c, false)
    | some entry ↦ do
      used ← sub_usize c.bytes_used (size entry)
      some (record c { entries = HashMap.erase dec k c.entries; bytes_used = used }, true)
  ]
