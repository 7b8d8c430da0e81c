-- ===== src/FileCache/Recount.antt =====
-- src/clipboard/file_cache.rs: the two inserts against an insert that keeps no count.
use lan_mouse_pro.Cache.{ClipboardCache, CacheEntry, size, add_usize, replaced, drop_entry, evict}
use lan_mouse_pro.Cache.Evict.{sub_size}
use lan_mouse_pro.Cache.Invariant.{IsValid}
use lan_mouse_pro.Common.{
  ℕ, ◌+◌, ◌-◌, ◌^◌, ◌≡◌, ◌≤◌, refl, sym, ap, ◌∙◌, inl, inr, arith, true, false, Bool-cases, ltb,
  ltb→le, le→ltb, lt→ltb, if◌then◌else◌, Option, none, some, Option-cases, List, [], ◌∷◌, ◌++◌,
  length,
}
use lan_mouse_pro.FileCache.{FileCache, insert_owned, insert_returning_prev}
use lan_mouse_pro.HashMap
use lan_mouse_pro.HashMap.{Distinct, total}
use mathlib.Core.Option

module _ {K : Type 0} (dec : Discrete K) where
  -- The oldest keys are taken out while the sizes of what is left sum up to more than the budget; the
  -- sum is made anew each time.
  unfoldable pub shrink : ℕ → List K → List (K × CacheEntry) → List K × List (K × CacheEntry)
  shrink budget [] entries = ([], entries)
  shrink budget (oldest ∷ lru) entries = elim (ltb budget (total dec size entries)) [
    | true ↦ shrink budget lru (HashMap.erase dec oldest entries)
    | false ↦ (oldest ∷ lru, entries)
  ]

  -- The cache with this map and this queue, shrunk, and counted.
  abbrev pub recounted : ClipboardCache K → List K → List (K × CacheEntry) → ClipboardCache K
  recounted c lru entries =
      let (lru', entries') = shrink c.byte_budget lru entries in
      record c { lru = lru'; entries = entries'; bytes_used = total dec size entries' }

  -- A new key goes to the end of the queue, a known one stays where it is.
  abbrev pub queued : K → Option CacheEntry → List K → List K
  queued k none lru = lru ++ (k ∷ [])
  queued k (some prev) lru = lru

  -- The insert: the entry is stored, and the cache is shrunk.
  abbrev pub recounting_insert : ℕ → K → List ℕ → ClipboardCache K → ClipboardCache K
  recounting_insert now k bytes c =
      if ltb c.byte_budget (length bytes)
      then c
      else recounted c (queued k (HashMap.get dec k c.entries) c.lru)
          (HashMap.put dec k (record { bytes = bytes; inserted_at = now }) c.entries)

  drop_entry-recount :
      (k : K) (c : ClipboardCache K)
      → c.bytes_used ≡ total dec size c.entries
      → drop_entry dec k c
        ≡ some (record c {
          entries = HashMap.erase dec k c.entries;
          bytes_used = total dec size (HashMap.erase dec k c.entries);
        })
  unfolding drop_entry
  drop_entry-recount k c counted = elim (Option-cases (HashMap.get dec k c.entries)) [
    | inl absent ↦
        let same = HashMap.erase_absent dec k c.entries absent in
        rw (absent, drop_entry, same, sym counted) refl
    | inr (e, found) ↦
        let left : c.bytes_used - size e ≡ total dec size (HashMap.erase dec k c.entries) =
          omega (arith, counted, HashMap.total-erase dec size k e c.entries found) in
        rw (found, drop_entry, sub_size dec k c e counted found, left) refl
  ]

  evict-recount :
      (lru : List K) (c : ClipboardCache K)
      → c.bytes_used ≡ total dec size c.entries
      → evict dec lru c ≡ some (recounted c lru c.entries)
  unfolding evict shrink
  evict-recount [] c counted = ap (λ n. some (record c { lru = []; bytes_used = n })) counted
  evict-recount (k ∷ lru) c counted = elim (Bool-cases (ltb c.byte_budget c.bytes_used)) [
    | inl over ↦
        let over' : ltb c.byte_budget (total dec size c.entries) ≡ true =
          ap (ltb c.byte_budget) (sym counted) ∙ over in
        rw (over, evict, drop_entry-recount k c counted, over', shrink)
          (evict-recount lru
            (record c {
              entries = HashMap.erase dec k c.entries;
              bytes_used = total dec size (HashMap.erase dec k c.entries);
            })
            refl)
    | inr under ↦
        let under' : ltb c.byte_budget (total dec size c.entries) ≡ false =
          ap (ltb c.byte_budget) (sym counted) ∙ under in
        rw (under, evict, under', shrink)
          (ap (λ n. some (record c { lru = k ∷ lru; bytes_used = n })) counted)
  ]

  module _ (now : ℕ) (k : K) (bytes : List ℕ) (c : ClipboardCache K) (valid : IsValid dec c)
      (fits : length bytes ≤ c.byte_budget) where
    abbrev entry : CacheEntry
    entry = record { bytes = bytes; inserted_at = now }

    abbrev stored : ClipboardCache K
    stored = record c { entries = HashMap.put dec k entry c.entries }

    -- The steps of an insert that is accepted, each with what it gives.
    abbrev Recounts : Option CacheEntry → Type 0
    Recounts prev =
        (c₁ : ClipboardCache K) × (used : ℕ) × (replaced dec k prev stored ≡ some c₁)
        × (add_usize c₁.bytes_used (length bytes) ≡ some used)
        × (evict dec c₁.lru (record c₁ { bytes_used = used })
            ≡ some (recounted c (queued k prev c.lru) stored.entries))

    new-Recounts : HashMap.get dec k c.entries ≡ none → Recounts none
    unfolding replaced add_usize
    new-Recounts absent =
        let used = c.bytes_used + length bytes in
        let counted : used ≡ total dec size stored.entries = omega (
          arith,
          HashMap.total-put_new dec size k entry c.entries absent,
          valid.consistent.counted,
        ) in
        (
          record stored { lru = c.lru ++ (k ∷ []) },
          used,
          refl,
          rw (lt→ltb used (2 ^ 64) (omega (arith, valid.within, valid.small, fits))) refl,
          evict-recount (c.lru ++ (k ∷ []))
              (record stored { lru = c.lru ++ (k ∷ []); bytes_used = used }) counted,
        )

    old-Recounts :
        (prev : CacheEntry) → HashMap.get dec k c.entries ≡ some prev → Recounts (some prev)
    unfolding replaced add_usize
    old-Recounts prev old =
        let left = c.bytes_used - size prev in
        let used = left + length bytes in
        let counted : used ≡ total dec size stored.entries = omega (
          arith,
          HashMap.total-put_old dec size k entry prev c.entries old,
          HashMap.total-erase dec size k prev c.entries old,
          valid.consistent.counted,
        ) in
        (
          record stored { bytes_used = left },
          used,
          rw (sub_size dec k c prev valid.consistent.counted old) refl,
          rw (lt→ltb used (2 ^ 64) (omega (arith, valid.within, valid.small, fits))) refl,
          evict-recount c.lru (record stored { bytes_used = used }) counted,
        )

    Recounts-inserts :
        (prev : Option CacheEntry)
        → HashMap.get dec k c.entries ≡ prev
        → Recounts prev
        → (insert_owned dec now k bytes c ≡ some (recounting_insert now k bytes c))
          × (insert_returning_prev dec now k bytes c
              ≡ some (
                recounting_insert now k bytes c,
                if ltb c.byte_budget (length bytes)
                    then none
                    else Option.map (λ e. e.bytes) (HashMap.get dec k c.entries),
              ))
    unfolding insert_owned insert_returning_prev
    Recounts-inserts prev found (c₁, used, replaces, adds, evicts) =
        let accepted = le→ltb c.byte_budget (length bytes) fits in
        (
          rw (accepted, found, replaces, adds, evicts) refl,
          rw (accepted, found, replaces, adds, evicts) refl,
        )

  -- On a valid cache the two inserts fault on nothing and leave the same cache: the one of an insert
  -- that keeps no count, but stores the entry, puts a new key last into the queue, and takes the oldest
  -- keys of the queue out, no more than needed, while the sizes of what is left, summed up anew, are
  -- above the budget. The second answers the bytes that the key had before, where the new ones are
  -- accepted; bytes above the budget change nothing and are answered with none.
  pub inserts-recounting_insert :
      (now : ℕ) (k : K) (bytes : List ℕ) (c : FileCache K)
      → IsValid dec c
      → (insert_owned dec now k bytes c ≡ some (recounting_insert now k bytes c))
        × (insert_returning_prev dec now k bytes c
            ≡ some (
              recounting_insert now k bytes c,
              if ltb c.byte_budget (length bytes)
                  then none
                  else Option.map (λ e. e.bytes) (HashMap.get dec k c.entries),
            ))
  unfolding insert_owned insert_returning_prev
  inserts-recounting_insert now k bytes c valid =
      elim (Bool-cases (ltb c.byte_budget (length bytes))) [
        | inl over ↦ (rw over refl, rw over refl)
        | inr under ↦
            let fits = ltb→le c.byte_budget (length bytes) under in
            elim (Option-cases (HashMap.get dec k c.entries)) [
              | inl absent ↦
                  Recounts-inserts now k bytes c valid fits none absent
                    (new-Recounts now k bytes c valid fits absent)
              | inr (prev, old) ↦
                  Recounts-inserts now k bytes c valid fits (some prev) old
                    (old-Recounts now k bytes c valid fits prev old)
            ]
      ]
