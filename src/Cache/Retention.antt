-- ===== src/Cache/Retention.antt =====
-- Which payloads an insert into `ClipboardCache` keeps, and which it loses.
use lan_mouse_pro.Common.{
  ℕ, ◌+◌, ◌-◌, ◌≤◌, ◌<◌, ◌≡◌, ◌≢◌, refl, ap, ◌∙◌, subst, inl, inr, arith, ltb, none, some, List, [],
  ◌∷◌, ◌++◌, length, Bool-cases, Option-cases, le→ltb, lt→ltb,
}
use lan_mouse_pro.Cache.{ClipboardCache, CacheEntry, size, evict, insert, drop_entry, ◌>>=◌}
use lan_mouse_pro.Cache.Evict.{
  In, IsConsistent, IsDropped, drop_entry-IsDropped, erased-IsDropped, sub_size,
  dropped-IsConsistent, evict-IsEvicted,
}
use lan_mouse_pro.Cache.Invariant.{IsValid, filled_new, filled_new-IsFilled, fits_usize, entry}
use lan_mouse_pro.Cache.Operations.{fresh, view}
use lan_mouse_pro.HashMap
use lan_mouse_pro.HashMap.{Distinct, total}

module _ {K : Type 0} (dec : Discrete K) where
  total_nil : total dec size [] ≡ 0
  unfolding total
  total_nil = refl

  others :
      (k : K) (c : ClipboardCache K)
      → IsConsistent dec (k ∷ []) c
      → (q : K) → HashMap.get dec q (HashMap.erase dec k c.entries) ≡ none
  others k c v q = elim (dec k q) [
    | yes p ↦
        subst (λ x. HashMap.get dec x (HashMap.erase dec k c.entries) ≡ none) p
          (HashMap.get-erase_self dec k c.entries v.distinct)
    | no p ↦
        HashMap.get-erase_ne dec k q c.entries p
        ∙ elim (Option-cases (HashMap.get dec q c.entries)) [
          | inl h ↦ h
          | inr (e, h) ↦ elim (v.tracked q e h) [
            | inl same ↦ absurd (p same)
            | inr never ↦ absurd never
          ]
        ]
  ]

  -- With one key left in the queue the count is the size of its entry.
  alone :
      (k : K) (c : ClipboardCache K) (e : CacheEntry)
      → IsConsistent dec (k ∷ []) c
      → HashMap.get dec k c.entries ≡ some e
      → c.bytes_used ≡ size e
  alone k c e v found =
      let absent : HashMap.erase dec k c.entries ≡ [] =
        HashMap.empty_of_absent dec (HashMap.erase dec k c.entries) (others k c v) in
      omega (
        arith,
        v.counted,
        HashMap.total-erase dec size k e c.entries found,
        ap (total dec size) absent,
        total_nil,
      )

  -- The key at the end of the queue is not dropped, if it stands there only and fits the budget.
  evict_keeps_last :
      (lru : List K) (k : K) (c : ClipboardCache K) (e : CacheEntry)
      → IsConsistent dec (lru ++ (k ∷ [])) c
      → ¬ In k lru
      → HashMap.get dec k c.entries ≡ some e
      → size e ≤ c.byte_budget
      → (c' : ClipboardCache K) × (evict dec (lru ++ (k ∷ [])) c ≡ some c')
        × (HashMap.get dec k c'.entries ≡ some e)
  unfolding evict
  evict_keeps_last [] k c e v new found fits = (
    record c { lru = k ∷ [] },
    rw (le→ltb c.byte_budget c.bytes_used (omega (arith, alone k c e v found)), evict),
    found,
  )
  evict_keeps_last (x ∷ lru) k c e v new found fits =
      elim (Bool-cases (ltb c.byte_budget c.bytes_used)) [
        | inl over ↦
            let (c₁, e₁, d) = drop_entry-IsDropped dec x c v.distinct v.counted in
            let (c₂, e₂, r) =
              evict_keeps_last lru k c₁ e (dropped-IsConsistent dec x (lru ++ (k ∷ [])) c c₁ v d)
                (λ h. new (inr h)) (d.kept k (λ p. new (inl p)) ∙ found)
                (omega (arith, d.budget)) in
            (c₂, rw (over, evict, e₁, e₂), r)
        | inr under ↦ (record c { lru = x ∷ (lru ++ (k ∷ [])) }, rw (under, evict), found)
      ]

  -- A loop that starts within the budget drops nothing.
  evict_within :
      (lru : List K) (c : ClipboardCache K)
      → c.bytes_used ≤ c.byte_budget
      → evict dec lru c ≡ some (record c { lru = lru })
  unfolding evict
  evict_within [] c h = refl
  evict_within (k ∷ lru) c h = rw (le→ltb c.byte_budget c.bytes_used h, evict)

  evict_over :
      (k : K) (lru : List K) (c c' : ClipboardCache K)
      → c.byte_budget < c.bytes_used
      → drop_entry dec k c ≡ some c'
      → evict dec (k ∷ lru) c ≡ evict dec lru c'
  unfolding evict
  evict_over k lru c c' over dropped = rw (lt→ltb c.byte_budget c.bytes_used over, evict, dropped)

  drop_entry_found :
      (k : K) (c : ClipboardCache K) (e : CacheEntry)
      → c.bytes_used ≡ total dec size c.entries
      → HashMap.get dec k c.entries ≡ some e
      → drop_entry dec k c
        ≡ some (record c {
          entries = HashMap.erase dec k c.entries;
          bytes_used = c.bytes_used - size e;
        })
  unfolding drop_entry
  drop_entry_found k c e counted found = rw (found, drop_entry, sub_size dec k c e counted found)

  evicted_ttl :
      (lru : List K) (c c' : ClipboardCache K)
      → IsConsistent dec lru c
      → evict dec lru c ≡ some c'
      → c'.ttl ≡ c.ttl
  evicted_ttl lru c c' v e =
      let (c₁, e₁, r) = evict-IsEvicted dec lru c v in
      let same : c' ≡ c₁ = cc in ap (λ x. x.ttl) same ∙ r.ttl

  module _ (now : ℕ) (k : K) (bytes : List ℕ) (c : ClipboardCache K) (v : IsValid dec c)
      (fits : length bytes ≤ c.byte_budget) where
    -- A key that is not in the queue is not in the cache.
    absent_of_new : ¬ In k c.lru → HashMap.get dec k c.entries ≡ none
    absent_of_new new = elim (Option-cases (HashMap.get dec k c.entries)) [
      | inl h ↦ h
      | inr (e, h) ↦ absurd (new (v.consistent.tracked k e h))
    ]

    insert_new-evict :
        HashMap.get dec k c.entries ≡ none
        → insert dec now k bytes c
          ≡ (evict dec (c.lru ++ (k ∷ [])) (filled_new dec now k bytes c) >>= λ c'. some (c', none))
    unfolding insert
    insert_new-evict absent =
        rw (le→ltb c.byte_budget (length bytes) fits, absent, fits_usize dec now k bytes c v fits)

    found_new :
        HashMap.get dec k (filled_new dec now k bytes c).entries ≡ some (entry dec now k bytes c)
    found_new = HashMap.get-put_self dec k (entry dec now k bytes c) c.entries

    -- A payload that fits the budget, under a key that the queue does not hold, is kept by its own
    -- insert, whatever had to be evicted for it: it is read back until its time to live is over.
    pub insert_new_retained :
        ¬ In k c.lru
        → (c' : ClipboardCache K) × (insert dec now k bytes c ≡ some (c', none))
          × ((later : ℕ) → later - now < c.ttl → view dec later c' k ≡ some bytes)
    insert_new_retained new =
        let absent = absent_of_new new in
        let f = filled_new-IsFilled dec now k bytes c v absent in
        let (c', e, found) =
          evict_keeps_last c.lru k (filled_new dec now k bytes c) (entry dec now k bytes c)
            f.consistent new found_new fits in
        let r = evicted_ttl (c.lru ++ (k ∷ [])) (filled_new dec now k bytes c) c' f.consistent e in
        (
          c',
          rw (insert_new-evict absent, e),
          λ later young. unfold view fresh in rw (found, r, lt→ltb (later - now) c.ttl young),
        )

    lost_round :
        (rest : List K)
        → c.lru ≡ k ∷ rest
        → HashMap.get dec k c.entries ≡ none
        → c.byte_budget < c.bytes_used + length bytes
        → evict dec (c.lru ++ (k ∷ [])) (filled_new dec now k bytes c)
          ≡ some (record (filled_new dec now k bytes c) {
            entries = HashMap.erase dec k (filled_new dec now k bytes c).entries;
            lru = rest ++ (k ∷ []);
            bytes_used = c.bytes_used + length bytes - length bytes;
          })
    lost_round rest front absent over =
        let full = filled_new dec now k bytes c in
        let new_entry = entry dec now k bytes c in
        let f = filled_new-IsFilled dec now k bytes c v absent in
        let left : ClipboardCache K = record full {
          entries = HashMap.erase dec k full.entries;
          bytes_used = full.bytes_used - length bytes;
        } in
        let removed = drop_entry_found k full new_entry f.consistent.counted found_new in
        ap (λ l. evict dec (l ++ (k ∷ [])) full) front
        ∙ evict_over k (rest ++ (k ∷ [])) full left over removed
        ∙ evict_within (rest ++ (k ∷ [])) left (omega (arith, v.within))

    -- The queue may still hold a key whose entry was removed. Where that stale place is at its front
    -- and the budget overflows, an insert of the same key evicts the very payload that it stores:
    -- it is not found afterwards, and no other key has made room.
    pub insert_stale_lost :
        (rest : List K)
        → c.lru ≡ k ∷ rest
        → HashMap.get dec k c.entries ≡ none
        → c.byte_budget < c.bytes_used + length bytes
        → (c' : ClipboardCache K) × (insert dec now k bytes c ≡ some (c', none))
          × ((later : ℕ) → view dec later c' k ≡ none)
          × ((later : ℕ) (q : K) → k ≢ q → view dec later c' q ≡ view dec later c q)
    insert_stale_lost rest front absent over =
        let f = filled_new-IsFilled dec now k bytes c v absent in
        let full = filled_new dec now k bytes c in
        let new_entry = entry dec now k bytes c in
        let left : ClipboardCache K = record full {
          entries = HashMap.erase dec k full.entries;
          bytes_used = full.bytes_used - length bytes;
        } in
        let d : IsDropped dec k full left =
          erased-IsDropped dec k full new_entry f.consistent.distinct f.consistent.counted
            found_new in
        (
          record left { lru = rest ++ (k ∷ []) },
          rw (insert_new-evict absent, lost_round rest front absent over),
          λ later. unfold view fresh in rw d.gone,
          λ later q h.
              unfold view in
              ap (fresh later c.ttl)
                (d.kept q h ∙ HashMap.get-put_ne dec k q new_entry c.entries h),
        )
