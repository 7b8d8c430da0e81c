-- ===== src/Cache/Evict.antt =====
-- The eviction loop of `ClipboardCache::insert`, and the keys that it takes from the queue.
use lan_mouse_pro.Common.{
  ◌-◌, ◌≤◌, ◌≡◌, ◌≢◌, refl, sym, ap, ◌∙◌, subst, ◌⊎◌, inl, inr, arith, ltb, none, some, List, [],
  ◌∷◌, ◌++◌, Bool-cases, Option-cases, ltb→le, le→ltb,
}
use lan_mouse_pro.Cache.{ClipboardCache, CacheEntry, size, sub_usize, drop_entry, evict}
use lan_mouse_pro.HashMap
use lan_mouse_pro.HashMap.{Distinct, total}

abbrev pub In : {K : Type 0} → K → List K → Type 0
In q [] = ⊥
In q (x ∷ xs) = (x ≡ q) ⊎ In q xs

module _ {K : Type 0} (dec : Discrete K) where
  dec_in : (q : K) (xs : List K) → Dec (In q xs)
  dec_in q [] = no (λ h. h)
  dec_in q (x ∷ xs) = elim (dec x q) [
    | yes p ↦ yes (inl p)
    | no p ↦ elim (dec_in q xs) [
      | yes later ↦ yes (inr later)
      | no never ↦ no (λ h. elim h [ inl e ↦ p e | inr later ↦ never later ])
    ]
  ]

  -- The count is the sum of the sizes, and every key is in the queue.
  pub record IsConsistent (lru : List K) (c : ClipboardCache K) : Type 0 where
    pub distinct : Distinct dec c.entries
    pub counted : c.bytes_used ≡ total dec size c.entries
    pub tracked : (q : K) (e : CacheEntry) → HashMap.get dec q c.entries ≡ some e → In q lru

  -- `c'` is `c` without the key `k`.
  pub record IsDropped (k : K) (c c' : ClipboardCache K) : Type 0 where
    pub distinct : Distinct dec c'.entries
    pub counted : c'.bytes_used ≡ total dec size c'.entries
    pub gone : HashMap.get dec k c'.entries ≡ none
    pub kept : (q : K) → k ≢ q → HashMap.get dec q c'.entries ≡ HashMap.get dec q c.entries
    pub less : c'.bytes_used ≤ c.bytes_used
    pub budget : c'.byte_budget ≡ c.byte_budget
    pub ttl : c'.ttl ≡ c.ttl
    pub lru : c'.lru ≡ c.lru

  pub sub_size :
      (k : K) (c : ClipboardCache K) (e : CacheEntry)
      → c.bytes_used ≡ total dec size c.entries
      → HashMap.get dec k c.entries ≡ some e
      → sub_usize c.bytes_used (size e) ≡ some (c.bytes_used - size e)
  unfolding sub_usize
  sub_size k c e counted found = rw (
      le→ltb c.bytes_used (size e)
        (omega (arith, counted, HashMap.total-erase dec size k e c.entries found)))

  pub erased-IsDropped :
      (k : K) (c : ClipboardCache K) (e : CacheEntry)
      → Distinct dec c.entries
      → c.bytes_used ≡ total dec size c.entries
      → HashMap.get dec k c.entries ≡ some e
      → IsDropped k c
          (record c { entries = HashMap.erase dec k c.entries; bytes_used = c.bytes_used - size e })
  erased-IsDropped k c e distinct counted found = record {
    distinct = HashMap.Distinct-erase dec k c.entries distinct;
    counted = omega (arith, counted, HashMap.total-erase dec size k e c.entries found);
    gone = HashMap.get-erase_self dec k c.entries distinct;
    kept = λ q h. HashMap.get-erase_ne dec k q c.entries h;
    less = omega arith;
    budget = refl;
    ttl = refl;
    lru = refl;
  }

  pub drop_entry-IsDropped :
      (k : K) (c : ClipboardCache K)
      → Distinct dec c.entries
      → c.bytes_used ≡ total dec size c.entries
      → (c' : ClipboardCache K) × (drop_entry dec k c ≡ some c') × IsDropped k c c'
  unfolding drop_entry
  drop_entry-IsDropped k c distinct counted = elim (Option-cases (HashMap.get dec k c.entries)) [
    | inl absent ↦ (
      c,
      rw (absent, drop_entry),
      record {
        distinct = distinct;
        counted = counted;
        gone = absent;
        kept = λ q h. refl;
        less = omega arith;
        budget = refl;
        ttl = refl;
        lru = refl;
      },
    )
    | inr (e, found) ↦ (
      _,
      rw (found, drop_entry, sub_size k c e counted found),
      erased-IsDropped k c e distinct counted found,
    )
  ]

  -- What one run of the loop over the queue `lru` does to the cache `c`.
  pub record IsEvicted (lru : List K) (c c' : ClipboardCache K) : Type 0 where
    pub front : List K
    pub queue : lru ≡ front ++ c'.lru
    pub gone : (q : K) → In q front → HashMap.get dec q c'.entries ≡ none
    pub kept : (q : K) → ¬ In q front → HashMap.get dec q c'.entries ≡ HashMap.get dec q c.entries
    pub consistent : IsConsistent c'.lru c'
    pub fits : c'.bytes_used ≤ c.byte_budget
    pub budget : c'.byte_budget ≡ c.byte_budget
    pub ttl : c'.ttl ≡ c.ttl

  -- A loop that stops at once.
  stopped :
      (lru : List K) (c : ClipboardCache K)
      → IsConsistent lru c
      → c.bytes_used ≤ c.byte_budget
      → IsEvicted lru c (record c { lru = lru })
  stopped lru c v fits = record {
    front = [];
    queue = refl;
    gone = λ q h. absurd h;
    kept = λ q h. refl;
    consistent = record { distinct = v.distinct; counted = v.counted; tracked = v.tracked };
    fits = fits;
    budget = refl;
    ttl = refl;
  }

  -- With no key left in the queue the map is empty.
  exhausted : (c : ClipboardCache K) → IsConsistent [] c → c.bytes_used ≡ 0
  exhausted c v =
      let none_left : c.entries ≡ [] = HashMap.empty_of_absent dec c.entries (λ q.
        elim (Option-cases (HashMap.get dec q c.entries)) [
          | inl h ↦ h
          | inr (e, h) ↦ absurd (v.tracked q e h)
        ]) in
      v.counted ∙ ap (total dec size) none_left ∙ (unfold total in refl)

  -- A consistent cache stays so when the key at the front of the queue is dropped.
  pub dropped-IsConsistent :
      (k : K) (lru : List K) (c c' : ClipboardCache K)
      → IsConsistent (k ∷ lru) c
      → IsDropped k c c'
      → IsConsistent lru c'
  dropped-IsConsistent k lru c c' v d = record {
    distinct = d.distinct;
    counted = d.counted;
    tracked = λ q e found. elim (dec k q) [
      | yes p ↦ cc (ap (λ x. HashMap.get dec x c'.entries) p, d.gone)
      | no p ↦ elim (v.tracked q e (sym (d.kept q p) ∙ found)) [
        | inl p' ↦ absurd (p p')
        | inr later ↦ later
      ]
    ];
  }

  -- One round in front of the rest of the loop.
  round_then :
      (k : K) (lru : List K) (c c₁ c₂ : ClipboardCache K)
      → IsDropped k c c₁
      → IsEvicted lru c₁ c₂
      → IsEvicted (k ∷ lru) c c₂
  round_then k lru c c₁ c₂ d r = record {
    front = k ∷ r.front;
    queue = ap (◌∷◌ k) r.queue;
    gone = λ q h. elim (dec_in q r.front) [
      | yes later ↦ r.gone q later
      | no never ↦ r.kept q never ∙ elim h [
        | inl p ↦ subst (λ x. HashMap.get dec x c₁.entries ≡ none) p d.gone
        | inr later ↦ absurd (never later)
      ]
    ];
    kept = λ q h. r.kept q (λ later. h (inr later)) ∙ d.kept q (λ p. h (inl p));
    consistent = r.consistent;
    fits = omega (arith, r.fits, d.budget);
    budget = r.budget ∙ d.budget;
    ttl = r.ttl ∙ d.ttl;
  }

  -- The loop succeeds on a consistent cache, whatever its size.
  pub evict-IsEvicted :
      (lru : List K) (c : ClipboardCache K)
      → IsConsistent lru c
      → (c' : ClipboardCache K) × (evict dec lru c ≡ some c') × IsEvicted lru c c'
  unfolding evict
  evict-IsEvicted [] c v =
      (record c { lru = [] }, refl, stopped [] c v (omega (arith, exhausted c v)))
  evict-IsEvicted (k ∷ lru) c v = elim (Bool-cases (ltb c.byte_budget c.bytes_used)) [
    | inl over ↦
        let (c₁, e₁, d) = drop_entry-IsDropped k c v.distinct v.counted in
        let (c₂, e₂, r) = evict-IsEvicted lru c₁ (dropped-IsConsistent k lru c c₁ v d) in
        (c₂, rw (over, evict, e₁, e₂), round_then k lru c c₁ c₂ d r)
    | inr under ↦
        (_, rw (under, evict), stopped (k ∷ lru) c v (ltb→le c.byte_budget c.bytes_used under))
  ]
