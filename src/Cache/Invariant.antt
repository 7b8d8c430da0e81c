-- ===== src/Cache/Invariant.antt =====
-- When a `ClipboardCache` is valid: its byte count, its queue and its budget.
use lan_mouse_pro.Common.{
  ℕ, ◌+◌, ◌-◌, ◌^◌, ◌≤◌, ◌<◌, ◌≡◌, refl, sym, ap, ◌∙◌, subst, inl, inr, arith, Option, none, some,
  List, [], ◌∷◌, ◌++◌, length, Option-cases, le→ltb, lt→ltb,
}
use lan_mouse_pro.Cache.{
  ClipboardCache, CacheEntry, size, add_usize, replaced, insert, with_byte_budget_and_ttl,
}
use lan_mouse_pro.Cache.Evict.{In, IsConsistent, IsDropped, IsEvicted, sub_size, evict-IsEvicted}
use lan_mouse_pro.HashMap
use lan_mouse_pro.HashMap.{Distinct, total}
use mathlib.Core.Option

In-append_left : {K : Type 0} (q : K) (xs ys : List K) → In q xs → In q (xs ++ ys)
In-append_left q [] ys h = absurd h
In-append_left q (x ∷ xs) ys h = elim h [
  | inl e ↦ inl e
  | inr later ↦ inr (In-append_left q xs ys later)
]

In-append_last : {K : Type 0} (q : K) (xs : List K) → In q (xs ++ (q ∷ []))
In-append_last q [] = inl refl
In-append_last q (x ∷ xs) = inr (In-append_last q xs)

module _ {K : Type 0} (dec : Discrete K) where
  -- The budget is far below the range of `usize`, as the program's two budgets are.
  pub record IsValid (c : ClipboardCache K) : Type 0 where
    pub consistent : IsConsistent dec c.lru c
    pub within : c.bytes_used ≤ c.byte_budget
    pub small : c.byte_budget < 2 ^ 63

  -- An empty cache is valid.
  pub empty-IsValid :
      (byte_budget ttl : ℕ)
      → byte_budget < 2 ^ 63
      → IsValid (with_byte_budget_and_ttl byte_budget ttl)
  unfolding with_byte_budget_and_ttl total HashMap.get
  empty-IsValid byte_budget ttl h = record {
    consistent = record { distinct = tt; counted = refl; tracked = λ q e f. cc };
    within = omega arith;
    small = h;
  }

  pub dropped-IsValid :
      (k : K) (c c' : ClipboardCache K) → IsValid c → IsDropped dec k c c' → IsValid c'
  dropped-IsValid k c c' v d = record {
    consistent = record {
      distinct = d.distinct;
      counted = d.counted;
      tracked = λ q e found. elim (dec k q) [
        | yes p ↦ cc (ap (λ x. HashMap.get dec x c'.entries) p, d.gone)
        | no p ↦ rw d.lru (v.consistent.tracked q e (sym (d.kept q p) ∙ found))
      ];
    };
    within = omega (arith, d.less, d.budget, v.within);
    small = omega (arith, d.budget, v.small);
  }

  -- The cache right before the eviction loop of an accepted insert.
  pub record IsFilled (now : ℕ) (k : K) (bytes : List ℕ) (c c₁ : ClipboardCache K) : Type 0 where
    pub consistent : IsConsistent dec c₁.lru c₁
    pub found :
        (q : K)
        → HashMap.get dec q c₁.entries
          ≡ HashMap.get dec q
              (HashMap.put dec k (record { bytes = bytes; inserted_at = now }) c.entries)
    pub budget : c₁.byte_budget ≡ c.byte_budget
    pub ttl : c₁.ttl ≡ c.ttl

  module _ (now : ℕ) (k : K) (bytes : List ℕ) (c : ClipboardCache K) where
    abbrev pub entry : CacheEntry
    entry = record { bytes = bytes; inserted_at = now }

    -- `c` with the new entry in its map.
    abbrev stored : ClipboardCache K
    stored = record c { entries = HashMap.put dec k entry c.entries }

    abbrev Fills : Option CacheEntry → Type 0
    Fills prev =
        (c₁ : ClipboardCache K) × (used : ℕ) × (replaced dec k prev stored ≡ some c₁)
        × (add_usize c₁.bytes_used (length bytes) ≡ some used)
        × IsFilled now k bytes c (record c₁ { bytes_used = used })

    stored_tracked :
        (lru : List K)
        → IsValid c
        → ((q : K) → In q c.lru → In q lru)
        → In k lru
        → (q : K) (e : CacheEntry) → HashMap.get dec q (HashMap.put dec k entry c.entries) ≡ some e
        → In q lru
    stored_tracked lru v widen here q e found = elim (dec k q) [
      | yes p ↦ subst (λ x. In x lru) p here
      | no p ↦
          widen q
            (v.consistent.tracked q e (sym (HashMap.get-put_ne dec k q entry c.entries p) ∙ found))
    ]

    fill_old :
        (prev : CacheEntry)
        → IsValid c
        → length bytes ≤ c.byte_budget
        → HashMap.get dec k c.entries ≡ some prev
        → Fills (some prev)
    unfolding replaced add_usize
    fill_old prev v fits old =
        let counts = HashMap.total-put_old dec size k entry prev c.entries old in
        let left = c.bytes_used - size prev in
        let part = HashMap.total-erase dec size k prev c.entries old in
        (
          record stored { bytes_used = left },
          left + length bytes,
          rw (sub_size dec k c prev v.consistent.counted old),
          rw (lt→ltb (left + length bytes) (2 ^ 64) (omega (arith, v.within, v.small, fits))),
          record {
            consistent = record {
              distinct = HashMap.Distinct-put dec k entry c.entries v.consistent.distinct;
              counted = omega (arith, counts, v.consistent.counted, part);
              tracked = stored_tracked c.lru v (λ q h. h) (v.consistent.tracked k prev old);
            };
            found = λ q. refl;
            budget = refl;
            ttl = refl;
          },
        )

    -- The cache right before the loop, where the key is new.
    abbrev pub filled_new : ClipboardCache K
    filled_new = record c {
      entries = HashMap.put dec k entry c.entries;
      lru = c.lru ++ (k ∷ []);
      bytes_used = c.bytes_used + length bytes;
    }

    pub filled_new-IsFilled :
        IsValid c → HashMap.get dec k c.entries ≡ none → IsFilled now k bytes c filled_new
    filled_new-IsFilled v absent = record {
      consistent = record {
        distinct = HashMap.Distinct-put dec k entry c.entries v.consistent.distinct;
        counted =
            omega (
              arith,
              HashMap.total-put_new dec size k entry c.entries absent,
              v.consistent.counted,
            );
        tracked =
            stored_tracked (c.lru ++ (k ∷ [])) v (λ q h. In-append_left q c.lru (k ∷ []) h)
              (In-append_last k c.lru);
      };
      found = λ q. refl;
      budget = refl;
      ttl = refl;
    }

    pub fits_usize :
        IsValid c
        → length bytes ≤ c.byte_budget
        → add_usize c.bytes_used (length bytes) ≡ some (c.bytes_used + length bytes)
    unfolding add_usize
    fits_usize v fits =
        rw (lt→ltb (c.bytes_used + length bytes) (2 ^ 64) (omega (arith, v.within, v.small, fits)))

    fill_new :
        IsValid c → length bytes ≤ c.byte_budget → HashMap.get dec k c.entries ≡ none → Fills none
    unfolding replaced
    fill_new v fits absent = (
      record stored { lru = c.lru ++ (k ∷ []) },
      c.bytes_used + length bytes,
      refl,
      fits_usize v fits,
      filled_new-IsFilled v absent,
    )

    -- What an accepted insert does: the filled cache, and the loop over its queue.
    pub record IsInserted (c' : ClipboardCache K) : Type 0 where
      pub filled : ClipboardCache K
      pub fills : IsFilled now k bytes c filled
      pub evicts : IsEvicted dec filled.lru filled c'

    abbrev pub Accepts : Option CacheEntry → Type 0
    Accepts prev =
        (c' : ClipboardCache K) × (insert dec now k bytes c
          ≡ some (c', Option.map (λ e. e.bytes) prev))
        × IsInserted c'

    insert-Fills :
        (prev : Option CacheEntry)
        → length bytes ≤ c.byte_budget
        → HashMap.get dec k c.entries ≡ prev
        → Fills prev
        → Accepts prev
    unfolding insert
    insert-Fills prev fits found (c₁, used, e₁, e₂, f) =
        let (c₂, e₃, r) =
          evict-IsEvicted dec c₁.lru (record c₁ { bytes_used = used }) f.consistent in
        (
          c₂,
          rw (le→ltb c.byte_budget (length bytes) fits, found, e₁, e₂, e₃),
          record { filled = record c₁ { bytes_used = used }; fills = f; evicts = r },
        )

    -- On a valid cache an insert that fits the budget succeeds and returns the previous bytes.
    pub insert-IsInserted :
        IsValid c → length bytes ≤ c.byte_budget → Accepts (HashMap.get dec k c.entries)
    insert-IsInserted v fits = elim (Option-cases (HashMap.get dec k c.entries)) [
      | inl absent ↦ rw absent (insert-Fills none fits absent (fill_new v fits absent))
      | inr (prev, old) ↦ rw old (insert-Fills (some prev) fits old (fill_old prev v fits old))
    ]

    pub inserted-IsValid : (c' : ClipboardCache K) → IsValid c → IsInserted c' → IsValid c'
    inserted-IsValid c' v i = record {
      consistent = i.evicts.consistent;
      within = omega (arith, i.evicts.fits, i.evicts.budget);
      small = omega (arith, i.evicts.budget, i.fills.budget, v.small);
    }
