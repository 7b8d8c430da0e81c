-- ===== src/Cache/Operations.antt =====
-- What the operations of `ClipboardCache` promise: a view of the cache by key and time.
use lan_mouse_pro.Common.{
  ℕ, ◌-◌, ◌≤◌, ◌<◌, ◌≡◌, ◌≢◌, refl, sym, ap, subst, inl, inr, arith, Bool, true, false, ltb, Option,
  none, some, List, length, Bool-cases, Option-cases, ltb→le, if◌then◌else◌,
}
use lan_mouse_pro.Cache.{ClipboardCache, CacheEntry, size, insert, lookup, remove}
use lan_mouse_pro.Cache.Evict.{IsDropped, sub_size, erased-IsDropped, drop_entry-IsDropped}
use lan_mouse_pro.Cache.Invariant.{IsValid, insert-IsInserted, inserted-IsValid, dropped-IsValid}
use lan_mouse_pro.HashMap
use mathlib.Core.Option

-- The bytes of an entry that has not expired.
unfoldable pub fresh : ℕ → ℕ → Option CacheEntry → Option (List ℕ)
fresh now ttl none = none
fresh now ttl (some e) = if ltb (now - e.inserted_at) ttl then some e.bytes else none

unfoldable pub is_some {ℓ} : {A : Type ℓ} → Option A → Bool
is_some none = false
is_some (some a) = true

-- An entry that has expired stays expired.
fresh_later :
    (now later ttl : ℕ) (o : Option CacheEntry)
    → now ≤ later
    → fresh now ttl o ≡ none
    → fresh later ttl o ≡ none
unfolding fresh
fresh_later now later ttl none h e = refl
fresh_later now later ttl (some entry) h e = ground arith

module _ {K : Type 0} (dec : Discrete K) where
  -- What a reader at time `now` gets for the key `q`.
  unfoldable pub view : ℕ → ClipboardCache K → K → Option (List ℕ)
  unfolding fresh
  view now c q = fresh now c.ttl (HashMap.get dec q c.entries)

  -- On a valid cache an insert never faults and keeps the cache valid, within its budget. It answers
  -- the previous bytes of the key; a payload above the budget changes nothing and answers none.
  pub insert-IsValid :
      (now : ℕ) (k : K) (bytes : List ℕ) (c : ClipboardCache K)
      → IsValid dec c
      → (c' : ClipboardCache K) × (insert dec now k bytes c
          ≡ some (
            c',
            if ltb c.byte_budget (length bytes)
                then none
                else Option.map (λ e. e.bytes) (HashMap.get dec k c.entries),
          ))
        × IsValid dec c'
        × (c.byte_budget < length bytes → c' ≡ c)
  insert-IsValid now k bytes c v = elim (Bool-cases (ltb c.byte_budget (length bytes))) [
    | inl big ↦ (c, unfold insert in rw (big, insert), v, λ h. refl)
    | inr fits ↦
        let (c', e, i) =
          insert-IsInserted dec now k bytes c v (ltb→le c.byte_budget (length bytes) fits) in
        (
          c',
          rw fits e,
          inserted-IsValid dec now k bytes c c' v i,
          λ h. absurd (omega (arith, ltb→le c.byte_budget (length bytes) fits)),
        )
  ]

  -- To drop an expired entry changes nothing that a later reader sees.
  expired_invisible :
      (now : ℕ) (k : K) (c c' : ClipboardCache K) (e : CacheEntry)
      → HashMap.get dec k c.entries ≡ some e
      → ltb (now - e.inserted_at) c.ttl ≡ false
      → IsDropped dec k c c'
      → (later : ℕ) (q : K) → now ≤ later
      → view later c' q ≡ view later c q
  unfolding view fresh
  expired_invisible now k c c' e found old d later q h = elim (dec k q) [
    | yes p ↦
        let stale : view later c k ≡ none =
          rw found (fresh_later now later c.ttl (some e) h (rw old)) in
        subst (λ x. view later c' x ≡ view later c x) p (rw d.gone (sym stale))
    | no p ↦ rw (d.ttl, d.kept q p)
  ]

  -- A lookup answers exactly what the view holds, never faults, keeps the cache valid, and no reader
  -- can tell that it took place, at this time or later: only an expired entry is dropped.
  pub lookup-view :
      (now : ℕ) (k : K) (c : ClipboardCache K)
      → IsValid dec c
      → (c' : ClipboardCache K) × (lookup dec now k c ≡ some (c', view now c k))
        × IsValid dec c'
        × ((later : ℕ) (q : K) → now ≤ later → view later c' q ≡ view later c q)
  unfolding lookup
  lookup-view now k c v = elim (Option-cases (HashMap.get dec k c.entries)) [
    | inl absent ↦ (c, unfold view in rw (absent, lookup), v, λ later q h. refl)
    | inr (e, found) ↦ elim (Bool-cases (ltb (now - e.inserted_at) c.ttl)) [
      | inl young ↦ (c, unfold view in rw (found, lookup, young), v, λ later q h. refl)
      | inr old ↦
          let (c', done, d) =
            drop_entry-IsDropped dec k c v.consistent.distinct v.consistent.counted in
          (
            c',
            unfold view in rw (found, lookup, old, done),
            dropped-IsValid dec k c c' v d,
            expired_invisible now k c c' e found old d,
          )
    ]
  ]

  -- A removal answers whether the key was there, never faults and keeps the cache valid; the key is
  -- gone, and every other key is as before.
  remove-view :
      (k : K) (c : ClipboardCache K)
      → IsValid dec c
      → (c' : ClipboardCache K) × (remove dec k c
          ≡ some (c', is_some (HashMap.get dec k c.entries)))
        × IsValid dec c'
        × ((now : ℕ) → view now c' k ≡ none)
        × ((now : ℕ) (q : K) → k ≢ q → view now c' q ≡ view now c q)
  unfolding view remove
  remove-view k c v = elim (Option-cases (HashMap.get dec k c.entries)) [
    | inl absent ↦ (c, unfold is_some in rw (absent, remove), v, λ now. rw absent, λ now q h. refl)
    | inr (e, found) ↦
        let d = erased-IsDropped dec k c e v.consistent.distinct v.consistent.counted found in
        (
          record c { entries = HashMap.erase dec k c.entries; bytes_used = c.bytes_used - size e },
          unfold is_some in rw (found, remove, sub_size dec k c e v.consistent.counted found),
          dropped-IsValid dec k c _ v d,
          λ now. rw d.gone,
          λ now q h. ap (fresh now c.ttl) (d.kept q h),
        )
  ]
