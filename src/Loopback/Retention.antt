-- ===== src/Loopback/Retention.antt =====
-- src/service.rs, `LruFingerprints`: how long a fingerprint is known, and how many are kept.
use lan_mouse_pro.Common.{
  ℕ, suc, ◌+◌, ◌-◌, ◌≤◌, ◌<◌, ◌≡◌, refl, sym, ap, ◌⊎◌, inl, inr, length-append, subst, arith, true,
  false, leb, leb→le, lt→leb, leb-false→lt, Bool-cases, List, [], ◌∷◌, ◌++◌, length, drop,
}
use lan_mouse_pro.Loopback.{
  LruFingerprints, expire, any_sha, contains_fp, push, mark_local_write, LoopbackCall,
  loopback_calls, sha-discrete,
}
use mathlib.Core.Logic.{if_pos, if_neg}

abbrev Items : Type 0
Items = List (ℕ × List ℕ)

-- The item stands in the queue, with at most d items behind it.
abbrev pub Within : ℕ × List ℕ → ℕ → Items → Type 0
Within e d [] = ⊥
Within e d (x ∷ xs) = ((x ≡ e) × (length xs ≤ d)) ⊎ Within e d xs

Within-expire :
    (now ttl d : ℕ) (e : ℕ × List ℕ) (es : Items)
    → now - e.0 < ttl
    → Within e d es
    → Within e d (expire now ttl es)
unfolding expire
Within-expire now ttl d e [] young h = absurd h
Within-expire now ttl d e (x ∷ xs) young (inl h) =
    let kept : leb ttl (now - x.0) ≡ false =
      lt→leb _ _ (subst (λ y. now - y.0 < ttl) (sym h.0) young) in
    rw kept (inl h)
Within-expire now ttl d e (x ∷ xs) young (inr h) = elim (Bool-cases (leb ttl (now - x.0))) [
  | inl old ↦ rw old (Within-expire now ttl d e xs young h)
  | inr kept ↦ rw kept (inr h)
]

Within-append :
    (d : ℕ) (e x : ℕ × List ℕ) (es : Items) → Within e d es → Within e (suc d) (es ++ (x ∷ []))
Within-append d e x [] h = absurd h
Within-append d e x (y ∷ ys) (inl h) =
    inl (h.0, (let more = length-append ys (x ∷ []) in let few = h.1 in omega arith))
Within-append d e x (y ∷ ys) (inr h) = inr (Within-append d e x ys h)

Within-any : (d : ℕ) (e : ℕ × List ℕ) (es : Items) → Within e d es → any_sha e.1 es ≡ true
unfolding any_sha
Within-any d e [] h = absurd h
Within-any d e (x ∷ xs) (inl h) = if_pos (sha-discrete x.1 e.1) (ap (λ y. y.1) h.0) _ _
Within-any d e (x ∷ xs) (inr h) = elim (sha-discrete x.1 e.1) [
  | yes p ↦ if_pos (sha-discrete x.1 e.1) p _ _
  | no p ↦ rw (if_neg (sha-discrete x.1 e.1) p) (Within-any d e xs h)
]

-- A full queue drops its first item, which is not one with so few behind it.
Within-drop :
    (d : ℕ) (e : ℕ × List ℕ) (es : Items)
    → suc d < length es
    → Within e d es
    → Within e d (drop 1 es)
Within-drop d e [] full h = absurd h
Within-drop d e (x ∷ xs) full (inl h) = absurd (let few = h.1 in omega arith)
Within-drop d e (x ∷ xs) full (inr h) = h

pub Within-push :
    (now d : ℕ) (fp : List ℕ) (e : ℕ × List ℕ) (lru : LruFingerprints)
    → suc d < lru.capacity
    → Within e d lru.items
    → Within e (suc d) (push now fp lru).items
unfolding push
Within-push now d fp e lru room h = elim (Bool-cases (leb lru.capacity (length lru.items))) [
  | inl full ↦ rw full (
      Within-append d e (now, fp) _
        (Within-drop d e lru.items (let much = leb→le _ _ full in omega arith) h))
  | inr free ↦ rw free (Within-append d e (now, fp) _ h)
]

pub last-Within : (es : Items) (e : ℕ × List ℕ) → Within e 0 (es ++ (e ∷ []))
last-Within [] e = inl (refl, omega arith)
last-Within (x ∷ xs) e = inr (last-Within xs e)

Within-new :
    (now : ℕ) (fp : List ℕ) (lru : LruFingerprints) → Within (now, fp) 0 (push now fp lru).items
unfolding push
Within-new now fp lru = last-Within _ (now, fp)

-- The calls come while the mark is young: less than `ttl` after it.
abbrev pub AreYoung : ℕ → ℕ → List LoopbackCall → Type 0
AreYoung marked ttl [] = Unit
AreYoung marked ttl (LoopbackCall.mark now fp ∷ cs) = AreYoung marked ttl cs
AreYoung marked ttl (LoopbackCall.ask now fp ∷ cs) = (now - marked < ttl) × AreYoung marked ttl cs

abbrev pub marks : List LoopbackCall → ℕ
marks [] = 0
marks (LoopbackCall.mark now fp ∷ cs) = suc (marks cs)
marks (LoopbackCall.ask now fp ∷ cs) = marks cs

-- The item is still known after calls that are few enough and early enough.
Within-calls :
    (marked d : ℕ) (fp : List ℕ) (cs : List LoopbackCall) (lru : LruFingerprints)
    → AreYoung marked lru.ttl cs
    → d + marks cs < lru.capacity
    → Within (marked, fp) d lru.items
    → Within (marked, fp) (d + marks cs) (loopback_calls cs lru).items
      × ((loopback_calls cs lru).ttl ≡ lru.ttl)
unfolding loopback_calls mark_local_write contains_fp push
Within-calls marked d fp [] lru young room h =
    (subst (λ n. Within (marked, fp) n lru.items) (omega arith) h, refl)
Within-calls marked d fp (LoopbackCall.mark now sha ∷ cs) lru young room h =
    let rest =
      Within-calls marked (suc d) fp cs (push now sha lru) young (omega arith)
        (Within-push now d sha (marked, fp) lru (omega arith) h) in
    (
      subst (λ n. Within (marked, fp) n (loopback_calls cs (push now sha lru)).items) (omega arith)
          rest.0,
      rest.1,
    )
Within-calls marked d fp (LoopbackCall.ask now sha ∷ cs) lru young room h =
    Within-calls marked d fp cs (contains_fp now sha lru).0 young.1 room
      (Within-expire now lru.ttl d (marked, fp) lru.items young.0 h)

-- A fingerprint that was marked is known for as long as its time to live runs and fewer than
-- `capacity` others were marked since, whatever was asked in between.
pub mark_local_write-contains :
    (marked now : ℕ) (fp : List ℕ) (cs : List LoopbackCall) (lru : LruFingerprints)
    → AreYoung marked lru.ttl cs
    → marks cs < lru.capacity
    → now - marked < lru.ttl
    → (contains_fp now fp (loopback_calls cs (mark_local_write marked fp lru))).1 ≡ true
unfolding contains_fp mark_local_write push
mark_local_write-contains marked now fp cs lru young room early =
    let kept =
      Within-calls marked 0 fp cs (push marked fp lru) young (omega arith)
        (Within-new marked fp lru) in
    Within-any _ (marked, fp) _
      (Within-expire now _ _ (marked, fp) _ (subst (λ t. now - marked < t) (sym kept.1) early)
        kept.0)

length-expire : (now ttl : ℕ) (es : Items) → length (expire now ttl es) ≤ length es
unfolding expire
length-expire now ttl [] = omega arith
length-expire now ttl (e ∷ es) = ground (arith, length-expire now ttl es)

length-drop_one : (es : Items) (n : ℕ) → 0 < n → length es ≤ n → length (drop 1 es) + 1 ≤ n
length-drop_one [] n some_room h = omega arith
length-drop_one (e ∷ es) n some_room h = omega arith

push-bounded :
    (now : ℕ) (fp : List ℕ) (lru : LruFingerprints)
    → 0 < lru.capacity
    → length lru.items ≤ lru.capacity
    → length (push now fp lru).items ≤ lru.capacity
unfolding push
push-bounded now fp lru room h = elim (Bool-cases (leb lru.capacity (length lru.items))) [
  | inl full ↦
      rw (full, length-append (drop 1 lru.items) ((now, fp) ∷ []))
        (length-drop_one lru.items lru.capacity room h)
  | inr free ↦
      rw (free, length-append lru.items ((now, fp) ∷ []))
        (let few = leb-false→lt _ _ free in omega arith)
]

-- A queue with room for one fingerprint at least never holds more of them than its capacity.
pub loopback_calls-bounded :
    (cs : List LoopbackCall) (lru : LruFingerprints)
    → 0 < lru.capacity
    → length lru.items ≤ lru.capacity
    → length (loopback_calls cs lru).items ≤ lru.capacity
unfolding loopback_calls mark_local_write contains_fp push
loopback_calls-bounded [] lru room h = h
loopback_calls-bounded (LoopbackCall.mark now fp ∷ cs) lru room h =
    loopback_calls-bounded cs (push now fp lru) room (push-bounded now fp lru room h)
loopback_calls-bounded (LoopbackCall.ask now fp ∷ cs) lru room h =
    loopback_calls-bounded cs (contains_fp now fp lru).0 room
      (let fewer = length-expire now lru.ttl lru.items in omega arith)
