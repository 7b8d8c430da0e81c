-- ===== src/Loopback.antt =====
-- The fingerprints of what this side wrote to the clipboard lately, `LruFingerprints` of
-- src/service.rs: by them the service knows its own writes when the clipboard reports them. Time is
-- in seconds; `now.duration_since(t)` is 0 for a later `t`.
pub mod Retention
use lan_mouse_pro.Common.{
  ℕ, ◌-◌, Bool, true, false, ltb, leb, if◌then◌else◌, List, [], ◌∷◌, ◌++◌, length, drop,
}
use mathlib.Core.Logic.{ite}
use native.Mathlib.Decide.{ℕ_discrete}

pub record LruFingerprints : Type 0 where
  pub capacity : ℕ
  pub ttl : ℕ
  pub items : List (ℕ × List ℕ)

unfoldable pub sha-discrete : Discrete (List ℕ)
sha-discrete = hlevel ℕ_discrete

abbrev pub default_capacity : ℕ
default_capacity = 128

abbrev pub default_ttl : ℕ
default_ttl = 60

unfoldable pub with_capacity_and_ttl : ℕ → ℕ → LruFingerprints
with_capacity_and_ttl capacity ttl = record { capacity = capacity; ttl = ttl; items = [] }

unfoldable pub new_fingerprints : LruFingerprints
unfolding with_capacity_and_ttl
new_fingerprints = with_capacity_and_ttl default_capacity default_ttl

-- `while let Some((ts, _)) = self.items.front()`.
unfoldable pub expire : ℕ → ℕ → List (ℕ × List ℕ) → List (ℕ × List ℕ)
expire now ttl [] = []
expire now ttl (e ∷ es) =
    let rest = expire now ttl es in if leb ttl (now - e.0) then rest else e ∷ es

-- `any(|(_, sha)| sha == fp)`.
unfoldable pub any_sha : List ℕ → List (ℕ × List ℕ) → Bool
any_sha fp [] = false
any_sha fp (e ∷ es) = ite (sha-discrete e.1 fp) true (any_sha fp es)

unfoldable pub contains_fp : ℕ → List ℕ → LruFingerprints → LruFingerprints × Bool
unfolding expire any_sha
contains_fp now fp lru =
    let items = expire now lru.ttl lru.items in (record lru { items = items }, any_sha fp items)

unfoldable pub push : ℕ → List ℕ → LruFingerprints → LruFingerprints
push now fp lru =
    let kept = if leb lru.capacity (length lru.items) then drop 1 lru.items else lru.items in
    record lru { items = kept ++ ((now, fp) ∷ []) }

-- `push` under the name that the writers of the clipboard use.
unfoldable pub mark_local_write : ℕ → List ℕ → LruFingerprints → LruFingerprints
unfolding push
mark_local_write now fp lru = push now fp lru

pub data LoopbackCall : Type 0 where
  mark : (now : ℕ) → List ℕ → LoopbackCall
  ask : (now : ℕ) → List ℕ → LoopbackCall

unfoldable pub loopback_calls : List LoopbackCall → LruFingerprints → LruFingerprints
unfolding mark_local_write contains_fp
loopback_calls [] lru = lru
loopback_calls (LoopbackCall.mark now fp ∷ cs) lru = loopback_calls cs (mark_local_write now fp lru)
loopback_calls (LoopbackCall.ask now fp ∷ cs) lru = loopback_calls cs (contains_fp now fp lru).0
