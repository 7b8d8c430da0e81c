-- ===== src/Client/Union.antt =====
-- src/client.rs: what the `ips` of a client are, in terms of the addresses that it was given.
use lan_mouse_pro.Common.{ℕ, ◌≡◌, sym, inl, inr, ◌⊎◌, Bool-cases, some, List, [], ◌∷◌, ◌++◌}
use lan_mouse_pro.Client.Slab.{Slab, Holds}
use lan_mouse_pro.Client.Types.{IpAddr}
use lan_mouse_pro.Client.Manager.{Entry, from_iter, contains}
use lan_mouse_pro.Client.Calls.{Call, calls}
use lan_mouse_pro.Client.Lookup.{contains-Holds}
use lan_mouse_pro.Client.Ips.{calls-AllJoined}

from_iter-Holds : (ip : IpAddr) (ips : List IpAddr) → Holds ip ips → Holds ip (from_iter ips)
unfolding from_iter
from_iter-Holds ip [] h = h
from_iter-Holds ip (x ∷ xs) h = elim (Bool-cases (contains x (from_iter xs))) [
  | inl already ↦ rw already (elim h [
    | inl p ↦ rw (sym p) (contains-Holds x (from_iter xs) already)
    | inr later ↦ from_iter-Holds ip xs later
  ])
  | inr fresh ↦ rw fresh (elim h [ inl p ↦ inl p | inr later ↦ inr (from_iter-Holds ip xs later) ])
]

Holds-from_iter : (ip : IpAddr) (ips : List IpAddr) → Holds ip (from_iter ips) → Holds ip ips
unfolding from_iter
Holds-from_iter ip [] h = h
Holds-from_iter ip (x ∷ xs) h = elim (Bool-cases (contains x (from_iter xs))) [
  | inl already ↦ inr (Holds-from_iter ip xs (rw already at h))
  | inr fresh ↦ elim (rw fresh at h) as (λ _. Holds ip (x ∷ xs)) [
    | inl p ↦ inl p
    | inr later ↦ inr (Holds-from_iter ip xs later)
  ]
]

Holds-append : (ip : IpAddr) (xs ys : List IpAddr) → Holds ip (xs ++ ys) → Holds ip xs ⊎ Holds ip ys
Holds-append ip [] ys h = inr h
Holds-append ip (x ∷ xs) ys (inl p) = inl (inl p)
Holds-append ip (x ∷ xs) ys (inr h) = elim (Holds-append ip xs ys h) [
  | inl here ↦ inl (inr here)
  | inr there ↦ inr there
]

Holds-append_left : (ip : IpAddr) (xs ys : List IpAddr) → Holds ip xs → Holds ip (xs ++ ys)
Holds-append_left ip [] ys h = absurd h
Holds-append_left ip (x ∷ xs) ys (inl p) = inl p
Holds-append_left ip (x ∷ xs) ys (inr h) = inr (Holds-append_left ip xs ys h)

Holds-append_right : (ip : IpAddr) (xs ys : List IpAddr) → Holds ip ys → Holds ip (xs ++ ys)
Holds-append_right ip [] ys h = h
Holds-append_right ip (x ∷ xs) ys h = inr (Holds-append_right ip xs ys h)

-- The ips are the fixed and the DNS ips.
abbrev pub IsUnion : Entry → Type 0
IsUnion e =
    (ip : IpAddr)
    → (Holds ip e.1.ips → Holds ip e.0.fix_ips ⊎ Holds ip e.1.dns_ips)
      × (Holds ip e.0.fix_ips ⊎ Holds ip e.1.dns_ips → Holds ip e.1.ips)

-- Whatever calls the manager has served since it was created, `set_config` and `set_state` inside
-- `add_with_config` alone, an address is among the ips of a client just where it is one of the
-- client's fixed ips or of its DNS ips.
pub calls-IsUnion :
    (slab : Slab Entry) (cs : List Call) (handle : ℕ) (e : Entry)
    → slab.get handle (calls slab cs slab.empty) ≡ some e
    → IsUnion e
calls-IsUnion slab cs handle e here ip = rw (calls-AllJoined slab cs handle e here) (
  (λ h. Holds-append ip e.0.fix_ips e.1.dns_ips (Holds-from_iter ip _ h)),
  (λ h. from_iter-Holds ip _ (elim h [
    | inl fixed ↦ Holds-append_left ip e.0.fix_ips e.1.dns_ips fixed
    | inr dns ↦ Holds-append_right ip e.0.fix_ips e.1.dns_ips dns
  ])),
)
