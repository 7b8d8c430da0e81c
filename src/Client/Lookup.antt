-- ===== src/Client/Lookup.antt =====
-- The two searches of src/client.rs, `get_client` and `client_at`.
use lan_mouse_pro.Common.{
  ap, ℕ, ◌≡◌, refl, sym, ◌∙◌, inl, inr, arith, Bool, true, false, ◌&&◌, Bool-cases, Option, none,
  some, List, [], ◌∷◌,
}
use lan_mouse_pro.Client.Slab.{Slab, Holds}
use lan_mouse_pro.Client.Manager.{Entry, find_key, contains, get_client, client_at}
use lan_mouse_pro.Client.Types.{
  SocketAddr, BarrierKey, to_ipc_pos, to_capture_pos, IpAddr, IpAddr-discrete,
  to_ipc_pos-to_capture_pos, to_capture_pos-to_ipc_pos, Position-discrete, text-discrete,
}
use mathlib.Core.Logic.{ite, if_pos, if_neg}
use mathlib.Core.Bool.{true≢false}
use mathlib.Core.Option.{some-injective}

-- The answer of a search for a client: one that satisfies P, and nothing where no client does.
unfoldable pub IsFound : (slab : Slab Entry) → (Entry → Type 0) → slab.S → Option ℕ → Type 0
IsFound slab P cm (some handle) = (e : Entry) × ((slab.get handle cm ≡ some e) × P e)
IsFound slab P cm none = (handle : ℕ) (e : Entry) → slab.get handle cm ≡ some e → ¬ (P e)

&&-both : (a b : Bool) → (a && b) ≡ true → (a ≡ true) × (b ≡ true)
&&-both true b h = (refl, h)
&&-both false b h = absurd (true≢false (sym h))

&&-true : {a b : Bool} → a ≡ true → b ≡ true → (a && b) ≡ true
&&-true h k = rw (h, k) refl

decided : {P : Type 0} (d : Dec P) → ite d true false ≡ true → P
decided (yes p) h = p
decided (no p) h = absurd (true≢false (sym h))

find_key-some :
    (test : Entry → Bool) (es : List (ℕ × Entry)) (handle : ℕ)
    → find_key test es ≡ some handle
    → (e : Entry) × (Holds (handle, e) es × (test e ≡ true))
unfolding find_key
find_key-some test [] handle h = ground arith
find_key-some test (x ∷ xs) handle h = elim (Bool-cases (test x.1)) [
  | inl passes ↦
      (x.1, (inl (ap (λ k. (k, x.1)) (some-injective x.0 handle (ground arith))), passes))
  | inr fails ↦
      let later = find_key-some test xs handle (ground arith) in
      (later.0, (inr later.1.0, later.1.1))
]

find_key-none :
    (test : Entry → Bool) (es : List (ℕ × Entry))
    → find_key test es ≡ none
    → (e : ℕ × Entry) → Holds e es
    → test e.1 ≡ false
unfolding find_key
find_key-none test [] h e here = absurd here
find_key-none test (x ∷ xs) h e (inl same) = elim (Bool-cases (test x.1)) [
  | inl passes ↦ ground arith
  | inr fails ↦ rw (sym same) fails
]
find_key-none test (x ∷ xs) h e (inr later) = find_key-none test xs (ground arith) e later

find_key-IsFound :
    (slab : Slab Entry) (test : Entry → Bool) (P : Entry → Type 0)
    (sound : (e : Entry) → test e ≡ true → P e) (complete : (e : Entry) → P e → test e ≡ true)
    (cm : slab.S) (r : Option ℕ)
    → find_key test (slab.iter cm) ≡ r
    → IsFound slab P cm r
unfolding IsFound
find_key-IsFound slab test P sound complete cm none h = λ handle e here p. true≢false (
    sym (complete e p)
    ∙ find_key-none test (slab.iter cm) h (handle, e) (slab.iter_complete handle e cm here))
find_key-IsFound slab test P sound complete cm (some handle) h =
    let hit = find_key-some test (slab.iter cm) handle h in
    (hit.0, (slab.iter_sound cm (handle, hit.0) hit.1.0, sound hit.0 hit.1.1))

pub contains-Holds : (ip : IpAddr) (ips : List IpAddr) → contains ip ips ≡ true → Holds ip ips
unfolding contains
contains-Holds ip [] h = ground arith
contains-Holds ip (x ∷ xs) h = elim (IpAddr-discrete x ip) [
  | yes p ↦ inl p
  | no p ↦ inr (contains-Holds ip xs (rw (if_neg (IpAddr-discrete x ip) p) at h))
]

pub Holds-contains : (ip : IpAddr) (ips : List IpAddr) → Holds ip ips → contains ip ips ≡ true
unfolding contains
Holds-contains ip [] h = absurd h
Holds-contains ip (x ∷ xs) (inl p) = if_pos (IpAddr-discrete x ip) p _ _
Holds-contains ip (x ∷ xs) (inr h) = elim (IpAddr-discrete x ip) [
  | yes p ↦ if_pos (IpAddr-discrete x ip) p _ _
  | no p ↦ rw (if_neg (IpAddr-discrete x ip) p) (Holds-contains ip xs h)
]

-- The client is active, and the address is among its ips.
abbrev pub IsPeer : SocketAddr → Entry → Type 0
IsPeer addr e = (e.1.active ≡ true) × Holds addr.ip e.1.ips

-- The client is active, on the side of the key and bound to the key's monitor.
abbrev pub IsAt : BarrierKey → Entry → Type 0
IsAt key e =
    (e.1.active ≡ true) × ((to_capture_pos e.0.pos ≡ key.pos) × (e.0.monitor ≡ key.monitor))

-- The search by address answers a client that is active and has the address among its ips, and
-- nothing only where there is no such client.
get_client-IsFound :
    (slab : Slab Entry) (addr : SocketAddr) (cm : slab.S)
    → IsFound slab (IsPeer addr) cm (get_client slab addr cm)
unfolding get_client
get_client-IsFound slab addr cm =
    find_key-IsFound slab _ (IsPeer addr)
      (λ e h. let both = &&-both _ _ h in (both.0, contains-Holds addr.ip e.1.ips both.1))
      (λ e p. &&-true p.0 (Holds-contains addr.ip e.1.ips p.1)) cm _ refl

-- The search by barrier answers a client that is active on that side and bound to that monitor, and
-- nothing only where there is no such client: the key's offset and span are left out of account.
pub client_at-IsFound :
    (slab : Slab Entry) (key : BarrierKey) (cm : slab.S)
    → IsFound slab (IsAt key) cm (client_at slab key cm)
unfolding client_at
client_at-IsFound slab key cm =
    find_key-IsFound slab _ (IsAt key)
      (λ e h.
        let outer = &&-both _ _ h in
        let both = &&-both _ _ outer.1 in
        (
          outer.0,
          (
            ap to_capture_pos (decided (Position-discrete e.0.pos (to_ipc_pos key.pos)) both.0)
                ∙ to_capture_pos-to_ipc_pos key.pos,
            decided (text-discrete e.0.monitor key.monitor) both.1,
          ),
        ))
      (λ e p. &&-true p.0 (
        &&-true
          (if_pos (Position-discrete e.0.pos (to_ipc_pos key.pos))
            (sym (to_ipc_pos-to_capture_pos e.0.pos) ∙ ap to_ipc_pos p.1.0) true false)
          (if_pos (text-discrete e.0.monitor key.monitor) p.1.1 true false)))
      cm _ refl
