-- ===== src/Client/Effects.antt =====
-- src/client.rs: what the guarded writes do to a client and to the others.
use lan_mouse_pro.Common.{
  append-nil, if◌then◌else◌, Bool-cases, inl, inr, ℕ, ◌≡◌, ◌≢◌, refl, sym, ap, ◌∙◌, Bool, true,
  false, not, Option, none, some, List, [],
}
use lan_mouse_pro.Client.Slab.{Slab}
use lan_mouse_pro.Client.Types.{ClientConfig, ClientState, text-discrete, Bool-discrete}
use lan_mouse_pro.Client.Manager.{
  Entry, activate_client, deactivate_client, activation, deactivation, set_hostname,
  hostname_change, from_iter, refreshed, set_enable_clipboard_to, clipboard_change,
}
use lan_mouse_pro.Client.View.{
  stepped, answered, stepped-none, stepped-some, get-with_client_self, get-with_client_ne,
  with_client-answered, stepped-none, stepped-some, get-write, Unmoved,
}
use mathlib.Core.Logic.{ite, if_pos, if_neg}

if-true : {A : Type 0} {b : Bool} (x y : A) → b ≡ true → (if b then x else y) ≡ x
if-true x y h = ap (λ t. if t then x else y) h

if-false : {A : Type 0} {b : Bool} (x y : A) → b ≡ false → (if b then x else y) ≡ y
if-false x y h = ap (λ t. if t then x else y) h

activation_lem :
    (c : ClientConfig) (s : ClientState)
    → (stepped activation (some (c, s)) ≡ some (c, record s { active = true }))
      × (answered activation (some (c, s)) ≡ not s.active)
unfolding activation
activation_lem c s = elim (Bool-cases s.active) [
  | inl a ↦
      let q = stepped-none activation (c, s) (rw a refl) in
      (q.0 ∙ ap (λ b. some (c, record s { active = b })) a, q.1 ∙ ap not (sym a))
  | inr a ↦ let q = stepped-some activation (c, s) _ (if-false _ _ a) in (q.0, q.1 ∙ ap not (sym a))
]

deactivation_lem :
    (c : ClientConfig) (s : ClientState)
    → (stepped deactivation (some (c, s)) ≡ some (c, record s { active = false }))
      × (answered deactivation (some (c, s)) ≡ s.active)
unfolding deactivation
deactivation_lem c s = elim (Bool-cases s.active) [
  | inl a ↦ let q = stepped-some deactivation (c, s) _ (if-true _ _ a) in (q.0, q.1 ∙ sym a)
  | inr a ↦
      let q = stepped-none deactivation (c, s) (rw a refl) in
      (q.0 ∙ ap (λ b. some (c, record s { active = b })) a, q.1 ∙ sym a)
]

clipboard_change_lem :
    (enable : Bool) (c : ClientConfig) (s : ClientState)
    → (stepped (clipboard_change enable) (some (c, s))
        ≡ some (record c { enable_clipboard_to = enable }, s))
      × (answered (clipboard_change enable) (some (c, s))
          ≡ ite (Bool-discrete c.enable_clipboard_to enable) false s.active)
unfolding clipboard_change
clipboard_change_lem enable c s = elim (Bool-discrete c.enable_clipboard_to enable) [
  | yes p ↦
      let q =
        stepped-none (clipboard_change enable) (c, s)
          (if_pos (Bool-discrete c.enable_clipboard_to enable) p _ _) in
      (
        q.0 ∙ ap (λ b. some (record c { enable_clipboard_to = b }, s)) p,
        q.1 ∙ sym (if_pos (Bool-discrete c.enable_clipboard_to enable) p _ _),
      )
  | no p ↦
      let q =
        stepped-some (clipboard_change enable) (c, s) _
          (if_neg (Bool-discrete c.enable_clipboard_to enable) p _ _) in
      (q.0, q.1 ∙ sym (if_neg (Bool-discrete c.enable_clipboard_to enable) p _ _))
]

hostname_kept :
    (name : Option (List ℕ)) (c : ClientConfig) (s : ClientState)
    → c.hostname ≡ name
    → (stepped (hostname_change name) (some (c, s)) ≡ some (c, s))
      × (answered (hostname_change name) (some (c, s)) ≡ false)
unfolding hostname_change
hostname_kept name c s p =
    stepped-none (hostname_change name) (c, s) (if_pos (text-discrete c.hostname name) p _ _)

hostname_new :
    (name : Option (List ℕ)) (c : ClientConfig) (s : ClientState)
    → c.hostname ≢ name
    → (stepped (hostname_change name) (some (c, s))
        ≡ some (record c { hostname = name }, record s { active_addr = none; dns_ips = [] }))
      × (answered (hostname_change name) (some (c, s)) ≡ true)
unfolding hostname_change
hostname_new name c s p =
    stepped-some (hostname_change name) (c, s) _ (if_neg (text-discrete c.hostname name) p _ _)

module _ (slab : Slab Entry) (handle : ℕ) (cm : slab.S) where
  -- Of a registered client, activation answers whether it was inactive and leaves it active,
  -- deactivation whether it was active and leaves it inactive; nothing else about it changes, nor
  -- about the other clients.
  pub activate-deactivate :
      (c : ClientConfig) (s : ClientState)
      → slab.get handle cm ≡ some (c, s)
      → let (on, was_off) = activate_client slab handle cm in
        let (off, was_on) = deactivate_client slab handle cm in
        ((was_off ≡ not s.active) × (was_on ≡ s.active))
        × (((slab.get handle on ≡ some (c, record s { active = true }))
              × (slab.get handle off ≡ some (c, record s { active = false })))
            × (Unmoved slab handle cm on × Unmoved slab handle cm off))
  unfolding activate_client deactivate_client
  activate-deactivate c s here = (
    (
      with_client-answered slab activation handle cm
          ∙ ap (answered activation) here
          ∙ (activation_lem c s).1,
      with_client-answered slab deactivation handle cm
          ∙ ap (answered deactivation) here
          ∙ (deactivation_lem c s).1,
    ),
    (
      (
        get-with_client_self slab activation handle cm
            ∙ ap (stepped activation) here
            ∙ (activation_lem c s).0,
        get-with_client_self slab deactivation handle cm
            ∙ ap (stepped deactivation) here
            ∙ (deactivation_lem c s).0,
      ),
      (
        get-with_client_ne slab activation handle cm,
        get-with_client_ne slab deactivation handle cm,
      ),
    ),
  )

  -- A write of the clipboard flag sets it for a registered client and moves nothing else. It answers
  -- true only where the flag was another one and the client is active, so that a change for an
  -- inactive client is answered false.
  pub set_enable_clipboard_to-answer :
      (enable : Bool) (c : ClientConfig) (s : ClientState)
      → slab.get handle cm ≡ some (c, s)
      → let (after, answer) = set_enable_clipboard_to slab handle enable cm in
        ((slab.get handle after ≡ some (record c { enable_clipboard_to = enable }, s))
          × (answer ≡ ite (Bool-discrete c.enable_clipboard_to enable) false s.active))
        × Unmoved slab handle cm after
  unfolding set_enable_clipboard_to
  set_enable_clipboard_to-answer enable c s here =
      let arm = clipboard_change enable in
      (
        (
          get-with_client_self slab arm handle cm
              ∙ ap (stepped arm) here
              ∙ (clipboard_change_lem enable c s).0,
          with_client-answered slab arm handle cm
              ∙ ap (answered arm) here
              ∙ (clipboard_change_lem enable c s).1,
        ),
        get-with_client_ne slab arm handle cm,
      )

  -- For a registered client a new hostname is stored and answered true: the active address and the
  -- DNS ips are cleared, and the ips are the fixed ones again. The same hostname changes nothing and
  -- is answered false. The other clients are not touched.
  pub set_hostname-cases :
      (name : Option (List ℕ)) (c : ClientConfig) (s : ClientState)
      → slab.get handle cm ≡ some (c, s)
      → let (after, answer) = set_hostname slab handle name cm in
        ((slab.get handle after
            ≡ some (
                ite
                  (text-discrete c.hostname name)
                  (c, s)
                  (
                    record c { hostname = name },
                    record s { active_addr = none; dns_ips = []; ips = from_iter c.fix_ips },
                  )))
          × (answer ≡ ite (text-discrete c.hostname name) false true))
        × Unmoved slab handle cm after
  unfolding set_hostname
  set_hostname-cases name c s here =
      let arm = hostname_change name in
      let before = get-with_client_self slab arm handle cm ∙ ap (stepped arm) here in
      let answer = with_client-answered slab arm handle cm ∙ ap (answered arm) here in
      elim (text-discrete c.hostname name) [
        | yes p ↦
            let q = hostname_kept name c s p in
            rw
              (
                answer ∙ q.1,
                if_pos (text-discrete c.hostname name) p,
                if_pos (text-discrete c.hostname name) p,
              )
              ((before ∙ q.0, refl), get-with_client_ne slab arm handle cm)
        | no p ↦
            let q = hostname_new name c s p in
            rw
              (
                answer ∙ q.1,
                if_neg (text-discrete c.hostname name) p,
                if_neg (text-discrete c.hostname name) p,
              )
              (
                (
                  get-write slab refreshed handle _ _ (before ∙ q.0)
                      ∙ ap
                          (λ ips. some (
                            record c { hostname = name },
                            record s { active_addr = none; dns_ips = []; ips = from_iter ips },
                          ))
                          (append-nil c.fix_ips),
                  refl,
                ),
                λ k h.
                    get-with_client_ne slab (λ e. some (refreshed e, true)) handle _ k h
                    ∙ get-with_client_ne slab arm handle cm k h,
              )
      ]
