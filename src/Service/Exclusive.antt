-- ===== src/Service/Exclusive.antt =====
-- src/service.rs: `activate_client` and the client that already stands at its side and monitor.
use lan_mouse_pro.Common.{
  ℕ, ◌≡◌, ◌≢◌, refl, sym, ap, ◌∙◌, inl, inr, Bool-cases, Option, none, some, Option-cases, subst,
}
use lan_mouse_pro.Client.Effects.{activate-deactivate}
use lan_mouse_pro.Client.Lookup.{IsFound, IsAt, client_at-IsFound}
use lan_mouse_pro.Client.Manager
use lan_mouse_pro.Client.Manager.{Entry, key_of, get_key, client_at, get_hostname}
use lan_mouse_pro.Client.Slab.{Slab}
use lan_mouse_pro.Client.Types.{ClientConfig, ClientState, BarrierKey}
use lan_mouse_pro.Service.Activation.{
  deactivate_client-clients, get-deactivate_client_ne, get-make_room,
}
use lan_mouse_pro.Service.Armed.{broadcast_client-clients}
use lan_mouse_pro.Service.Barriers.{barrier_of}
use lan_mouse_pro.Service.Handlers.{
  Service, send, resolve, deactivate_client, make_room, arm_client, activate_client,
}
use lan_mouse_pro.Service.Start.{deactivated-barrier}
use mathlib.Core.Logic.{if_pos, if_neg}
use mathlib.Core.Option.{none-ne-some, some-injective}
use native.Mathlib.Decide.{ℕ_discrete}

module _ (slab : Slab Entry) where
  abbrev pub barrier : ℕ → slab.S → Option BarrierKey
  barrier h cm = barrier_of slab (slab.get h cm)

  -- No two active clients have the same barrier.
  abbrev pub Exclusive : slab.S → Type 0
  Exclusive cm =
      (h q : ℕ) (key : BarrierKey) → barrier h cm ≡ some key → barrier q cm ≡ some key → h ≡ q

  -- No barrier is new.
  abbrev pub Shrinks : slab.S → slab.S → Type 0
  Shrinks old cm = (q : ℕ) (key : BarrierKey) → barrier q cm ≡ some key → barrier q old ≡ some key

  pub Exclusive-Shrinks : (old cm : slab.S) → Shrinks old cm → Exclusive old → Exclusive cm
  Exclusive-Shrinks old cm shrinks before h q key p r =
      before h q key (shrinks h key p) (shrinks q key r)

  -- Of a client that has a barrier the search by barrier cannot fail to know.
  barrier-IsAt :
      (h : ℕ) (cm : slab.S) (key : BarrierKey)
      → barrier h cm ≡ some key
      → (e : Entry) × ((slab.get h cm ≡ some e) × IsAt key e)
  unfolding barrier_of
  barrier-IsAt h cm key p = elim (Option-cases (slab.get h cm)) [
    | inl absent ↦ absurd (none-ne-some key (rw absent at p))
    | inr (e, here) ↦ elim (Bool-cases e.1.active) [
      | inl on ↦
          let same = some-injective (key_of slab e) key (rw (here, on) at p) in
          (e, (here, (on, (ap (λ k. k.pos) same, ap (λ k. k.monitor) same))))
      | inr off ↦ absurd (none-ne-some key (rw (here, off) at p))
    ]
  ]

  pub deactivate_client-barrier_self :
      (h : ℕ) (sv : Service slab) → barrier h (deactivate_client slab h sv).client_manager ≡ none
  deactivate_client-barrier_self h sv =
      ap (barrier h) (deactivate_client-clients slab h sv)
      ∙ deactivated-barrier slab h sv.client_manager

  pub deactivate_client-Shrinks :
      (h : ℕ) (sv : Service slab)
      → Shrinks sv.client_manager (deactivate_client slab h sv).client_manager
  deactivate_client-Shrinks h sv q key p = elim (ℕ_discrete h q) [
    | yes same ↦ absurd (
        none-ne-some key (
          sym (deactivate_client-barrier_self h sv)
          ∙ subst (λ k. barrier k (deactivate_client slab h sv).client_manager ≡ some key)
              (sym same) p))
    | no differ ↦ ap (barrier_of slab) (sym (get-deactivate_client_ne slab h q sv differ)) ∙ p
  ]

  -- The client that the search by barrier answers has the barrier.
  found-barrier :
      (other : ℕ) (cm : slab.S) (c : ClientConfig) (s : ClientState)
      → IsFound slab (IsAt (key_of slab (c, s))) cm (some other)
      → barrier other cm ≡ some (key_of slab (c, s))
  unfolding IsFound barrier_of
  found-barrier other cm c s (e, (here, (on, (side, monitor)))) =
      rw (here, on) (rw (side, monitor) refl)

  -- What `make_room` leaves: no other client at the key, and no new barrier.
  make_room-free :
      (h : ℕ) (sv : Service slab) (c : ClientConfig) (s : ClientState)
      → Exclusive sv.client_manager
      → let key = key_of slab (c, s) in
        ((q : ℕ) → h ≢ q → barrier q (make_room slab key h sv).client_manager ≢ some key)
        × Shrinks sv.client_manager (make_room slab key h sv).client_manager
  unfolding make_room IsFound
  make_room-free h sv c s before =
      let cm = sv.client_manager in
      let key = key_of slab (c, s) in
      let found = client_at-IsFound slab key cm in
      elim (Option-cases (client_at slab key cm)) [
        | inl free ↦
            rw (free, make_room)
              (
                (λ q _ p.
                    let at = barrier-IsAt q cm key p in
                    (subst (IsFound slab (IsAt key) cm) free found) q at.0 at.1.0 at.1.1),
                λ q k p. p,
              )
        | inr (other, taken) ↦
            let has = found-barrier other cm c s (subst (IsFound slab (IsAt key) cm) taken found) in
            rw (taken, make_room)
              (elim (ℕ_discrete other h) [
                | yes same ↦
                    rw (if_pos (ℕ_discrete other h) same sv (deactivate_client slab other sv))
                      ((λ q differ p. differ (sym same ∙ before other q key has p)), λ q k p. p)
                | no apart ↦
                    rw (if_neg (ℕ_discrete other h) apart sv (deactivate_client slab other sv)) (
                      (λ q differ p. none-ne-some key (
                          sym (deactivate_client-barrier_self other sv)
                          ∙ subst
                              (λ k.
                                barrier k (deactivate_client slab other sv).client_manager
                                ≡ some key)
                              (sym (
                                before other q key has
                                  (deactivate_client-Shrinks other sv q key p)))
                              p)),
                      deactivate_client-Shrinks other sv,
                    )
              ])
      ]

  arm_client-clients :
      (key : BarrierKey) (h : ℕ) (sv : Service slab)
      → (arm_client slab key h sv).client_manager
        ≡ (Manager.activate_client slab h sv.client_manager).0
  unfolding arm_client send
  arm_client-clients key h sv =
      elim (Bool-cases (Manager.activate_client slab h sv.client_manager).1) [
        | inl on ↦ rw on (broadcast_client-clients slab h _)
        | inr off ↦ rw off refl
      ]

  -- A barrier that no other client has.
  joined-Exclusive :
      (h : ℕ) (old cm : slab.S) (key : BarrierKey)
      → Exclusive old
      → ((q : ℕ) → h ≢ q → barrier q old ≢ some key)
      → barrier h cm ≡ some key
      → ((q : ℕ) → h ≢ q → barrier q cm ≡ barrier q old)
      → Exclusive cm
  joined-Exclusive h old cm key before free own others a b k p r = elim (ℕ_discrete h a) [
    | yes ha ↦ elim (ℕ_discrete h b) [
      | yes hb ↦ sym ha ∙ hb
      | no hb ↦ absurd (free b hb (sym (others b hb) ∙ r ∙ sym p ∙ (rw (sym ha) own)))
    ]
    | no ha ↦ elim (ℕ_discrete h b) [
      | yes hb ↦ absurd (free a ha (sym (others a ha) ∙ p ∙ sym r ∙ (rw (sym hb) own)))
      | no hb ↦ before a b k (sym (others a ha) ∙ p) (sym (others b hb) ∙ r)
    ]
  ]

  pub resolve-clients :
      (h : ℕ) (sv : Service slab) → (resolve slab h sv).client_manager ≡ sv.client_manager
  unfolding resolve send
  resolve-clients h sv = elim (Option-cases (get_hostname slab h sv.client_manager)) [
    | inl absent ↦ rw (absent, resolve) refl
    | inr (name, here) ↦ rw (here, resolve) refl
  ]

  arm_client-Exclusive :
      (h : ℕ) (sv : Service slab) (c : ClientConfig) (s : ClientState)
      → slab.get h sv.client_manager ≡ some (c, s)
      → Exclusive sv.client_manager
      → ((q : ℕ) → h ≢ q → barrier q sv.client_manager ≢ some (key_of slab (c, s)))
      → Exclusive (arm_client slab (key_of slab (c, s)) h sv).client_manager
  unfolding barrier_of
  arm_client-Exclusive h sv c s here before free =
      let cm = sv.client_manager in
      let flip = activate-deactivate slab h cm c s here in
      rw (arm_client-clients (key_of slab (c, s)) h sv) (
        joined-Exclusive h cm _ (key_of slab (c, s)) before free (rw flip.1.0.0 refl)
          (λ q p. ap (barrier_of slab) (flip.1.1.0 q p)))

  -- Where no two active clients have the same side and monitor, activation of a client keeps it so:
  -- the client that was there, if any, is deactivated.
  pub activate_client-Exclusive :
      (h : ℕ) (sv : Service slab)
      → Exclusive sv.client_manager
      → Exclusive (activate_client slab h sv).client_manager
  unfolding activate_client get_key
  activate_client-Exclusive h sv before =
      let resolved = resolve slab h sv in
      let still = subst Exclusive (sym (resolve-clients h sv)) before in
      elim (Option-cases (slab.get h resolved.client_manager)) [
        | inl absent ↦ rw (absent, activate_client) still
        | inr ((c, s), here) ↦
            let room = make_room-free h resolved c s still in
            let key = key_of slab (c, s) in
            rw (here, activate_client)
              (arm_client-Exclusive h (make_room slab key h resolved) c s
                (get-make_room slab key h resolved ∙ here)
                (Exclusive-Shrinks resolved.client_manager _ room.1 still) room.0)
      ]
