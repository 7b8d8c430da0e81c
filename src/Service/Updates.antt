-- ===== src/Service/Updates.antt =====
-- src/service.rs: the handlers that write a client and what they do to its barrier.
use lan_mouse_pro.Common.{
  ℕ, ◌≡◌, refl, sym, ap, ◌∙◌, inl, inr, Bool, true, false, Bool-cases, Option, none, some,
  Option-cases, List,
}
use lan_mouse_pro.Capture.Barriers.{Backend, InputCapture}
use lan_mouse_pro.Capture.Run.{Safe-mono}
use lan_mouse_pro.Client.Manager.{
  Entry, Arm, with_client, write, key_of, port_change, clipboard_change, channels_change,
  pos_change, monitor_change, hostname_change, update_ips, refreshed, set_hostname,
}
use lan_mouse_pro.Client.Slab.{Slab}
use lan_mouse_pro.Client.Types.{
  Position, InputChannelConfig, text-discrete, Position-discrete, Bool-discrete,
  InputChannelConfig-discrete,
}
use lan_mouse_pro.Client.View.{
  guarded, stepped, answered, stepped-none, stepped-some, with_client_absent, with_client_kept,
  with_client-answered, get-with_client_self, get-with_client_ne,
}
use lan_mouse_pro.Service.Activation.{activate_client-Sound}
use lan_mouse_pro.Service.Armed.{
  Sound, Sound-with_clients, active-barrier, inactive-barrier, deactivate_client-Sound,
}
use lan_mouse_pro.Service.Barriers.{barrier_of, Armed, ArmedBut}
use lan_mouse_pro.Service.Handlers.{Service, with_clients, rebuilt}
use mathlib.Core.Option.{some-injective, none-ne-some}
use native.Mathlib.Decide.{ℕ_discrete}

-- The arm leaves the client's barrier as it is.
abbrev pub KeepsBarrier : Slab Entry → Arm → Type 0
KeepsBarrier slab arm =
    (e : Entry) (r : Entry × Bool)
    → arm e ≡ some r
    → barrier_of slab (some r.0) ≡ barrier_of slab (some e)

-- The arm writes the configuration alone, and answers whether the client is active.
abbrev pub Rebinds : Arm → Type 0
Rebinds arm = (e : Entry) (r : Entry × Bool) → arm e ≡ some r → (r.0.1 ≡ e.1) × (r.1 ≡ e.1.active)

pub pos_change-Rebinds : (pos : Position) → Rebinds (pos_change pos)
unfolding pos_change
pos_change-Rebinds pos e r h =
    let q = guarded (Position-discrete e.0.pos pos) r _ h in
    (ap (λ x. x.0.1) (sym q), ap (λ x. x.1) (sym q))

pub monitor_change-Rebinds : (monitor : Option (List ℕ)) → Rebinds (monitor_change monitor)
unfolding monitor_change
monitor_change-Rebinds monitor e r h =
    let q = guarded (text-discrete e.0.monitor monitor) r _ h in
    (ap (λ x. x.0.1) (sym q), ap (λ x. x.1) (sym q))

module _ (slab : Slab Entry) where
  pub port_change-KeepsBarrier : (port : ℕ) → KeepsBarrier slab (port_change port)
  unfolding port_change barrier_of
  port_change-KeepsBarrier port e r h =
      ap (λ x. barrier_of slab (some x.0)) (sym (guarded (ℕ_discrete e.0.port port) r _ h))

  pub clipboard_change-KeepsBarrier : (enable : Bool) → KeepsBarrier slab (clipboard_change enable)
  unfolding clipboard_change barrier_of
  clipboard_change-KeepsBarrier enable e r h =
      ap (λ x. barrier_of slab (some x.0))
        (sym (guarded (Bool-discrete e.0.enable_clipboard_to enable) r _ h))

  pub channels_change-KeepsBarrier :
      (cfg : InputChannelConfig) → KeepsBarrier slab (channels_change cfg)
  unfolding channels_change barrier_of
  channels_change-KeepsBarrier cfg e r h =
      ap (λ x. barrier_of slab (some x.0))
        (sym (guarded (InputChannelConfig-discrete e.0.input_channels cfg) r _ h))

  pub hostname_change-KeepsBarrier :
      (name : Option (List ℕ)) → KeepsBarrier slab (hostname_change name)
  unfolding hostname_change barrier_of
  hostname_change-KeepsBarrier name e r h =
      ap (λ x. barrier_of slab (some x.0)) (sym (guarded (text-discrete e.0.hostname name) r _ h))

  stepped-barrier :
      (arm : Arm)
      → KeepsBarrier slab arm
      → (o : Option Entry) → barrier_of slab (stepped arm o) ≡ barrier_of slab o
  unfolding stepped
  stepped-barrier arm keeps none = refl
  stepped-barrier arm keeps (some e) = elim (Option-cases (arm e)) [
    | inl fails ↦ ap (barrier_of slab) (stepped-none arm e fails).0
    | inr (r, holds) ↦ ap (barrier_of slab) (stepped-some arm e r holds).0 ∙ keeps e r holds
  ]

  -- Then so do the clients.
  pub with_client-barriers :
      (arm : Arm)
      → KeepsBarrier slab arm
      → (h : ℕ) (cm : slab.S) (q : ℕ)
      → barrier_of slab (slab.get q (with_client slab arm h cm).0) ≡ barrier_of slab (slab.get q cm)
  with_client-barriers arm keeps h cm q = elim (ℕ_discrete h q) [
    | yes p ↦ rw (sym p) (
        ap (barrier_of slab) (get-with_client_self slab arm h cm)
        ∙ stepped-barrier arm keeps (slab.get h cm))
    | no p ↦ ap (barrier_of slab) (get-with_client_ne slab arm h cm q p)
  ]

  pub write-barriers :
      (f : Entry → Entry)
      → ((e : Entry) → barrier_of slab (some (f e)) ≡ barrier_of slab (some e))
      → (h : ℕ) (cm : slab.S) (q : ℕ)
      → barrier_of slab (slab.get q (write slab f h cm)) ≡ barrier_of slab (slab.get q cm)
  write-barriers f keeps =
      with_client-barriers (λ e. some (f e, true))
        (λ e r h.
          ap (λ x. barrier_of slab (some x.0)) (sym (some-injective (f e, true) r h)) ∙ keeps e)

  pub update_ips-barriers :
      (h : ℕ) (cm : slab.S) (q : ℕ)
      → barrier_of slab (slab.get q (update_ips slab h cm)) ≡ barrier_of slab (slab.get q cm)
  unfolding update_ips barrier_of
  update_ips-barriers = write-barriers refreshed (λ e. refl)

  pub set_hostname-barriers :
      (h : ℕ) (name : Option (List ℕ)) (cm : slab.S) (q : ℕ)
      → barrier_of slab (slab.get q (set_hostname slab h name cm).0)
        ≡ barrier_of slab (slab.get q cm)
  unfolding set_hostname
  set_hostname-barriers h name cm q =
      let kept =
        with_client-barriers (hostname_change name) (hostname_change-KeepsBarrier name) h cm q in
      elim (Bool-cases (with_client slab (hostname_change name) h cm).1) [
        | inl changed ↦ rw changed (update_ips-barriers h _ q ∙ kept)
        | inr same ↦ rw same kept
      ]

  module _ {B : Type 0} (backend : Backend B) (start : InputCapture B) where
    -- An active client whose configuration changed still has a barrier, if not the right one.
    rebound-ArmedBut :
        (arm : Arm) (h : ℕ) (cm : slab.S) (e : Entry) (r : Entry × Bool) (ic : InputCapture B)
        → slab.get h cm ≡ some e
        → slab.get h (with_client slab arm h cm).0 ≡ some r.0
        → r.0.1 ≡ e.1
        → e.1.active ≡ true
        → Armed slab backend start cm ic
        → ArmedBut slab backend start h (with_client slab arm h cm).0 ic
    rebound-ArmedBut arm h cm e r ic here after kept on armed = (
      armed.0,
      (
        (λ q p. armed.1 q ∙ ap (barrier_of slab) (sym (get-with_client_ne slab arm h cm q p))),
        (
          (λ absent. absurd (
              none-ne-some _ (
                sym absent
                ∙ active-barrier slab backend start r.0.0 r.0.1 _ after
                    (ap (λ s. s.active) kept ∙ on)))),
          λ key p. (key_of slab e, armed.1 h ∙ active-barrier slab backend start e.0 e.1 _ here on),
        ),
      ),
    )

    -- A change of side or monitor: the barrier is put up again where the client is active.
    pub rebuilt-Sound :
        (arm : Arm)
        → Rebinds arm
        → (h : ℕ) (sv : Service slab) → Sound slab backend start sv
        → Sound slab backend start (
            rebuilt slab h
              (with_client slab arm h sv.client_manager).1
              (with_clients slab (with_client slab arm h sv.client_manager).0 sv))
    unfolding rebuilt
    rebuilt-Sound arm rebinds h sv before =
        let cm = sv.client_manager in
        let answer = with_client-answered slab arm h cm in
        let own = get-with_client_self slab arm h cm in
        elim (Option-cases (slab.get h cm)) [
          | inl absent ↦ rw (with_client_absent slab arm h cm absent) before
          | inr (e, here) ↦ elim (Option-cases (arm e)) [
            | inl fails ↦ rw (with_client_kept slab arm h cm e here fails) before
            | inr (r, holds) ↦
                let told = rebinds e r holds in
                let says =
                  answer ∙ ap (answered arm) here ∙ (stepped-some arm e r holds).1 ∙ told.1 in
                let after = own ∙ ap (stepped arm) here ∙ (stepped-some arm e r holds).0 in
                elim (Bool-cases e.1.active) [
                  | inl on ↦ rw (says ∙ on) (
                      activate_client-Sound slab backend start h _ (
                        deactivate_client-Sound slab backend start h _ (
                          Safe-mono (Armed slab backend start cm)
                            (ArmedBut slab backend start h (with_client slab arm h cm).0) _ before
                            (λ ic. rebound-ArmedBut arm h cm e r ic here after told.0 on))))
                  | inr off ↦ rw (says ∙ off) (
                      Sound-with_clients slab backend start _ sv
                        (λ q. elim (ℕ_discrete h q) [
                          | yes p ↦ rw (sym p) (
                              inactive-barrier slab backend start r.0.0 r.0.1 _ after
                                (ap (λ s. s.active) told.0 ∙ off)
                              ∙ sym (inactive-barrier slab backend start e.0 e.1 _ here off))
                          | no p ↦ ap (barrier_of slab) (get-with_client_ne slab arm h cm q p)
                        ])
                        before)
                ]
          ]
        ]

-- Where such an arm answers false, every barrier is the same.
pub unanswered-barriers :
    (slab : Slab Entry) (arm : Arm)
    → Rebinds arm
    → (h : ℕ) (cm : slab.S) → (with_client slab arm h cm).1 ≡ false
    → (q : ℕ)
    → barrier_of slab (slab.get q (with_client slab arm h cm).0) ≡ barrier_of slab (slab.get q cm)
unfolding barrier_of
unanswered-barriers slab arm rebinds h cm off q = elim (Option-cases (slab.get h cm)) [
  | inl absent ↦ rw (with_client_absent slab arm h cm absent) refl
  | inr (e, here) ↦ elim (Option-cases (arm e)) [
    | inl fails ↦ rw (with_client_kept slab arm h cm e here fails) refl
    | inr (r, holds) ↦
        let told = rebinds e r holds in
        let says =
          sym told.1
          ∙ sym (
              with_client-answered slab arm h cm
              ∙ ap (answered arm) here
              ∙ (stepped-some arm e r holds).1)
          ∙ off in
        elim (ℕ_discrete h q) [
          | yes p ↦
              rw
                (
                  sym p,
                  get-with_client_self slab arm h cm,
                  here,
                  (stepped-some arm e r holds).0,
                  ap (λ s. s.active) told.0,
                  says,
                )
                refl
          | no p ↦ ap (barrier_of slab) (get-with_client_ne slab arm h cm q p)
        ]
  ]
]
