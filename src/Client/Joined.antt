-- ===== src/Client/Joined.antt =====
-- src/client.rs: the writes of a client and its `ips`.
use lan_mouse_pro.Common.{
  ℕ, ◌≡◌, refl, sym, ap, inl, inr, arith, Bool, true, Bool-cases, Option, none, some, Option-cases,
  List,
}
use lan_mouse_pro.Client.Types.{
  Position, Position-discrete, text-discrete, Bool-discrete, InputChannelConfig,
  InputChannelConfig-discrete,
}
use lan_mouse_pro.Client.Manager.{
  Entry, Arm, joined_ips, refreshed, activation, deactivation, port_change, pos_change,
  monitor_change, clipboard_change, channels_change, hostname_change,
}
use lan_mouse_pro.Client.View.{stepped, guarded}
use mathlib.Core.Option.{some-injective}
use native.Mathlib.Decide.{ℕ_discrete}

-- The ips are what `update_ips` would collect.
abbrev pub IsJoined : Entry → Type 0
IsJoined e = e.1.ips ≡ joined_ips e

-- The arm keeps the client's ips right.
abbrev pub Keeps : Arm → Type 0
Keeps arm = (e : Entry) (r : Entry × Bool) → arm e ≡ some r → IsJoined e → IsJoined r.0

pub stepped-IsJoined :
    (arm : Arm) (keeps : Keeps arm) (o : Option Entry)
    → ((e : Entry) → o ≡ some e → IsJoined e)
    → (e : Entry) → stepped arm o ≡ some e
    → IsJoined e
unfolding stepped
stepped-IsJoined arm keeps none before e h = ground arith
stepped-IsJoined arm keeps (some old) before e h = elim (Option-cases (arm old)) [
  | inl a ↦ before e (rw (a, stepped) at h)
  | inr (r, a) ↦
      rw (sym (some-injective r.0 e (rw (a, stepped) at h))) (keeps old r a (before old refl))
]

pub refreshed-IsJoined :
    (o : Option Entry) (e : Entry) → stepped (λ e. some (refreshed e, true)) o ≡ some e → IsJoined e
unfolding stepped
refreshed-IsJoined none e h = ground arith
refreshed-IsJoined (some old) e h = rw (sym (some-injective (refreshed old) e h)) refl

pub hostname_change-true :
    (name : Option (List ℕ)) (e : Entry) (r : Entry × Bool)
    → hostname_change name e ≡ some r
    → r.1 ≡ true
unfolding hostname_change
hostname_change-true name e r h =
    ap (λ x. x.1) (sym (guarded (text-discrete e.0.hostname name) r _ h))

pub activation-Keeps : Keeps activation
unfolding activation
activation-Keeps e r h joined = elim (Bool-cases e.1.active) [
  | inl a ↦ ground arith
  | inr a ↦ rw (sym (some-injective _ r (rw a at h))) joined
]

pub deactivation-Keeps : Keeps deactivation
unfolding deactivation
deactivation-Keeps e r h joined = elim (Bool-cases e.1.active) [
  | inl a ↦ rw (sym (some-injective _ r (rw a at h))) joined
  | inr a ↦ ground arith
]

pub port_change-Keeps : (port : ℕ) → Keeps (port_change port)
unfolding port_change
port_change-Keeps port e r h joined = rw (sym (guarded (ℕ_discrete e.0.port port) r _ h)) joined

pub pos_change-Keeps : (pos : Position) → Keeps (pos_change pos)
unfolding pos_change
pos_change-Keeps pos e r h joined = rw (sym (guarded (Position-discrete e.0.pos pos) r _ h)) joined

pub monitor_change-Keeps : (monitor : Option (List ℕ)) → Keeps (monitor_change monitor)
unfolding monitor_change
monitor_change-Keeps monitor e r h joined =
    rw (sym (guarded (text-discrete e.0.monitor monitor) r _ h)) joined

pub clipboard_change-Keeps : (enable : Bool) → Keeps (clipboard_change enable)
unfolding clipboard_change
clipboard_change-Keeps enable e r h joined =
    rw (sym (guarded (Bool-discrete e.0.enable_clipboard_to enable) r _ h)) joined

pub channels_change-Keeps : (cfg : InputChannelConfig) → Keeps (channels_change cfg)
unfolding channels_change
channels_change-Keeps cfg e r h joined =
    rw (sym (guarded (InputChannelConfig-discrete e.0.input_channels cfg) r _ h)) joined
