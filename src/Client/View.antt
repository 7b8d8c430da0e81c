-- ===== src/Client/View.antt =====
-- What a write through `get_mut` does to the clients of src/client.rs, as the readers see it.
use lan_mouse_pro.Common.{
  ap, [], ℕ, subst, sym, ◌∙◌, ◌⊎◌, ◌≡◌, ◌≢◌, refl, inl, inr, Bool, true, false, Option, none, some,
  Option-cases,
}
use lan_mouse_pro.Client.Slab.{Slab}
use lan_mouse_pro.Client.Manager.{
  Arm, Entry, with_client, write, add_with_config, add_client, set_config, set_state, from_iter,
}
use lan_mouse_pro.Client.Types.{
  ClientConfig, ClientState, ConfigClient, default_config, default_state,
}
use mathlib.Core.Bool.{true≢false}
use mathlib.Core.Option.{none-ne-some, some-injective}
use mathlib.Core.Logic.{ite}
use native.Mathlib.Decide.{ℕ_discrete}

unfoldable pub stepped : Arm → Option Entry → Option Entry
stepped arm none = none
stepped arm (some e) = elim (arm e) [ none ↦ some e | some r ↦ some r.0 ]

unfoldable pub answered : Arm → Option Entry → Bool
answered arm none = false
answered arm (some e) = elim (arm e) [ none ↦ false | some r ↦ r.1 ]

pub stepped-none :
    (arm : Arm) (e : Entry)
    → arm e ≡ none
    → (stepped arm (some e) ≡ some e) × (answered arm (some e) ≡ false)
unfolding stepped answered
stepped-none arm e q = (rw (q, stepped) refl, rw (q, answered) refl)

pub stepped-some :
    (arm : Arm) (e : Entry) (r : Entry × Bool)
    → arm e ≡ some r
    → (stepped arm (some e) ≡ some r.0) × (answered arm (some e) ≡ r.1)
unfolding stepped answered
stepped-some arm e r q = (rw (q, stepped) refl, rw (q, answered) refl)

-- What an arm answers where its guard lets it.
pub guarded :
    {P : Type 0} (d : Dec P) (r r' : Entry × Bool) → ite d none (some r') ≡ some r → r' ≡ r
guarded (yes p) r r' h = absurd (none-ne-some r h)
guarded (no p) r r' h = some-injective r' r h

module _ (slab : Slab Entry) (arm : Arm) (handle : ℕ) (cm : slab.S) where
  pub get-with_client_self :
      slab.get handle (with_client slab arm handle cm).0 ≡ stepped arm (slab.get handle cm)
  unfolding with_client stepped
  get-with_client_self = elim (Option-cases (slab.get handle cm)) [
    | inl none_here ↦ rw (none_here, with_client, none_here) refl
    | inr (e, here) ↦ elim (Option-cases (arm e)) [
      | inl q ↦ rw (here, with_client, q, here, stepped) refl
      | inr (r, q) ↦ rw (here, with_client, q, stepped) (slab.get-set_self handle r.0 e cm here)
    ]
  ]

  pub get-with_client_ne :
      (q : ℕ) → handle ≢ q → slab.get q (with_client slab arm handle cm).0 ≡ slab.get q cm
  unfolding with_client
  get-with_client_ne q h = elim (Option-cases (slab.get handle cm)) [
    | inl none_here ↦ rw (none_here, with_client) refl
    | inr (e, here) ↦ elim (Option-cases (arm e)) [
      | inl a ↦ rw (here, with_client, a) refl
      | inr (r, a) ↦ rw (here, with_client, a) (slab.get-set_ne handle q r.0 cm h)
    ]
  ]

  pub with_client-answered : (with_client slab arm handle cm).1 ≡ answered arm (slab.get handle cm)
  unfolding with_client answered
  with_client-answered = elim (Option-cases (slab.get handle cm)) [
    | inl none_here ↦ rw (none_here, with_client) refl
    | inr (e, here) ↦ elim (Option-cases (arm e)) [
      | inl q ↦ rw (here, with_client, q, answered) refl
      | inr (r, q) ↦ rw (here, with_client, q, answered) refl
    ]
  ]

  -- A client found after the write is the old one, changed where the handle is its own.
  pub get-with_client :
      (q : ℕ) (e : Entry)
      → slab.get q (with_client slab arm handle cm).0 ≡ some e
      → ((handle ≡ q) × (stepped arm (slab.get handle cm) ≡ some e))
        ⊎ ((handle ≢ q) × (slab.get q cm ≡ some e))
  get-with_client q e here = elim (ℕ_discrete handle q) [
    | yes p ↦ inl (
      p,
      sym get-with_client_self
          ∙ subst (λ k. slab.get k (with_client slab arm handle cm).0 ≡ some e) (sym p) here,
    )
    | no p ↦ inr (p, sym (get-with_client_ne q p) ∙ here)
  ]

  -- An arm that always answers true leaves the clients alone where the answer is false.
  pub with_client_unchanged :
      ((e : Entry) (r : Entry × Bool) → arm e ≡ some r → r.1 ≡ true)
      → (with_client slab arm handle cm).1 ≡ false
      → (with_client slab arm handle cm).0 ≡ cm
  unfolding with_client
  with_client_unchanged yes_always h = elim (Option-cases (slab.get handle cm)) [
    | inl none_here ↦ rw (none_here, with_client) refl
    | inr (e, here) ↦ elim (Option-cases (arm e)) [
      | inl q ↦ rw (here, with_client, q) refl
      | inr (r, q) ↦ absurd (true≢false (sym (yes_always e r q) ∙ (rw (here, with_client, q) at h)))
    ]
  ]

module _ (slab : Slab Entry) where
  pub get-write :
      (f : Entry → Entry) (h : ℕ) (cm : slab.S) (e : Entry)
      → slab.get h cm ≡ some e
      → slab.get h (write slab f h cm) ≡ some (f e)
  unfolding stepped
  get-write f h cm e here =
      get-with_client_self slab (λ e. some (f e, true)) h cm
      ∙ ap (stepped (λ e. some (f e, true))) here

  abbrev pub config_of : ConfigClient → ClientConfig
  config_of config = record {
    hostname = config.hostname;
    fix_ips = config.ips;
    port = config.port;
    pos = config.pos;
    cmd = config.enter_hook;
    input_channels = config.input_channels;
    monitor = config.monitor;
    enable_clipboard_to = config.enable_clipboard_to;
  }

  abbrev pub state_of : ConfigClient → ClientState
  state_of config = record {
    active = config.active;
    active_addr = none;
    dns_ips = [];
    ips = from_iter config.ips;
    has_pressed_keys = false;
    resolving = false;
    peer_commit = none;
  }

  pub get-add_with_config :
      (config : ConfigClient) (cm : slab.S)
      → slab.get (add_with_config slab config cm).0 (add_with_config slab config cm).1
        ≡ some (config_of config, state_of config)
  unfolding add_with_config add_client set_config set_state
  get-add_with_config config cm =
      let h = (add_client slab cm).0 in
      get-write (λ e. (e.0, state_of config)) h _ (config_of config, default_state)
        (get-write (λ e. (config_of config, e.1)) h _ (default_config, default_state)
          (slab.get-insert_self (default_config, default_state) cm))

  -- The other clients are the same before and after.
  abbrev pub Unmoved : ℕ → slab.S → slab.S → Type 0
  Unmoved h before after = (q : ℕ) → h ≢ q → slab.get q after ≡ slab.get q before

  -- Under a handle that no client has, a write does nothing.
  pub with_client_absent :
      (arm : Arm) (h : ℕ) (cm : slab.S)
      → slab.get h cm ≡ none
      → with_client slab arm h cm ≡ (cm, false)
  unfolding with_client
  with_client_absent arm h cm absent = rw (absent, with_client) refl

  -- Nor does it where the guard of the client fails.
  pub with_client_kept :
      (arm : Arm) (h : ℕ) (cm : slab.S) (e : Entry)
      → slab.get h cm ≡ some e
      → arm e ≡ none
      → with_client slab arm h cm ≡ (cm, false)
  unfolding with_client
  with_client_kept arm h cm e here fails = rw (here, with_client, fails) refl
