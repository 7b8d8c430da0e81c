-- ===== src/Service/Monitors.antt =====
-- src/service.rs: `reconcile_monitors_changed`, the reaction to a change of the list of monitors, and
-- the three pure helpers that pick the clients.
use lan_mouse_pro.Common.{
  ℕ, ◌≡◌, refl, inl, inr, Bool, true, false, not, ◌&&◌, ◌||◌, Bool-cases, if◌then◌else◌, Option,
  none, some, Option-cases, List, [], ◌∷◌, ◌++◌,
}
use lan_mouse_pro.Client.Manager.{Entry, get_key, registered_clients, active_clients}
use lan_mouse_pro.Client.Slab.{Slab}
use lan_mouse_pro.Client.Types.{BarrierKey}
use lan_mouse_pro.Service.Handlers.{
  Service, detach_capture, reattach_capture, deactivate_client, activate_client,
}
use mathlib.Core.Logic.{ite, if_pos}
use native.Mathlib.Decide.{ℕ_discrete}

-- `position` holds two `i32` as 32-bit patterns, and `scale` is the pattern of an `f64`.
pub record MonitorInfo : Type 0 where
  pub id : List ℕ
  pub name : List ℕ
  pub position : ℕ × ℕ
  pub size : ℕ × ℕ
  pub primary : Bool
  pub scale : ℕ

unfoldable pub bytes-discrete : Discrete (List ℕ)
bytes-discrete = hlevel ℕ_discrete

unfoldable pub pair-discrete : Discrete (ℕ × ℕ)
pair-discrete = hlevel ℕ_discrete

-- `any(|m| m.id == id)`.
unfoldable pub is_present : List ℕ → List MonitorInfo → Bool
is_present id [] = false
is_present id (m ∷ ms) = ite (bytes-discrete m.id id) true (is_present id ms)

unfoldable pub find_monitor : List ℕ → List MonitorInfo → Option MonitorInfo
find_monitor id [] = none
find_monitor id (m ∷ ms) = ite (bytes-discrete m.id id) (some m) (find_monitor id ms)

unfoldable pub monitor_geometry_changed : MonitorInfo → MonitorInfo → Bool
monitor_geometry_changed a b =
    ite (pair-discrete a.position b.position) false true
    || ite (pair-discrete a.size b.size) false true

-- `format!("monitor \"{monitor_id}\" disconnected")`.
abbrev disconnected : List ℕ → List ℕ
disconnected id =
    (109 ∷ 111 ∷ 110 ∷ 105 ∷ 116 ∷ 111 ∷ 114 ∷ 32 ∷ 34 ∷ [])
    ++ (id ++ (34 ∷ 32 ∷ 100 ∷ 105 ∷ 115 ∷ 99 ∷ 111 ∷ 110 ∷ 110 ∷ 101 ∷ 99 ∷ 116 ∷ 101 ∷ 100 ∷ []))

abbrev pub Binding : Type 0
Binding = ℕ × BarrierKey

unfoldable pub reconcile_monitors : List Binding → (new old : List MonitorInfo) → List (ℕ × List ℕ)
unfolding is_present
reconcile_monitors [] new old = []
reconcile_monitors ((handle, key) ∷ bindings) new old =
    let rest = reconcile_monitors bindings new old in
    elim key.monitor [
      | none ↦ rest
      | some id ↦
          if is_present id old && not (is_present id new)
          then (handle, disconnected id) ∷ rest
          else rest
    ]

unfoldable pub recover_monitors : List Binding → (new old : List MonitorInfo) → List ℕ
unfolding is_present
recover_monitors [] new old = []
recover_monitors ((handle, key) ∷ bindings) new old =
    let rest = recover_monitors bindings new old in
    elim key.monitor [
      | none ↦ rest
      | some id ↦ if not (is_present id old) && is_present id new then handle ∷ rest else rest
    ]

-- The match of `(old, new)`: the monitor is in both lists, with another rectangle.
unfoldable pub moved : Option MonitorInfo → Option MonitorInfo → Bool
unfolding monitor_geometry_changed
moved (some a) (some b) = monitor_geometry_changed a b
moved _ _ = false

unfoldable pub recreate_monitors :
    List Binding → (new old : List MonitorInfo) → List (ℕ × (BarrierKey × BarrierKey))
unfolding find_monitor moved
recreate_monitors [] new old = []
recreate_monitors ((handle, key) ∷ bindings) new old =
    let rest = recreate_monitors bindings new old in
    elim key.monitor [
      | none ↦ rest
      | some id ↦
          if moved (find_monitor id old) (find_monitor id new)
          then (handle, (key, key)) ∷ rest
          else rest
    ]

unfoldable pub member : ℕ → List ℕ → Bool
member h [] = false
member h (x ∷ xs) = ite (ℕ_discrete x h) true (member h xs)

module _ (slab : Slab Entry) where
  -- The handles with their keys.
  unfoldable pub bindings_of : slab.S → List ℕ → List Binding
  bindings_of cm [] = []
  bindings_of cm (h ∷ hs) =
      let rest = bindings_of cm hs in
      elim (get_key slab h cm) [ none ↦ rest | some key ↦ (h, key) ∷ rest ]

  unfoldable pub detach_phase : List ℕ → List (ℕ × List ℕ) → Service slab → Service slab
  unfolding member
  detach_phase active [] sv = sv
  detach_phase active ((h, reason) ∷ ds) sv =
      detach_phase active ds (if member h active then detach_capture slab h reason sv else sv)

  unfoldable pub reattach_phase : List ℕ → List ℕ → Service slab → Service slab
  unfolding member
  reattach_phase active [] sv = sv
  reattach_phase active (h ∷ hs) sv =
      reattach_phase active hs (if member h active then reattach_capture slab h sv else sv)

  unfoldable pub recreate_phase : List (ℕ × (BarrierKey × BarrierKey)) → Service slab → Service slab
  recreate_phase [] sv = sv
  recreate_phase ((h, keys) ∷ rs) sv =
      recreate_phase rs (activate_client slab h (deactivate_client slab h sv))

  unfoldable pub reconcile_monitors_changed :
      (new_monitors old_monitors : List MonitorInfo) → Service slab → Service slab
  unfolding reconcile_monitors recover_monitors recreate_monitors bindings_of detach_phase
      reattach_phase recreate_phase
  reconcile_monitors_changed new old sv =
      let all_bindings =
        bindings_of sv.client_manager (registered_clients slab sv.client_manager) in
      let active_set = active_clients slab sv.client_manager in
      let detached = detach_phase active_set (reconcile_monitors all_bindings new old) sv in
      let recovered = reattach_phase active_set (recover_monitors all_bindings new old) detached in
      let active_bindings =
        bindings_of recovered.client_manager (active_clients slab recovered.client_manager) in
      recreate_phase (recreate_monitors active_bindings new old) recovered

-- The same list again moves nothing.
moved_same : (o : Option MonitorInfo) → moved o o ≡ false
unfolding moved monitor_geometry_changed
moved_same none = refl
moved_same (some a) =
    rw
      (if_pos (pair-discrete a.position a.position) refl, if_pos (pair-discrete a.size a.size) refl)
      refl

reconcile_same : (bs : List Binding) (ms : List MonitorInfo) → reconcile_monitors bs ms ms ≡ []
unfolding reconcile_monitors
reconcile_same [] ms = refl
reconcile_same (b ∷ bs) ms = elim (Option-cases b.1.monitor) [
  | inl unbound ↦ rw (unbound, reconcile_monitors) (reconcile_same bs ms)
  | inr (id, bound) ↦ elim (Bool-cases (is_present id ms)) [
    | inl present ↦ rw (bound, reconcile_monitors, present) (reconcile_same bs ms)
    | inr absent ↦ rw (bound, reconcile_monitors, absent) (reconcile_same bs ms)
  ]
]

recover_same : (bs : List Binding) (ms : List MonitorInfo) → recover_monitors bs ms ms ≡ []
unfolding recover_monitors
recover_same [] ms = refl
recover_same (b ∷ bs) ms = elim (Option-cases b.1.monitor) [
  | inl unbound ↦ rw (unbound, recover_monitors) (recover_same bs ms)
  | inr (id, bound) ↦ elim (Bool-cases (is_present id ms)) [
    | inl present ↦ rw (bound, recover_monitors, present) (recover_same bs ms)
    | inr absent ↦ rw (bound, recover_monitors, absent) (recover_same bs ms)
  ]
]

recreate_same : (bs : List Binding) (ms : List MonitorInfo) → recreate_monitors bs ms ms ≡ []
unfolding recreate_monitors
recreate_same [] ms = refl
recreate_same (b ∷ bs) ms = elim (Option-cases b.1.monitor) [
  | inl unbound ↦ rw (unbound, recreate_monitors) (recreate_same bs ms)
  | inr (id, bound) ↦
      rw (bound, recreate_monitors, moved_same (find_monitor id ms)) (recreate_same bs ms)
]

-- A notice with the list of monitors that is known already changes no client and sends nothing.
reconcile_monitors_changed-same :
    (slab : Slab Entry) (ms : List MonitorInfo) (sv : Service slab)
    → reconcile_monitors_changed slab ms ms sv ≡ sv
unfolding reconcile_monitors_changed
reconcile_monitors_changed-same slab ms sv =
    rw (reconcile_same _ ms, recover_same _ ms, recreate_same _ ms) refl
