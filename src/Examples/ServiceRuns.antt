-- ===== src/Examples/ServiceRuns.antt =====
-- The service and its barriers on the clients of ClientRuns, with a backend that keeps the list of the
-- barriers that were put up.
use lan_mouse_pro.Common.{
  arith, ℕ, ◌≡◌, refl, true, none, some, List, [], ◌∷◌, Option, sym, zero, suc,
}
use lan_mouse_pro.Capture.Barriers
use lan_mouse_pro.Capture.Barriers.{Backend, InputCapture}
use lan_mouse_pro.Capture.Operations.{create-destroy-panic, key_of_id}
use lan_mouse_pro.Capture.Run.{panic}
use lan_mouse_pro.Client.Manager.{Entry, active_clients, registered_clients, get_key, get_state}
use lan_mouse_pro.Client.Types.{
  Position, BarrierKey, BarrierKey-discrete, ClientConfig, ClientState, CapturePosition,
  to_capture_pos, default_config, default_state,
}
use lan_mouse_pro.Examples.ClientRuns.{managed, left_edge}
use lan_mouse_pro.Examples.Slots.{slots, slot, iter_from}
use lan_mouse_pro.HashMap
use lan_mouse_pro.Capture.Invariant.{IsValid, ids_at, nonempty}
use mathlib.Core.Logic.{if_pos, if_neg}
use lan_mouse_pro.Service.Armed.{Sound}
use lan_mouse_pro.Service.Handlers
use lan_mouse_pro.Service.Handlers.{Service, detach_capture, reattach_capture, deactivate_client}
use lan_mouse_pro.Service.Requests.{FrontendRequest, handle_all}
use lan_mouse_pro.Service.Serving.{IsSafe, handle_all-IsSafe}
use lan_mouse_pro.Service.Sides.{HasSides, start-handle_all-HasSides}
use lan_mouse_pro.Service.Start.{no_barriers, start-Sound}
use lan_mouse_pro.Service.Barriers.{Armed, barrier_of, serve_log}
use lan_mouse_pro.Service.Detach.{
  reattach-detach-Sound, deactivate-detach-panic, reattach-Armed-panic,
}
use lan_mouse_pro.Service.Monitors.{bytes-discrete, MonitorInfo, reconcile_monitors_changed}
use mathlib.Core.Option.{none-ne-some}
use native.Mathlib.Decide.{ℕ_discrete}

-- Every request is served.
abbrev steady : Backend (List BarrierKey)
steady = record { create = λ key ks. some (key ∷ ks); destroy = λ key ks. some ks }

abbrev blank : InputCapture (List BarrierKey)
blank = no_barriers []

start-Sound_example :
    Sound
      (slots Entry)
      steady
      blank
      (Handlers.start (slots Entry) (record { client_manager = managed; log = [] }))
start-Sound_example = start-Sound (slots Entry) steady [] managed

-- The second client of the list is active; the first is activated, moved and deleted.
abbrev requests : List FrontendRequest
requests =
    FrontendRequest.activate 0 true
    ∷ FrontendRequest.new_position 0 Position.right
    ∷ FrontendRequest.create
    ∷ FrontendRequest.delete 1
    ∷ []

handle_all-IsSafe_example : IsSafe (slots Entry) steady blank (
    handle_all
      (slots Entry)
      requests
      (Handlers.start (slots Entry) (record { client_manager = managed; log = [] })))
handle_all-IsSafe_example =
    handle_all-IsSafe (slots Entry) steady blank requests
      (Handlers.start (slots Entry) (record { client_manager = managed; log = [] }))
      (start-Sound (slots Entry) steady [] managed)

start-handle_all-HasSides_example : HasSides (slots Entry) (
    handle_all
      (slots Entry)
      requests
      (Handlers.start (slots Entry) (record { client_manager = managed; log = [] })))
start-handle_all-HasSides_example = start-handle_all-HasSides (slots Entry) managed requests

-- One barrier.
abbrev armed : InputCapture (List BarrierKey)
armed = record {
  capture = left_edge ∷ [];
  position_map = (left_edge, 4 ∷ []) ∷ [];
  id_map = (4, left_edge) ∷ [];
  pressed_keys = [];
  pending = [];
}

armed-IsValid : IsValid armed
unfolding HashMap.get ids_at nonempty
armed-IsValid = record {
  ids_Distinct = (refl, tt);
  keys_Distinct = (refl, tt);
  inverse = λ key. elim (BarrierKey-discrete left_edge key) [
    | yes p ↦
        rw
          (
            if_pos (BarrierKey-discrete left_edge key) p,
            if_pos (BarrierKey-discrete left_edge key) p,
          )
          refl
    | no p ↦
        rw
          (
            if_neg (BarrierKey-discrete left_edge key) p,
            if_neg (BarrierKey-discrete left_edge key) p,
          )
          refl
  ];
}

create-destroy-panic_example :
    ((key old : BarrierKey)
      → key_of_id 4 armed.id_map ≡ some old
      → Barriers.create steady 4 key armed ≡ panic)
    × (key_of_id 4 armed.id_map ≡ none → Barriers.destroy steady 4 armed ≡ panic)
create-destroy-panic_example = create-destroy-panic steady 4 armed

abbrev screen : MonitorInfo
screen = record {
  id = 77 ∷ [];
  name = [];
  position = (0, 0);
  size = (1920, 1080);
  primary = true;
  scale = 0;
}

-- One active client, bound to the screen.
abbrev bound_client : ClientConfig
bound_client = record default_config { monitor = some (77 ∷ []) }

abbrev is_on : ClientState
is_on = record default_state { active = true }

abbrev bound : List (Option Entry)
bound = some (bound_client, is_on) ∷ []

abbrev bound_key : BarrierKey
bound_key = record {
  pos = CapturePosition.left;
  monitor = some (77 ∷ []);
  offset = 0;
  span = 10000;
}

abbrev bound_capture : InputCapture (List BarrierKey)
bound_capture = record {
  capture = bound_key ∷ [];
  position_map = (bound_key, 0 ∷ []) ∷ [];
  id_map = (0, bound_key) ∷ [];
  pressed_keys = [];
  pending = [];
}

bound-barriers :
    (q : ℕ) → key_of_id q bound_capture.id_map ≡ barrier_of (slots Entry) (slot q bound)
unfolding HashMap.get slot barrier_of to_capture_pos
bound-barriers zero = if_pos (ℕ_discrete 0 0) refl _ _
bound-barriers (suc q) = if_neg (ℕ_discrete 0 (suc q)) (λ h. omega arith) _ _

bound-Armed : Armed (slots Entry) steady bound_capture bound bound_capture
unfolding HashMap.get ids_at nonempty slot barrier_of to_capture_pos ℕ_discrete
bound-Armed = (
  record {
    ids_Distinct = (refl, tt);
    keys_Distinct = (refl, tt);
    inverse = λ key. elim (BarrierKey-discrete bound_key key) [
      | yes p ↦
          rw
            (
              if_pos (BarrierKey-discrete bound_key key) p,
              if_pos (BarrierKey-discrete bound_key key) p,
            )
            refl
      | no p ↦
          rw
            (
              if_neg (BarrierKey-discrete bound_key key) p,
              if_neg (BarrierKey-discrete bound_key key) p,
            )
            refl
    ];
  },
  bound-barriers,
)

reattach-detach-Sound_example : Sound (slots Entry) steady bound_capture (
    reattach_capture
      (slots Entry)
      0
      (detach_capture (slots Entry) 0 [] (record { client_manager = bound; log = [] })))
unfolding slot serve_log
reattach-detach-Sound_example =
    reattach-detach-Sound (slots Entry) steady bound_capture 0 []
      (record { client_manager = bound; log = [] }) bound_client is_on refl refl bound-Armed

deactivate-detach-panic_example :
    serve_log steady
      (deactivate_client
        (slots Entry)
        0
        (detach_capture (slots Entry) 0 [] (record { client_manager = bound; log = [] }))).log
      bound_capture
    ≡ panic
unfolding slot
deactivate-detach-panic_example =
    deactivate-detach-panic (slots Entry) steady (λ key ks h. none-ne-some ks (sym h)) 0 [] bound
      bound_client is_on bound_capture refl refl bound-Armed

reattach-Armed-panic_example :
    serve_log steady
      (reattach_capture (slots Entry) 0 (record { client_manager = bound; log = [] })).log
      bound_capture
    ≡ panic
unfolding slot
reattach-Armed-panic_example =
    reattach-Armed-panic (slots Entry) steady 0 bound bound_client is_on bound_capture refl refl
      bound-Armed

-- The screen is plugged in after its client was activated.
plugged_in :
    serve_log steady
      (reconcile_monitors_changed
        (slots Entry)
        (screen ∷ [])
        []
        (record { client_manager = bound; log = [] })).log
      bound_capture
    ≡ panic
unfolding serve_log reconcile_monitors_changed active_clients iter_from registered_clients get_key
    slot bytes-discrete ℕ_discrete reattach_capture get_state Barriers.create HashMap.get
plugged_in = refl
