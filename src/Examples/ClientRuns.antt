-- ===== src/Examples/ClientRuns.antt =====
-- The client manager on a few clients: two of them on the left, one of them active.
use lan_mouse_pro.Common.{◌≡◌, refl, true, false, Option, none, some, List, [], ◌∷◌}
use lan_mouse_pro.Client.Types.{
  Position, IpAddr, SocketAddr, CapturePosition, default_input_channels, ConfigClient, BarrierKey,
  ClientState, text-discrete, Bool-discrete, IpAddr-discrete,
}
use lan_mouse_pro.Client.Manager.{
  Entry, get_client, set_hostname, from_iter, set_enable_clipboard_to, set_dns_ips, add_with_config,
}
use lan_mouse_pro.Client.Calls.{Call, calls}
use lan_mouse_pro.Client.Union.{IsUnion, calls-IsUnion}
use lan_mouse_pro.Client.View.{Unmoved, config_of, state_of}
use lan_mouse_pro.Client.Effects.{set_enable_clipboard_to-answer, set_hostname-cases}
use lan_mouse_pro.Examples.Slots
use lan_mouse_pro.Examples.Slots.{slots, slot}
use native.Mathlib.Decide.{ℕ_discrete}

abbrev pub laptop : ConfigClient
laptop = record {
  ips = IpAddr.v4 5 ∷ [];
  hostname = some (108 ∷ []);
  port = 4242;
  pos = Position.left;
  active = false;
  enter_hook = none;
  input_channels = default_input_channels;
  monitor = none;
  enable_clipboard_to = true;
}

abbrev pub desk : ConfigClient
desk = record laptop { ips = IpAddr.v4 6 ∷ []; active = true }

abbrev first_calls : List Call
first_calls =
    Call.add_with laptop ∷ Call.add_with desk ∷ Call.dns_ips 0 (IpAddr.v4 7 ∷ IpAddr.v4 5 ∷ []) ∷ []

abbrev pub laptop_state : ClientState
laptop_state = record {
  active = false;
  active_addr = none;
  dns_ips = IpAddr.v4 7 ∷ IpAddr.v4 5 ∷ [];
  ips = IpAddr.v4 7 ∷ IpAddr.v4 5 ∷ [];
  has_pressed_keys = false;
  resolving = false;
  peer_commit = none;
}

-- The manager after those calls.
abbrev pub managed : List (Option Entry)
managed =
    some (config_of (slots Entry) laptop, laptop_state)
    ∷ some (config_of (slots Entry) desk, state_of (slots Entry) desk)
    ∷ []

calls-IsUnion_example : IsUnion (config_of (slots Entry) desk, state_of (slots Entry) desk)
unfolding calls slot set_dns_ips add_with_config Slots.append_slot Slots.put_slot
calls-IsUnion_example = calls-IsUnion (slots Entry) first_calls 1 _ refl

abbrev pub left_edge : BarrierKey
left_edge = record { pos = CapturePosition.left; monitor = none; offset = 0; span = 10000 }

abbrev desk_address : SocketAddr
desk_address = record { ip = IpAddr.v4 6; port = 9 }

-- The second client answers to its address.
get_client_run : get_client (slots Entry) desk_address managed ≡ some 1
unfolding get_client Slots.iter_from IpAddr-discrete from_iter ℕ_discrete
get_client_run = refl

-- The flag of the inactive client is turned off, and the answer is false.
set_enable_clipboard_to-answer_example :
    let (after, answer) = set_enable_clipboard_to (slots Entry) 0 false managed in
    ((slot 0 after
        ≡ some
            (record (config_of (slots Entry) laptop) { enable_clipboard_to = false }, laptop_state))
      × (answer ≡ false))
    × Unmoved (slots Entry) 0 managed after
unfolding slot Bool-discrete
set_enable_clipboard_to-answer_example =
    set_enable_clipboard_to-answer (slots Entry) 0 managed false _ laptop_state refl

set_hostname-cases_example :
    let (after, answer) = set_hostname (slots Entry) 0 none managed in
    ((slot 0 after
        ≡ some (
          record (config_of (slots Entry) laptop) { hostname = none },
          record laptop_state {
            active_addr = none;
            dns_ips = [];
            ips = from_iter (IpAddr.v4 5 ∷ []);
          },
        ))
      × (answer ≡ true))
    × Unmoved (slots Entry) 0 managed after
unfolding slot text-discrete
set_hostname-cases_example = set_hostname-cases (slots Entry) 0 managed none _ laptop_state refl
