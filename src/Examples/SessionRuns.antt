-- ===== src/Examples/SessionRuns.antt =====
-- Witnesses: the theorems about the capture task at a world that is a clock, whose backend reports a
-- crossing of the left edge, its promotion and a key at certain times.
use lan_mouse_pro.Common.{
  ℕ, ◌≡◌, refl, true, false, ◌==◌, if◌then◌else◌, Option, none, some, List, [], ◌∷◌, ◌+◌, arith,
}
use lan_mouse_pro.Capture.Barriers.{CaptureEvent}
use lan_mouse_pro.Capture.Barriers.{InputCapture}
use lan_mouse_pro.Capture.Order.{BarrierCall, barrier_calls, order_of, barrier_calls-poll_times}
use lan_mouse_pro.Capture.Stream.{Poll, poll_times, track_keys, keys_pressed, contains_key}
use lan_mouse_pro.Client.Types.{CapturePosition, BarrierKey, BarrierKey-discrete}
use lan_mouse_pro.HashMap
use lan_mouse_pro.Session.Events.{
  find_capture, on_begin_pending, send_enter, begin_pending, entered_pending,
}
use lan_mouse_pro.Session.Lifetime.{new_capture, new_task, create_captures, open_session, run}
use lan_mouse_pro.Session.Outcome.{done, panic, Partly, Continues}
use lan_mouse_pro.Session.Outside.{
  Outside, send, cancel_pending, with_world, with_state, refresh, instant,
}
use lan_mouse_pro.Session.Received.{on_received}
use lan_mouse_pro.Session.Release.{release_capture}
use lan_mouse_pro.Session.Released.{IsHeld, Releases, release_capture-Releases}
use lan_mouse_pro.Session.Runs.{run-IsHeld}
use lan_mouse_pro.Session.Steps.{Branch, step}
use lan_mouse_pro.Session.Known.{IsKnown}
use lan_mouse_pro.Session.NoPanic.{step-IsKnown}
use lan_mouse_pro.Session.Queued.{destroy-queued-panic}
use lan_mouse_pro.Session.Restart.{open_session-IsKnown}
use lan_mouse_pro.Session.Timeout.{
  crossed_and_ticked, IsFresh, IsHealthy, on_pending_tick-IsFresh, run_watchdog_heavy-IsHealthy,
  late_ack-sending,
}
use lan_mouse_pro.Capture.Run.{Safe}
use lan_mouse_pro.Capture.Invariant.{IsValid, ids_at, nonempty}
use mathlib.Core.Logic.{if_pos, if_neg}
use native.Mathlib.Decide.{ℕ_discrete}
use lan_mouse_pro.Session.Types.{State, CaptureType, CaptureRequest, CaptureTask, default_watchdog}
use lan_mouse_pro.Session.Watchdog.{
  is_timed_out, on_pending_tick, run_watchdog_light, run_watchdog_heavy,
}
use lan_mouse_pro.Wire.Types.{ProtoEvent, InputEvent, KeyboardEvent}

abbrev left_edge : BarrierKey
left_edge = record { pos = CapturePosition.left; monitor = none; offset = 0; span = 10000 }

abbrev key_a : CaptureEvent
key_a = CaptureEvent.input (InputEvent.keyboard (KeyboardEvent.key 0 30 1))

abbrev report : ℕ → Poll (BarrierKey × CaptureEvent)
report b =
    if b == 10
    then Poll.item (left_edge, CaptureEvent.begin_pending)
    else (if b == 20
        then Poll.item (left_edge, CaptureEvent.begin)
        else (if b == 30 then Poll.item (left_edge, key_a) else Poll.not_ready))

abbrev clock : Outside ℕ
clock = record {
  barriers = record { create = λ key b. some b; destroy = λ key b. some b };
  poll = λ b. (report b, b);
  release = λ b. (true, b);
  terminate = λ b. (true, b);
  start_capture = λ key b. (true, b);
  cancel_pending = λ key b. (true, b);
  monitors = λ b. [];
  send = λ event handle b. (true, b + 1);
  dial = λ handle b. b;
  now = λ b. b;
  same_monitors = λ a b. true;
  watchdog_env = none;
}

abbrev fresh : CaptureTask ℕ
fresh = new_task (29 ∷ 56 ∷ []) default_watchdog 0 0

-- A capture is created; the edge is crossed, the peer answers, the capture begins and sends a key.
abbrev crossing : List (ℕ × Branch)
crossing =
    (1, Branch.request (CaptureRequest.create 4 left_edge CaptureType.default))
    ∷ (10, Branch.next_event)
    ∷ (15, Branch.received 4 (ProtoEvent.ack 0))
    ∷ (20, Branch.next_event)
    ∷ (30, Branch.next_event)
    ∷ []

abbrev rounds : List (Option ℕ × (List (ℕ × Branch) × List CaptureRequest))
rounds = (some 0, (crossing, CaptureRequest.reenable ∷ [])) ∷ []

run-IsHeld_example :
    Partly
      (λ t. IsHeld t × (run_watchdog_light clock t ≡ t))
      (run clock rounds (new_task (29 ∷ 56 ∷ []) default_watchdog 0 0))
run-IsHeld_example = run-IsHeld clock rounds (29 ∷ 56 ∷ []) default_watchdog 0 0

-- The task Sending to the client 4, a key held.
abbrev busy : CaptureTask ℕ
busy = record {
  capture = record (new_capture 40) {
    pressed_keys = 30 ∷ [];
    position_map = (left_edge, 4 ∷ []) ∷ [];
    id_map = (4, left_edge) ∷ [];
    pending = (4, CaptureEvent.begin_pending) ∷ [];
  };
  active_client = some 4;
  captures = record { handle = 4; key = left_edge; capture_type = CaptureType.default } ∷ [];
  release_bind = 29 ∷ 56 ∷ [];
  state = State.sending;
  release_bind_prev = false;
  watchdog = record { consecutive_send_failures = 3; recent_crossings = []; last_progress_at = 40 };
  watchdog_config = default_watchdog;
  last_monitors = [];
  sent = [];
  emitted = [];
}

release_capture-Releases_example : Releases clock busy (release_capture clock busy).1
release_capture-Releases_example = release_capture-Releases clock busy

busy-IsKnown : IsKnown busy
unfolding HashMap.get find_capture ids_at nonempty
busy-IsKnown = record {
  ids_Distinct = (refl, tt);
  keys_Distinct = (refl, tt);
  inverse = λ key. elim (BarrierKey-discrete left_edge key) [
    | yes p ↦
        rw
          (
            if_pos (BarrierKey-discrete left_edge key) p,
            if_pos (BarrierKey-discrete left_edge key) p,
          )
          refl
    | no p ↦
        rw
          (
            if_neg (BarrierKey-discrete left_edge key) p,
            if_neg (BarrierKey-discrete left_edge key) p,
          )
          refl
  ];
  same_keys = λ h. ground arith;
  queue = ((λ e. ground arith), tt);
}

step-IsKnown_example : Continues IsKnown (step clock Branch.next_event busy)
step-IsKnown_example = step-IsKnown clock Branch.next_event busy busy-IsKnown tt

destroy-queued-panic_example :
    Continues
      (λ after. step clock Branch.next_event after ≡ panic)
      (step clock (Branch.request (CaptureRequest.destroy 4)) busy)
unfolding keys_pressed find_capture contains_key ℕ_discrete
destroy-queued-panic_example =
    destroy-queued-panic clock 4 CaptureEvent.begin_pending [] busy busy-IsKnown
      busy-IsKnown.queue.0 refl refl

open_session-IsKnown_example :
    Safe
      (λ ic. IsKnown (record (open_session clock 0 busy) { capture = ic }))
      (create_captures clock
        (open_session clock 0 busy).captures
        (open_session clock 0 busy).capture)
unfolding find_capture
open_session-IsKnown_example = open_session-IsKnown clock 0 busy (refl, tt)

-- The capture is pending since 100 ms, and the clock shows 600.
abbrev waiting : CaptureTask ℕ
waiting = record busy { capture = new_capture 600; state = State.pending 4 left_edge 100 }

on_pending_tick-IsFresh_example :
    IsFresh (instant clock waiting) (on_pending_tick clock waiting.state waiting).state
    × ((on_pending_tick clock waiting.state waiting).sent ≡ waiting.sent)
on_pending_tick-IsFresh_example = on_pending_tick-IsFresh clock waiting

run_watchdog_heavy-IsHealthy_example :
    IsHealthy clock (instant clock busy) (run_watchdog_heavy clock busy)
run_watchdog_heavy-IsHealthy_example = run_watchdog_heavy-IsHealthy clock busy

-- The edge is crossed again at 40, while the client 4 is active; the tick comes at 600, the Ack at 700.
late_ack-sending_example :
    on_received clock 4
      (ProtoEvent.ack 0)
      (with_world (crossed_and_ticked clock 4 left_edge 600 busy) 700)
    ≡ done (
        with_state State.sending
          (refresh clock (with_world (crossed_and_ticked clock 4 left_edge 600 busy) 700)))
unfolding on_begin_pending send_enter send begin_pending entered_pending on_pending_tick
    is_timed_out instant refresh cancel_pending
late_ack-sending_example = late_ack-sending clock 4 4 0 left_edge 600 700 busy refl refl

-- Three handles at the left edge, of which the second is gone when a key comes.
abbrev calls : List BarrierCall
calls =
    BarrierCall.create 4 left_edge
    ∷ BarrierCall.create 2 left_edge
    ∷ BarrierCall.create 3 left_edge
    ∷ BarrierCall.destroy 2
    ∷ []

abbrev edged : InputCapture ℕ
edged = record {
  capture = 30;
  position_map = (left_edge, 4 ∷ 3 ∷ []) ∷ [];
  id_map = (4, left_edge) ∷ (3, left_edge) ∷ [];
  pressed_keys = [];
  pending = [];
}

new_capture-IsValid : IsValid {B = ℕ} (new_capture 30)
unfolding ids_at nonempty HashMap.get
new_capture-IsValid = record { ids_Distinct = tt; keys_Distinct = tt; inverse = λ key. refl }

barrier_calls-poll_times_example : poll_times clock.poll 2 edged ≡ (
  Poll.item (4, key_a) ∷ Poll.item (3, key_a) ∷ [],
  track_keys key_a (record edged { capture = 30 }),
)
unfolding barrier_calls order_of ids_at HashMap.get HashMap.put HashMap.erase BarrierKey-discrete
    ℕ_discrete
barrier_calls-poll_times_example =
    barrier_calls-poll_times clock.barriers clock.poll calls (new_capture 30) edged left_edge key_a
      30 [] 4 (3 ∷ []) new_capture-IsValid refl refl refl refl refl
