-- ===== src/Wire/EventTypes.antt =====
-- lan-mouse-proto/src/lib.rs: the type byte of an event (`EventType`, `ProtoEvent::event_type`), and
-- the conversions that `TryFromPrimitive` and `IntoPrimitive` derive for the two `repr(u8)` enums.
use lan_mouse_pro.Common.{ℕ, zero, suc, Bool, true, false, Option, none, some, List, [], ◌∷◌}
use lan_mouse_pro.Wire.Outcome.{Outcome, ok, err, invalid_event_id, invalid_position}
use lan_mouse_pro.Wire.Types.{
  Position, PointerEvent, KeyboardEvent, InputEvent, ProtoEvent, EventType,
}

-- The value of the enum's `n`th constructor, in the order of the source.
unfoldable pub nth {ℓ} : {A : Type ℓ} → List A → ℕ → Option A
nth [] n = none
nth (x ∷ xs) zero = some x
nth (x ∷ xs) (suc n) = nth xs n

abbrev pub all_positions : List Position
all_positions = Position.left ∷ Position.right ∷ Position.top ∷ Position.bottom ∷ []

unfoldable pub position_code : Position → ℕ
position_code Position.left = 0
position_code Position.right = 1
position_code Position.top = 2
position_code Position.bottom = 3

unfoldable pub position_of : ℕ → Outcome Position
unfolding nth
position_of n = elim (nth all_positions n) [ none ↦ err (invalid_position n) | some p ↦ ok p ]

abbrev pub all_event_types : List EventType
all_event_types =
    EventType.pointer_motion ∷ EventType.pointer_button ∷ EventType.pointer_axis
    ∷ EventType.pointer_axis_value120 ∷ EventType.keyboard_key ∷ EventType.keyboard_modifiers
    ∷ EventType.ping ∷ EventType.pong ∷ EventType.enter ∷ EventType.leave ∷ EventType.ack
    ∷ EventType.hello ∷ EventType.clipboard_text ∷ EventType.clipboard_image
    ∷ EventType.clipboard_files ∷ EventType.file_transfer_offer ∷ EventType.file_transfer_response
    ∷ EventType.file_transfer_cancel ∷ EventType.clipboard_request ∷ []

unfoldable pub event_code : EventType → ℕ
event_code EventType.pointer_motion = 0
event_code EventType.pointer_button = 1
event_code EventType.pointer_axis = 2
event_code EventType.pointer_axis_value120 = 3
event_code EventType.keyboard_key = 4
event_code EventType.keyboard_modifiers = 5
event_code EventType.ping = 6
event_code EventType.pong = 7
event_code EventType.enter = 8
event_code EventType.leave = 9
event_code EventType.ack = 10
event_code EventType.hello = 11
event_code EventType.clipboard_text = 12
event_code EventType.clipboard_image = 13
event_code EventType.clipboard_files = 14
event_code EventType.file_transfer_offer = 15
event_code EventType.file_transfer_response = 16
event_code EventType.file_transfer_cancel = 17
event_code EventType.clipboard_request = 18

unfoldable pub event_type_of : ℕ → Outcome EventType
unfolding nth
event_type_of n = elim (nth all_event_types n) [ none ↦ err (invalid_event_id n) | some t ↦ ok t ]

unfoldable pub is_fixed : EventType → Bool
is_fixed EventType.pointer_motion = true
is_fixed EventType.pointer_button = true
is_fixed EventType.pointer_axis = true
is_fixed EventType.pointer_axis_value120 = true
is_fixed EventType.keyboard_key = true
is_fixed EventType.keyboard_modifiers = true
is_fixed EventType.ping = true
is_fixed EventType.pong = true
is_fixed EventType.enter = true
is_fixed EventType.leave = true
is_fixed EventType.ack = true
is_fixed EventType.hello = true
is_fixed _ = false

input_type : InputEvent → EventType
input_type (InputEvent.pointer (PointerEvent.motion time dx dy)) = EventType.pointer_motion
input_type (InputEvent.pointer (PointerEvent.button time button state)) = EventType.pointer_button
input_type (InputEvent.pointer (PointerEvent.axis time axis value)) = EventType.pointer_axis
input_type (InputEvent.pointer (PointerEvent.axis_discrete120 axis value)) =
    EventType.pointer_axis_value120
input_type (InputEvent.keyboard (KeyboardEvent.key time key state)) = EventType.keyboard_key
input_type (InputEvent.keyboard (KeyboardEvent.modifiers depressed latched locked group)) =
    EventType.keyboard_modifiers

unfoldable pub event_type : ProtoEvent → EventType
unfolding input_type
event_type (ProtoEvent.enter p) = EventType.enter
event_type (ProtoEvent.leave n) = EventType.leave
event_type (ProtoEvent.ack n) = EventType.ack
event_type (ProtoEvent.input e) = input_type e
event_type ProtoEvent.ping = EventType.ping
event_type (ProtoEvent.pong b) = EventType.pong
event_type (ProtoEvent.hello magic commit) = EventType.hello
event_type (ProtoEvent.clipboard_text e) = EventType.clipboard_text
event_type (ProtoEvent.clipboard_image e) = EventType.clipboard_image
event_type (ProtoEvent.clipboard_files e) = EventType.clipboard_files
event_type (ProtoEvent.file_transfer_offer e) = EventType.file_transfer_offer
event_type (ProtoEvent.file_transfer_response e) = EventType.file_transfer_response
event_type (ProtoEvent.file_transfer_cancel e) = EventType.file_transfer_cancel
event_type (ProtoEvent.clipboard_request e) = EventType.clipboard_request
