-- ===== src/Wire/Dispatch/FixedRoundTrip.antt =====
-- The fixed-size events through the universal dispatcher.
use lan_mouse_pro.Common.{ℕ, ◌≡◌, refl, Bool, true, false}
use lan_mouse_pro.Wire.Bytes.{to_be_bytes, from_be_bytes-to_be_bytes as back, from_be_bytes}
use lan_mouse_pro.Wire.Dispatch.{encode_event, decode_event}
use lan_mouse_pro.Wire.Fixed.{encode_fixed, decode_fixed}
use lan_mouse_pro.Wire.Fixed.Valid.{IsInput, IsU32}
use lan_mouse_pro.Wire.Outcome.{ok, ◌>>=◌}
use lan_mouse_pro.Wire.Types.{Position, PointerEvent, KeyboardEvent, InputEvent, ProtoEvent}

pub decode-encode_input :
    (e : InputEvent)
    → IsInput e
    → (encode_event (ProtoEvent.input e) >>= decode_event) ≡ ok (ProtoEvent.input e)
unfolding encode_event decode_event encode_fixed decode_fixed to_be_bytes from_be_bytes
decode-encode_input (InputEvent.pointer (PointerEvent.motion time dx dy)) (t, x, y) = λ i. ok (
    ProtoEvent.input
      (InputEvent.pointer (PointerEvent.motion (back 4 time t i) (back 8 dx x i) (back 8 dy y i))))
decode-encode_input (InputEvent.pointer (PointerEvent.button time button state)) (t, b, s) = λ i.
    ok (
      ProtoEvent.input (
        InputEvent.pointer
          (PointerEvent.button (back 4 time t i) (back 4 button b i) (back 4 state s i))))
decode-encode_input (InputEvent.pointer (PointerEvent.axis time axis value)) (t, a, v) = λ i. ok (
    ProtoEvent.input (
      InputEvent.pointer
        (PointerEvent.axis (back 4 time t i) (back 1 axis a i) (back 8 value v i))))
decode-encode_input (InputEvent.pointer (PointerEvent.axis_discrete120 axis value)) (a, v) = λ i.
    ok (
      ProtoEvent.input
        (InputEvent.pointer (PointerEvent.axis_discrete120 (back 1 axis a i) (back 4 value v i))))
decode-encode_input (InputEvent.keyboard (KeyboardEvent.key time key state)) (t, k, s) = λ i. ok (
    ProtoEvent.input (
      InputEvent.keyboard
        (KeyboardEvent.key (back 4 time t i) (back 4 key k i) (back 1 state s i))))
decode-encode_input (InputEvent.keyboard (KeyboardEvent.modifiers depressed latched locked group))
      (d, l, m, g) =
    λ i. ok (
      ProtoEvent.input (
        InputEvent.keyboard (
          KeyboardEvent.modifiers (back 4 depressed d i) (back 4 latched l i) (back 4 locked m i)
            (back 4 group g i))))

pub decode-encode_leave :
    (n : ℕ)
    → IsU32 n
    → (encode_event (ProtoEvent.leave n) >>= decode_event) ≡ ok (ProtoEvent.leave n)
unfolding encode_event decode_event encode_fixed decode_fixed to_be_bytes from_be_bytes
decode-encode_leave n h = λ i. ok (ProtoEvent.leave (back 4 n h i))

pub decode-encode_ack :
    (n : ℕ) → IsU32 n → (encode_event (ProtoEvent.ack n) >>= decode_event) ≡ ok (ProtoEvent.ack n)
unfolding encode_event decode_event encode_fixed decode_fixed to_be_bytes from_be_bytes
decode-encode_ack n h = λ i. ok (ProtoEvent.ack (back 4 n h i))

pub decode-encode_ping : (encode_event ProtoEvent.ping >>= decode_event) ≡ ok ProtoEvent.ping
unfolding encode_event decode_event encode_fixed decode_fixed to_be_bytes from_be_bytes
decode-encode_ping = refl

pub decode-encode_pong :
    (b : Bool) → (encode_event (ProtoEvent.pong b) >>= decode_event) ≡ ok (ProtoEvent.pong b)
unfolding encode_event decode_event encode_fixed decode_fixed to_be_bytes from_be_bytes
decode-encode_pong true = refl
decode-encode_pong false = refl

pub decode-encode_enter :
    (p : Position) → (encode_event (ProtoEvent.enter p) >>= decode_event) ≡ ok (ProtoEvent.enter p)
unfolding encode_event decode_event encode_fixed decode_fixed to_be_bytes from_be_bytes
decode-encode_enter Position.left = refl
decode-encode_enter Position.right = refl
decode-encode_enter Position.top = refl
decode-encode_enter Position.bottom = refl
