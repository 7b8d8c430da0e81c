-- ===== src/Transport/FixedFrames.antt =====
-- src/quic_transport/protocol.rs: the frames of the events of fixed size.
use lan_mouse_pro.Common.{
  ℕ, ◌≡◌, ◌≤◌, refl, ap, ◌∙◌, Bool, true, false, arith, List, ◌∷◌, ◌++◌, length, take, replicate,
  take-append, length-append, append_assoc,
}
use lan_mouse_pro.Transport.Frames.{padded}
use lan_mouse_pro.Wire.Bytes.{to_be_bytes, from_be_bytes}
use lan_mouse_pro.Wire.Dispatch.{encode_event, decode_event}
use lan_mouse_pro.Wire.Dispatch.FixedRoundTrip.{
  decode-encode_input, decode-encode_leave, decode-encode_ack, decode-encode_ping,
  decode-encode_pong, decode-encode_enter,
}
use lan_mouse_pro.Wire.Dispatch.HelloRoundTrip.{encode_fixed-hello, decode_fixed-hello}
use lan_mouse_pro.Wire.Dispatch.RoundTrip.{IsEvent}
use lan_mouse_pro.Wire.EventTypes.{event_type, is_fixed}
use lan_mouse_pro.Wire.Fixed.{encode_fixed, decode_fixed}
use lan_mouse_pro.Wire.Fixed.Valid.{IsInput, IsU32, IsArray8}
use lan_mouse_pro.Wire.Outcome.{ok}
use lan_mouse_pro.Wire.Types.{Position, PointerEvent, KeyboardEvent, InputEvent, ProtoEvent}

-- The array of the event, the bytes of it that are sent, and the array that the reader makes of them.
pub record IsFixedFrame (e : ProtoEvent) (arr : List ℕ) (len : ℕ) : Type 0 where
  pub encodes : encode_fixed e ≡ ok (arr, len)
  pub is_small : len ≤ 21
  pub is_sized : length (take len arr) ≡ len
  pub is_padded : padded len (take len arr) ≡ arr
  pub decodes : decode_fixed (padded len (take len arr)) ≡ ok e

abbrev pub HasFixedFrame : ProtoEvent → Type 0
HasFixedFrame e = (arr : List ℕ) × ((len : ℕ) × IsFixedFrame e arr len)

module _ (e : ProtoEvent) (arr : List ℕ) (len : ℕ) where
  framed :
      encode_fixed e ≡ ok (arr, len)
      → len ≤ 21
      → length (take len arr) ≡ len
      → padded len (take len arr) ≡ arr
      → decode_fixed (padded len (take len arr)) ≡ ok e
      → HasFixedFrame e
  framed encodes is_small is_sized is_padded decodes = (
    arr,
    (
      len,
      record {
        encodes = encodes;
        is_small = is_small;
        is_sized = is_sized;
        is_padded = is_padded;
        decodes = decodes;
      },
    ),
  )

ping-HasFixedFrame : HasFixedFrame ProtoEvent.ping
unfolding encode_event decode_event encode_fixed decode_fixed to_be_bytes from_be_bytes
ping-HasFixedFrame = framed ProtoEvent.ping _ _ refl (omega arith) refl refl decode-encode_ping

input-HasFixedFrame : (e : InputEvent) → IsInput e → HasFixedFrame (ProtoEvent.input e)
unfolding encode_event decode_event encode_fixed decode_fixed to_be_bytes from_be_bytes
input-HasFixedFrame (InputEvent.pointer (PointerEvent.motion time dx dy)) v =
    framed (ProtoEvent.input (InputEvent.pointer (PointerEvent.motion time dx dy))) _ _ refl
      (omega arith) refl refl
      (decode-encode_input (InputEvent.pointer (PointerEvent.motion time dx dy)) v)
input-HasFixedFrame (InputEvent.pointer (PointerEvent.button time button state)) v =
    framed (ProtoEvent.input (InputEvent.pointer (PointerEvent.button time button state))) _ _ refl
      (omega arith) refl refl
      (decode-encode_input (InputEvent.pointer (PointerEvent.button time button state)) v)
input-HasFixedFrame (InputEvent.pointer (PointerEvent.axis time axis value)) v =
    framed (ProtoEvent.input (InputEvent.pointer (PointerEvent.axis time axis value))) _ _ refl
      (omega arith) refl refl
      (decode-encode_input (InputEvent.pointer (PointerEvent.axis time axis value)) v)
input-HasFixedFrame (InputEvent.pointer (PointerEvent.axis_discrete120 axis value)) v =
    framed (ProtoEvent.input (InputEvent.pointer (PointerEvent.axis_discrete120 axis value))) _ _
      refl (omega arith) refl refl
      (decode-encode_input (InputEvent.pointer (PointerEvent.axis_discrete120 axis value)) v)
input-HasFixedFrame (InputEvent.keyboard (KeyboardEvent.key time key state)) v =
    framed (ProtoEvent.input (InputEvent.keyboard (KeyboardEvent.key time key state))) _ _ refl
      (omega arith) refl refl
      (decode-encode_input (InputEvent.keyboard (KeyboardEvent.key time key state)) v)
input-HasFixedFrame (InputEvent.keyboard (KeyboardEvent.modifiers depressed latched locked group))
      v =
    framed
      (ProtoEvent.input
        (InputEvent.keyboard (KeyboardEvent.modifiers depressed latched locked group)))
      _ _ refl (omega arith) refl refl
      (decode-encode_input
        (InputEvent.keyboard (KeyboardEvent.modifiers depressed latched locked group)) v)

leave-HasFixedFrame : (n : ℕ) → IsU32 n → HasFixedFrame (ProtoEvent.leave n)
unfolding encode_event decode_event encode_fixed decode_fixed to_be_bytes from_be_bytes
leave-HasFixedFrame n v =
    framed (ProtoEvent.leave n) _ _ refl (omega arith) refl refl (decode-encode_leave n v)

ack-HasFixedFrame : (n : ℕ) → IsU32 n → HasFixedFrame (ProtoEvent.ack n)
unfolding encode_event decode_event encode_fixed decode_fixed to_be_bytes from_be_bytes
ack-HasFixedFrame n v =
    framed (ProtoEvent.ack n) _ _ refl (omega arith) refl refl (decode-encode_ack n v)

pong-HasFixedFrame : (alive : Bool) → HasFixedFrame (ProtoEvent.pong alive)
unfolding encode_event decode_event encode_fixed decode_fixed to_be_bytes from_be_bytes
pong-HasFixedFrame true =
    framed (ProtoEvent.pong true) _ _ refl (omega arith) refl refl (decode-encode_pong true)
pong-HasFixedFrame false =
    framed (ProtoEvent.pong false) _ _ refl (omega arith) refl refl (decode-encode_pong false)

enter-HasFixedFrame : (pos : Position) → HasFixedFrame (ProtoEvent.enter pos)
unfolding encode_event decode_event encode_fixed decode_fixed to_be_bytes from_be_bytes
enter-HasFixedFrame Position.left =
    framed (ProtoEvent.enter Position.left) _ _ refl (omega arith) refl refl
      (decode-encode_enter Position.left)
enter-HasFixedFrame Position.right =
    framed (ProtoEvent.enter Position.right) _ _ refl (omega arith) refl refl
      (decode-encode_enter Position.right)
enter-HasFixedFrame Position.top =
    framed (ProtoEvent.enter Position.top) _ _ refl (omega arith) refl refl
      (decode-encode_enter Position.top)
enter-HasFixedFrame Position.bottom =
    framed (ProtoEvent.enter Position.bottom) _ _ refl (omega arith) refl refl
      (decode-encode_enter Position.bottom)

module _ (magic commit : List ℕ) (m : IsArray8 magic) (c : IsArray8 commit) where
  hello_taken : take 17 (((11 ∷ magic) ++ commit) ++ replicate 4 0) ≡ (11 ∷ magic) ++ commit
  hello_taken =
      take-append 17 ((11 ∷ magic) ++ commit) (replicate 4 0)
        (omega (arith, length-append (11 ∷ magic) commit, m.0, c.0))

  hello-HasFixedFrame : HasFixedFrame (ProtoEvent.hello magic commit)
  hello-HasFixedFrame =
      framed (ProtoEvent.hello magic commit) (((11 ∷ magic) ++ commit) ++ replicate 4 0) 17
        (encode_fixed-hello magic commit m c) (omega arith)
        (ap length hello_taken ∙ omega (arith, length-append (11 ∷ magic) commit, m.0, c.0))
        (ap (padded 17) hello_taken)
        (ap (λ bs. decode_fixed (padded 17 bs)) hello_taken
          ∙ (ap decode_fixed (append_assoc (11 ∷ magic) commit (replicate 4 0))
              ∙ decode_fixed-hello magic commit m c))

-- An event of the ranges of its Rust types, of one of the types of fixed size, has an array.
pub is_fixed-HasFixedFrame :
    (e : ProtoEvent) → IsEvent e → is_fixed (event_type e) ≡ true → HasFixedFrame e
unfolding is_fixed event_type
is_fixed-HasFixedFrame (ProtoEvent.input e) valid fixed = input-HasFixedFrame e valid
is_fixed-HasFixedFrame (ProtoEvent.enter pos) valid fixed = enter-HasFixedFrame pos
is_fixed-HasFixedFrame (ProtoEvent.leave n) valid fixed = leave-HasFixedFrame n valid
is_fixed-HasFixedFrame (ProtoEvent.ack n) valid fixed = ack-HasFixedFrame n valid
is_fixed-HasFixedFrame (ProtoEvent.hello magic commit) valid fixed =
    hello-HasFixedFrame magic commit valid.0 valid.1
is_fixed-HasFixedFrame ProtoEvent.ping valid fixed = ping-HasFixedFrame
is_fixed-HasFixedFrame (ProtoEvent.pong alive) valid fixed = pong-HasFixedFrame alive
is_fixed-HasFixedFrame _ valid fixed = absurd (ground arith)
