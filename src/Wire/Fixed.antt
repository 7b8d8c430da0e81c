-- ===== src/Wire/Fixed.antt =====
-- The fixed-size codec: `FixedCodec::encode_fixed_body` of lan-mouse-proto/src/codec.rs, and the
-- conversions between `ProtoEvent` and `[u8; MAX_EVENT_SIZE]` of lan-mouse-proto/src/lib.rs.
pub mod Total
pub mod Arrays
pub mod Valid
use lan_mouse_pro.Common.{
  ℕ, zero, suc, ◌+◌, ◌*◌, Bool, true, false, not, ltb, ◌==◌, if◌then◌else◌, List, [], ◌∷◌, ◌++◌,
  length, take, drop, replicate,
}
use lan_mouse_pro.Wire.Bytes.{to_be_bytes, from_be_bytes}
use lan_mouse_pro.Wire.EventTypes.{
  position_code, position_of, event_code, event_type_of, event_type,
}
use lan_mouse_pro.Wire.Outcome.{Outcome, ok, panic, Reader, ◌>>=◌}
use lan_mouse_pro.Wire.Types.{
  Position, PointerEvent, KeyboardEvent, InputEvent, ProtoEvent, EventType,
}

-- 1 + 4 + 2 * 8: a motion event is the largest.
abbrev pub max_event_size : ℕ
max_event_size = 1 + 4 + 2 * 8

-- The local buffer and `len` of `encode_fixed_body`.
pub record BodyWriter : Type 0 where
  pub buf : List ℕ
  pub len : ℕ

-- The macros `w_u8`, `w_u32`, `w_i32` and `w_f64` at `k` = 1, 4, 4 and 8: the bytes at `len` are
-- overwritten, and a range past the end panics.
unfoldable pub w_int : ℕ → ℕ → BodyWriter → Outcome BodyWriter
w_int k n w =
    if ltb (length w.buf) (w.len + k)
    then panic
    else ok (record {
      buf = take w.len w.buf ++ (to_be_bytes k n ++ drop (w.len + k) w.buf);
      len = w.len + k;
    })

-- The `match self`.
unfoldable pub encode_input : InputEvent → BodyWriter → Outcome BodyWriter
unfolding w_int
encode_input (InputEvent.pointer (PointerEvent.motion time dx dy)) w = do
  w ← w_int 4 time w
  w ← w_int 8 dx w
  w_int 8 dy w
encode_input (InputEvent.pointer (PointerEvent.button time button state)) w = do
  w ← w_int 4 time w
  w ← w_int 4 button w
  w_int 4 state w
encode_input (InputEvent.pointer (PointerEvent.axis time axis value)) w = do
  w ← w_int 4 time w
  w ← w_int 1 axis w
  w_int 8 value w
encode_input (InputEvent.pointer (PointerEvent.axis_discrete120 axis value)) w = do
  w ← w_int 1 axis w
  w_int 4 value w
encode_input (InputEvent.keyboard (KeyboardEvent.key time key state)) w = do
  w ← w_int 4 time w
  w ← w_int 4 key w
  w_int 1 state w
encode_input (InputEvent.keyboard (KeyboardEvent.modifiers depressed latched locked group)) w = do
  w ← w_int 4 depressed w
  w ← w_int 4 latched w
  w ← w_int 4 locked w
  w_int 4 group w

unfoldable pub encode_fixed_body : InputEvent → List ℕ → Outcome BodyWriter
unfolding encode_input
encode_fixed_body e buf = encode_input e (record { buf = buf; len = 0 })

-- The array split at the shrinking slice `buf`, and `len`, of `From<ProtoEvent> for
-- ([u8; MAX_EVENT_SIZE], usize)`.
pub record ArrayWriter : Type 0 where
  pub written : List ℕ
  pub rest : List ℕ
  pub len : ℕ

-- `encode_impl!`: `split_at_mut` panics on a slice that is too short.
unfoldable pub encode_int : ℕ → ℕ → ArrayWriter → Outcome ArrayWriter
encode_int k n w =
    if ltb (length w.rest) k
    then panic
    else ok
        (record { written = w.written ++ to_be_bytes k n; rest = drop k w.rest; len = w.len + k })

unfoldable pub encode_u8s : List ℕ → ArrayWriter → Outcome ArrayWriter
unfolding encode_int
encode_u8s [] w = ok w
encode_u8s (b ∷ bs) w = do w' ← encode_int 1 b w; encode_u8s bs w'

unfoldable pub encode_body : ProtoEvent → ArrayWriter → Outcome ArrayWriter
unfolding encode_fixed_body encode_int encode_u8s position_code
encode_body (ProtoEvent.input event) w = do
  body ← encode_fixed_body event w.rest
  ok (record w { rest = body.buf; len = w.len + body.len })
encode_body ProtoEvent.ping w = ok w
encode_body (ProtoEvent.pong alive) w = encode_int 1 (if alive then 1 else 0) w
encode_body (ProtoEvent.enter pos) w = encode_int 1 (position_code pos) w
encode_body (ProtoEvent.leave serial) w = encode_int 4 serial w
encode_body (ProtoEvent.ack serial) w = encode_int 4 serial w
encode_body (ProtoEvent.hello magic commit) w = do w ← encode_u8s magic w; encode_u8s commit w
encode_body _ w = panic

-- The array and the number of bytes in use.
unfoldable pub encode_fixed : ProtoEvent → Outcome (List ℕ × ℕ)
unfolding encode_int encode_body event_code event_type
encode_fixed event = do
  w ←
      encode_int 1 (event_code (event_type event))
        (record { written = []; rest = replicate max_event_size 0; len = 0 })
  w ← encode_body event w
  ok (w.written ++ w.rest, w.len)

-- `decode_impl!`: `split_at` panics on a slice that is too short.
unfoldable pub decode_int : ℕ → Reader ℕ
decode_int k buf = if ltb (length buf) k then panic else ok (from_be_bytes (take k buf), drop k buf)

-- The loops over `magic` and `commit`.
unfoldable pub decode_u8s : ℕ → Reader (List ℕ)
unfolding decode_int
decode_u8s zero buf = ok ([], buf)
decode_u8s (suc n) buf = do
  (b, buf) ← decode_int 1 buf
  (bs, buf) ← decode_u8s n buf
  ok (b ∷ bs, buf)

-- The `match EventType::try_from(event_type)?`.
unfoldable pub decode_fixed_body : EventType → List ℕ → Outcome ProtoEvent
unfolding decode_int decode_u8s position_of
decode_fixed_body EventType.pointer_motion buf = do
  (time, buf) ← decode_int 4 buf
  (dx, buf) ← decode_int 8 buf
  (dy, buf) ← decode_int 8 buf
  ok (ProtoEvent.input (InputEvent.pointer (PointerEvent.motion time dx dy)))
decode_fixed_body EventType.pointer_button buf = do
  (time, buf) ← decode_int 4 buf
  (button, buf) ← decode_int 4 buf
  (state, buf) ← decode_int 4 buf
  ok (ProtoEvent.input (InputEvent.pointer (PointerEvent.button time button state)))
decode_fixed_body EventType.pointer_axis buf = do
  (time, buf) ← decode_int 4 buf
  (axis, buf) ← decode_int 1 buf
  (value, buf) ← decode_int 8 buf
  ok (ProtoEvent.input (InputEvent.pointer (PointerEvent.axis time axis value)))
decode_fixed_body EventType.pointer_axis_value120 buf = do
  (axis, buf) ← decode_int 1 buf
  (value, buf) ← decode_int 4 buf
  ok (ProtoEvent.input (InputEvent.pointer (PointerEvent.axis_discrete120 axis value)))
decode_fixed_body EventType.keyboard_key buf = do
  (time, buf) ← decode_int 4 buf
  (key, buf) ← decode_int 4 buf
  (state, buf) ← decode_int 1 buf
  ok (ProtoEvent.input (InputEvent.keyboard (KeyboardEvent.key time key state)))
decode_fixed_body EventType.keyboard_modifiers buf = do
  (depressed, buf) ← decode_int 4 buf
  (latched, buf) ← decode_int 4 buf
  (locked, buf) ← decode_int 4 buf
  (group, buf) ← decode_int 4 buf
  ok (
      ProtoEvent.input
        (InputEvent.keyboard (KeyboardEvent.modifiers depressed latched locked group)))
decode_fixed_body EventType.ping buf = ok ProtoEvent.ping
decode_fixed_body EventType.pong buf = do
  (alive, buf) ← decode_int 1 buf
  ok (ProtoEvent.pong (not (alive == 0)))
decode_fixed_body EventType.enter buf = do
  (code, buf) ← decode_int 1 buf
  pos ← position_of code
  ok (ProtoEvent.enter pos)
decode_fixed_body EventType.leave buf = do
  (serial, buf) ← decode_int 4 buf
  ok (ProtoEvent.leave serial)
decode_fixed_body EventType.ack buf = do
  (serial, buf) ← decode_int 4 buf
  ok (ProtoEvent.ack serial)
decode_fixed_body EventType.hello buf = do
  (magic, buf) ← decode_u8s 8 buf
  (commit, buf) ← decode_u8s 8 buf
  ok (ProtoEvent.hello magic commit)
decode_fixed_body _ buf = panic

-- `TryFrom<[u8; MAX_EVENT_SIZE]>`.
unfoldable pub decode_fixed : List ℕ → Outcome ProtoEvent
unfolding decode_int event_type_of decode_fixed_body
decode_fixed buf = do
  (code, buf) ← decode_int 1 buf
  event_type ← event_type_of code
  decode_fixed_body event_type buf
