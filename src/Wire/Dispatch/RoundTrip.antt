-- ===== src/Wire/Dispatch/RoundTrip.antt =====
-- Encoding and decoding an event of any kind, through the universal dispatcher.
use lan_mouse_pro.Common.{ℕ, ◌≡◌, true, false, refl, List, [], ◌∷◌, ◌++◌, append-nil}
use lan_mouse_pro.Wire.Bodies.Clipboard.{IsText-laws, IsImage-laws, IsFiles-laws}
use lan_mouse_pro.Wire.Bodies.Transfer.{IsOffer-laws, response_laws, cancel_laws, request_laws}
use lan_mouse_pro.Wire.Bodies.Valid.{IsHash, IsText, IsImage, IsFiles, IsOffer}
use lan_mouse_pro.Wire.Dispatch.{encode_event, decode_event, expect_end, decode_var}
use lan_mouse_pro.Wire.Dispatch.FixedRoundTrip.{
  decode-encode_input, decode-encode_leave, decode-encode_ack, decode-encode_ping,
  decode-encode_pong, decode-encode_enter,
}
use lan_mouse_pro.Wire.Dispatch.HelloRoundTrip.{decode-encode_hello}
use lan_mouse_pro.Wire.EventTypes.{event_type, is_fixed}
use lan_mouse_pro.Wire.Fields.Vectors.{VarCodecLaws}
use lan_mouse_pro.Wire.Fixed.Valid.{IsInput, IsU32, IsArray8}
use lan_mouse_pro.Wire.Outcome.{Outcome, ok, err, frame_too_short, Reader, ◌>>=◌}
use lan_mouse_pro.Wire.Types.{PointerEvent, KeyboardEvent, InputEvent, ProtoEvent}

-- The values of the Rust type `ProtoEvent` whose strings, inline payload and entries are short
-- enough for their u32 length prefixes.
abbrev pub IsEvent : ProtoEvent → Type 0
IsEvent (ProtoEvent.enter p) = Unit {0}
IsEvent (ProtoEvent.leave n) = IsU32 n
IsEvent (ProtoEvent.ack n) = IsU32 n
IsEvent (ProtoEvent.input e) = IsInput e
IsEvent ProtoEvent.ping = Unit {0}
IsEvent (ProtoEvent.pong b) = Unit {0}
IsEvent (ProtoEvent.hello magic commit) = IsArray8 magic × IsArray8 commit
IsEvent (ProtoEvent.clipboard_text e) = IsText e
IsEvent (ProtoEvent.clipboard_image e) = IsImage e
IsEvent (ProtoEvent.clipboard_files e) = IsFiles e
IsEvent (ProtoEvent.file_transfer_offer e) = IsOffer e
IsEvent (ProtoEvent.file_transfer_response e) = IsHash e.sha256
IsEvent (ProtoEvent.file_transfer_cancel e) = IsHash e.sha256
IsEvent (ProtoEvent.clipboard_request e) = IsHash e.sha256

-- A body read to its end, and the event made of it.
abbrev pub finish {ℓ} : {T : Type ℓ} → (T → ProtoEvent) → Outcome (T × List ℕ) → Outcome ProtoEvent
finish wrap r = (r >>= λ p. ok (wrap p.0, p.1)) >>= expect_end

module _ {ℓ κ} {T : Type ℓ} {encode : List ℕ → T → List ℕ} {decode : Reader T}
    {IsValid : T → Type κ} (laws : VarCodecLaws encode decode IsValid) (wrap : T → ProtoEvent) where
  finish-decode : (e : T) → IsValid e → finish wrap (decode (encode [] e)) ≡ ok (wrap e)
  unfolding expect_end
  finish-decode e v =
      let whole : decode (encode [] e) ≡ ok (e, []) = rw append-nil at (laws.reads e [] v) in
      rw whole

  finish-decode_trailing :
      (e : T) (x : ℕ) (xs : List ℕ)
      → IsValid e
      → finish wrap (decode (encode [] e ++ x ∷ xs)) ≡ err frame_too_short
  unfolding expect_end
  finish-decode_trailing e x xs v = rw (laws.reads e (x ∷ xs) v)

-- Every event decodes to itself: neither side panics or fails, and nothing is lost.
pub decode_event-encode_event :
    (e : ProtoEvent) → IsEvent e → (encode_event e >>= decode_event) ≡ ok e
decode_event-encode_event (ProtoEvent.enter p) v = decode-encode_enter p
decode_event-encode_event (ProtoEvent.leave n) v = decode-encode_leave n v
decode_event-encode_event (ProtoEvent.ack n) v = decode-encode_ack n v
decode_event-encode_event (ProtoEvent.input e) v = decode-encode_input e v
decode_event-encode_event ProtoEvent.ping v = decode-encode_ping
decode_event-encode_event (ProtoEvent.pong b) v = decode-encode_pong b
decode_event-encode_event (ProtoEvent.hello magic commit) (m, c) =
    decode-encode_hello magic commit m c
decode_event-encode_event (ProtoEvent.clipboard_text e) v =
    unfold encode_event decode_event decode_var in
    rw (IsText-laws.appends (12 ∷ []) e v) (finish-decode IsText-laws ProtoEvent.clipboard_text e v)
decode_event-encode_event (ProtoEvent.clipboard_image e) v =
    unfold encode_event decode_event decode_var in
    rw (IsImage-laws.appends (13 ∷ []) e v)
      (finish-decode IsImage-laws ProtoEvent.clipboard_image e v)
decode_event-encode_event (ProtoEvent.clipboard_files e) v =
    unfold encode_event decode_event decode_var in
    rw (IsFiles-laws.appends (14 ∷ []) e v)
      (finish-decode IsFiles-laws ProtoEvent.clipboard_files e v)
decode_event-encode_event (ProtoEvent.file_transfer_offer e) v =
    unfold encode_event decode_event decode_var in
    rw (IsOffer-laws.appends (15 ∷ []) e v)
      (finish-decode IsOffer-laws ProtoEvent.file_transfer_offer e v)
decode_event-encode_event (ProtoEvent.file_transfer_response e) v =
    unfold encode_event decode_event decode_var in
    rw (response_laws.appends (16 ∷ []) e v)
      (finish-decode response_laws ProtoEvent.file_transfer_response e v)
decode_event-encode_event (ProtoEvent.file_transfer_cancel e) v =
    unfold encode_event decode_event decode_var in
    rw (cancel_laws.appends (17 ∷ []) e v)
      (finish-decode cancel_laws ProtoEvent.file_transfer_cancel e v)
decode_event-encode_event (ProtoEvent.clipboard_request e) v =
    unfold encode_event decode_event decode_var in
    rw (request_laws.appends (18 ∷ []) e v)
      (finish-decode request_laws ProtoEvent.clipboard_request e v)

pub is_fixed-input : (e : InputEvent) → is_fixed (event_type (ProtoEvent.input e)) ≡ true
unfolding is_fixed event_type
is_fixed-input (InputEvent.pointer (PointerEvent.motion time dx dy)) = refl
is_fixed-input (InputEvent.pointer (PointerEvent.button time button state)) = refl
is_fixed-input (InputEvent.pointer (PointerEvent.axis time axis value)) = refl
is_fixed-input (InputEvent.pointer (PointerEvent.axis_discrete120 axis value)) = refl
is_fixed-input (InputEvent.keyboard (KeyboardEvent.key time key state)) = refl
is_fixed-input (InputEvent.keyboard (KeyboardEvent.modifiers a b c d)) = refl

-- A variable-length frame with any bytes behind it is refused as `FrameTooShort`.
pub decode_event_trailing :
    (e : ProtoEvent) (x : ℕ) (xs : List ℕ)
    → IsEvent e
    → is_fixed (event_type e) ≡ false
    → (encode_event e >>= λ bs. decode_event (bs ++ x ∷ xs)) ≡ err frame_too_short
decode_event_trailing (ProtoEvent.clipboard_text e) x xs v h =
    unfold encode_event decode_event decode_var in
    rw (IsText-laws.appends (12 ∷ []) e v)
      (finish-decode_trailing IsText-laws ProtoEvent.clipboard_text e x xs v)
decode_event_trailing (ProtoEvent.clipboard_image e) x xs v h =
    unfold encode_event decode_event decode_var in
    rw (IsImage-laws.appends (13 ∷ []) e v)
      (finish-decode_trailing IsImage-laws ProtoEvent.clipboard_image e x xs v)
decode_event_trailing (ProtoEvent.clipboard_files e) x xs v h =
    unfold encode_event decode_event decode_var in
    rw (IsFiles-laws.appends (14 ∷ []) e v)
      (finish-decode_trailing IsFiles-laws ProtoEvent.clipboard_files e x xs v)
decode_event_trailing (ProtoEvent.file_transfer_offer e) x xs v h =
    unfold encode_event decode_event decode_var in
    rw (IsOffer-laws.appends (15 ∷ []) e v)
      (finish-decode_trailing IsOffer-laws ProtoEvent.file_transfer_offer e x xs v)
decode_event_trailing (ProtoEvent.file_transfer_response e) x xs v h =
    unfold encode_event decode_event decode_var in
    rw (response_laws.appends (16 ∷ []) e v)
      (finish-decode_trailing response_laws ProtoEvent.file_transfer_response e x xs v)
decode_event_trailing (ProtoEvent.file_transfer_cancel e) x xs v h =
    unfold encode_event decode_event decode_var in
    rw (cancel_laws.appends (17 ∷ []) e v)
      (finish-decode_trailing cancel_laws ProtoEvent.file_transfer_cancel e x xs v)
decode_event_trailing (ProtoEvent.clipboard_request e) x xs v h =
    unfold encode_event decode_event decode_var in
    rw (request_laws.appends (18 ∷ []) e v)
      (finish-decode_trailing request_laws ProtoEvent.clipboard_request e x xs v)
decode_event_trailing (ProtoEvent.input e) x xs v h = cc (is_fixed-input e)
decode_event_trailing _ x xs v h = unfold event_type is_fixed in cc
