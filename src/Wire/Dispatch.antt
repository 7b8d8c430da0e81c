-- ===== src/Wire/Dispatch.antt =====
-- The universal dispatcher of lan-mouse-proto/src/lib.rs: `From<ProtoEvent> for Vec<u8>` and
-- `TryFrom<&[u8]> for ProtoEvent`.
pub mod Truncated
pub mod Total
pub mod RoundTrip
pub mod HelloRoundTrip
pub mod FixedRoundTrip
use lan_mouse_pro.Common.{
  ℕ, ◌+◌, ◌-◌, Bool, true, false, if◌then◌else◌, List, [], ◌∷◌, ◌++◌, length, take, drop, replicate,
  min, leb, Option, none, some,
}
use lan_mouse_pro.Wire.Bodies.{
  encode_text, decode_text, encode_image, decode_image, encode_files, decode_files, encode_offer,
  decode_offer, encode_response, decode_response, encode_cancel, decode_cancel, encode_request,
  decode_request,
}
use lan_mouse_pro.Wire.EventTypes.{event_code, event_type_of, event_type, is_fixed}
use lan_mouse_pro.Wire.Fixed.{max_event_size, encode_fixed, decode_fixed}
use lan_mouse_pro.Wire.Outcome.{
  Outcome, ok, err, panic, frame_too_short, empty_input, Reader, ◌>>=◌,
}
use lan_mouse_pro.Wire.Types.{ProtoEvent, EventType, ClipboardText}

-- `[b; n]` bytes `lo` up to `hi`.
abbrev slice : ℕ → ℕ → List ℕ → List ℕ
slice lo hi bs = drop lo (take hi bs)

-- The `match event`, with the type byte in `buf`.
unfoldable pub encode_onto : List ℕ → ProtoEvent → Outcome (List ℕ)
encode_onto buf (ProtoEvent.clipboard_text e) = ok (encode_text buf e)
encode_onto buf (ProtoEvent.clipboard_image e) = ok (encode_image buf e)
encode_onto buf (ProtoEvent.clipboard_files e) = ok (encode_files buf e)
encode_onto buf (ProtoEvent.file_transfer_offer e) = ok (encode_offer buf e)
encode_onto buf (ProtoEvent.file_transfer_response e) = ok (encode_response buf e)
encode_onto buf (ProtoEvent.file_transfer_cancel e) = ok (encode_cancel buf e)
encode_onto buf (ProtoEvent.clipboard_request e) = ok (encode_request buf e)
encode_onto buf fixed = do (arr, len) ← encode_fixed fixed; ok (buf ++ slice 1 len arr)

unfoldable pub encode_event : ProtoEvent → Outcome (List ℕ)
unfolding event_code event_type encode_onto
encode_event event = encode_onto (event_code (event_type event) ∷ []) event

-- The `[0u8; MAX_EVENT_SIZE]` that holds the type byte and what fits of the body.
unfoldable pub fixed_frame : ℕ → List ℕ → List ℕ
fixed_frame code body =
    let copy_len = min (length body) (max_event_size - 1) in
    code ∷ (take copy_len body ++ replicate (max_event_size - 1 - copy_len) 0)

-- The `match event_type` of the variable-length branch.
unfoldable pub decode_var : EventType → Reader ProtoEvent
decode_var EventType.clipboard_text body = do
  (e, rest) ← decode_text body
  ok (ProtoEvent.clipboard_text e, rest)
decode_var EventType.clipboard_image body = do
  (e, rest) ← decode_image body
  ok (ProtoEvent.clipboard_image e, rest)
decode_var EventType.clipboard_files body = do
  (e, rest) ← decode_files body
  ok (ProtoEvent.clipboard_files e, rest)
decode_var EventType.file_transfer_offer body = do
  (e, rest) ← decode_offer body
  ok (ProtoEvent.file_transfer_offer e, rest)
decode_var EventType.file_transfer_response body = do
  (e, rest) ← decode_response body
  ok (ProtoEvent.file_transfer_response e, rest)
decode_var EventType.file_transfer_cancel body = do
  (e, rest) ← decode_cancel body
  ok (ProtoEvent.file_transfer_cancel e, rest)
decode_var EventType.clipboard_request body = do
  (e, rest) ← decode_request body
  ok (ProtoEvent.clipboard_request e, rest)
decode_var _ body = panic

-- `if !body_slice.is_empty() { return Err(FrameTooShort) }`.
unfoldable pub expect_end : ProtoEvent × List ℕ → Outcome ProtoEvent
expect_end (e, []) = ok e
expect_end (e, b ∷ bs) = err frame_too_short

unfoldable pub decode_as : EventType → ℕ → List ℕ → Outcome ProtoEvent
unfolding is_fixed fixed_frame expect_end
decode_as event_type code body =
    if is_fixed event_type
    then decode_fixed (fixed_frame code body)
    else (do result ← decode_var event_type body; expect_end result)

unfoldable pub decode_event : List ℕ → Outcome ProtoEvent
unfolding event_type_of decode_as
decode_event [] = err empty_input
decode_event (code ∷ body) = do event_type ← event_type_of code; decode_as event_type code body

-- `ClipboardText::from_content` and `is_inline`, with `CLIPBOARD_TEXT_INLINE_LIMIT`.
abbrev pub clipboard_text_inline_limit : ℕ
clipboard_text_inline_limit = 1024

unfoldable pub from_content : List ℕ → List ℕ → List ℕ → ClipboardText
from_content fingerprint sha256 content = record {
  fingerprint = fingerprint;
  sha256 = sha256;
  size = length content;
  content_inline = if leb (length content) clipboard_text_inline_limit then some content else none;
}

unfoldable pub is_inline : ClipboardText → Bool
is_inline e = elim e.content_inline [ none ↦ false | some _ ↦ true ]
