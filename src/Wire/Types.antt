-- ===== src/Wire/Types.antt =====
-- The events of the wire protocol: the types of lan-mouse-proto/src/lib.rs, and the input events of
-- input-event/src/lib.rs. A `[u8; n]` and a `String` are lists of bytes, an `f64` is its 64-bit
-- pattern and an `i32` its 32-bit pattern (two's complement).
use lan_mouse_pro.Common.{ℕ, Option, List, Bool}

pub data Position : Type 0 where
  left right top bottom : Position

pub data PointerEvent : Type 0 where
  motion : (time dx dy : ℕ) → PointerEvent
  button : (time button state : ℕ) → PointerEvent
  axis : (time axis value : ℕ) → PointerEvent
  axis_discrete120 : (axis value : ℕ) → PointerEvent

pub data KeyboardEvent : Type 0 where
  key : (time key state : ℕ) → KeyboardEvent
  modifiers : (depressed latched locked group : ℕ) → KeyboardEvent

pub data InputEvent : Type 0 where
  pointer : PointerEvent → InputEvent
  keyboard : KeyboardEvent → InputEvent

pub record FileEntry : Type 0 where
  pub name : List ℕ
  pub size : ℕ
  pub mime : List ℕ
  pub sha256 : List ℕ

pub record ClipboardText : Type 0 where
  pub fingerprint : List ℕ
  pub sha256 : List ℕ
  pub size : ℕ
  pub content_inline : Option (List ℕ)

pub record ClipboardImage : Type 0 where
  pub fingerprint : List ℕ
  pub mime : List ℕ
  pub sha256 : List ℕ
  pub size : ℕ

pub record ClipboardFiles : Type 0 where
  pub fingerprint : List ℕ
  pub entries : List FileEntry

pub record FileTransferOffer : Type 0 where
  pub sha256 : List ℕ
  pub name : List ℕ
  pub size : ℕ
  pub mime : List ℕ

pub record FileTransferResponse : Type 0 where
  pub sha256 : List ℕ
  pub accept : Bool

pub record FileTransferCancel : Type 0 where
  pub sha256 : List ℕ

pub record ClipboardRequest : Type 0 where
  pub sha256 : List ℕ

pub data ProtoEvent : Type 0 where
  enter : Position → ProtoEvent
  leave : ℕ → ProtoEvent
  ack : ℕ → ProtoEvent
  input : InputEvent → ProtoEvent
  ping : ProtoEvent
  pong : Bool → ProtoEvent
  hello : (magic commit : List ℕ) → ProtoEvent
  clipboard_text : ClipboardText → ProtoEvent
  clipboard_image : ClipboardImage → ProtoEvent
  clipboard_files : ClipboardFiles → ProtoEvent
  file_transfer_offer : FileTransferOffer → ProtoEvent
  file_transfer_response : FileTransferResponse → ProtoEvent
  file_transfer_cancel : FileTransferCancel → ProtoEvent
  clipboard_request : ClipboardRequest → ProtoEvent

pub data EventType : Type 0 where
  pointer_motion pointer_button pointer_axis pointer_axis_value120 : EventType
  keyboard_key keyboard_modifiers : EventType
  ping pong enter leave ack hello : EventType
  clipboard_text clipboard_image clipboard_files : EventType
  file_transfer_offer file_transfer_response file_transfer_cancel clipboard_request : EventType
