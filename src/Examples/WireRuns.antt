-- ===== src/Examples/WireRuns.antt =====
-- The wire protocol on concrete events and frames.
use lan_mouse_pro.Common.{ℕ, ◌≡◌, ◌≢◌, refl, arith, some, List, [], ◌∷◌, ◌++◌, replicate}
use lan_mouse_pro.Wire.Bytes.{to_be_bytes, from_be_bytes}
use lan_mouse_pro.Wire.Bodies.{
  encode_text, decode_text, encode_files, decode_files, encode_entry, decode_entry, encode_cancel,
  encode_inline, decode_inline,
}
use lan_mouse_pro.Wire.Bodies.Valid.{IsText, IsFiles, IsEntry}
use lan_mouse_pro.Wire.Dispatch.{encode_event, decode_event, decode_var, encode_onto}
use lan_mouse_pro.Wire.Dispatch.RoundTrip.{decode_event-encode_event, decode_event_trailing}
use lan_mouse_pro.Wire.Dispatch.Total.{decode_event-ne-panic}
use lan_mouse_pro.Wire.Dispatch.Truncated.{decode_event_truncated}
use lan_mouse_pro.Wire.EventTypes.{event_type, is_fixed}
use lan_mouse_pro.Wire.Fields.{
  split_checked, write_hash, read_hash, write_u64_be, read_u64_be, write_string, read_string,
  write_bytes, read_bytes, write_vec_var, read_vec_var, read_bool, write_bool, encode_items,
}
use lan_mouse_pro.Wire.Fixed.{encode_fixed, decode_fixed}
use lan_mouse_pro.Wire.Outcome.{
  ok, err, panic, frame_too_short, empty_input, invalid_event_id, ◌>>=◌,
}
use lan_mouse_pro.Wire.Types.{
  PointerEvent, InputEvent, ProtoEvent, ClipboardText, ClipboardFiles, FileEntry,
  FileTransferCancel,
}
use lan_mouse_pro.Wire.Utf8.{is_utf8}

codecs : Unit {0}
unfolding encode_event decode_event encode_onto decode_var encode_fixed decode_fixed to_be_bytes
    from_be_bytes split_checked write_hash read_hash write_u64_be read_u64_be write_string
    read_string write_bytes read_bytes write_vec_var read_vec_var read_bool write_bool encode_text
    decode_text encode_files decode_files encode_entry decode_entry encode_inline decode_inline
    encode_cancel is_utf8
codecs = tt

abbrev motion : ProtoEvent
motion = ProtoEvent.input (InputEvent.pointer (PointerEvent.motion 7 0x3ff0000000000000 0))

-- 1.0 is the bit pattern 0x3ff0000000000000.
encode_motion :
    encode_event motion
    ≡ ok (
        0 ∷ 0 ∷ 0 ∷ 0 ∷ 7 ∷ 0x3f ∷ 0xf0 ∷ 0 ∷ 0 ∷ 0 ∷ 0 ∷ 0 ∷ 0 ∷ 0 ∷ 0 ∷ 0 ∷ 0 ∷ 0 ∷ 0 ∷ 0 ∷ 0
        ∷ [])
unfolding codecs
encode_motion = refl

-- A motion frame cut behind its time is padded with zeros, and accepted.
decode_short_motion :
    decode_event (0 ∷ 0 ∷ 0 ∷ 0 ∷ 7 ∷ [])
    ≡ ok (ProtoEvent.input (InputEvent.pointer (PointerEvent.motion 7 0 0)))
unfolding codecs
decode_short_motion = refl

decode_empty : decode_event [] ≡ err empty_input
unfolding codecs
decode_empty = refl

decode_unknown : decode_event (19 ∷ []) ≡ err (invalid_event_id 19)
unfolding codecs
decode_unknown = refl

abbrev hash : List ℕ
hash = replicate 32 0xab

abbrev text : ClipboardText
text = record {
  fingerprint = hash;
  sha256 = hash;
  size = 2;
  content_inline = some (104 ∷ 105 ∷ []);
}

text-IsText : IsText text
text-IsText = record {
  fingerprint = refl;
  sha256 = refl;
  size = omega arith;
  content_inline = omega arith;
}

abbrev file : FileEntry
file = record { name = 97 ∷ 0xc3 ∷ 0xa9 ∷ []; size = 3; mime = []; sha256 = hash }

abbrev files : ClipboardFiles
files = record { fingerprint = hash; entries = file ∷ file ∷ [] }

file-IsEntry : IsEntry file
unfolding codecs
file-IsEntry = record {
  name = record { utf8 = refl; short = omega arith };
  size = omega arith;
  mime = record { utf8 = refl; short = omega arith };
  sha256 = refl;
}

files-IsFiles : IsFiles files
unfolding codecs encode_items
files-IsFiles = record {
  fingerprint = refl;
  entries = (file-IsEntry, (file-IsEntry, tt));
  fits = omega arith;
}

decode_event-encode_event_example :
    (encode_event (ProtoEvent.clipboard_files files) >>= decode_event)
    ≡ ok (ProtoEvent.clipboard_files files)
decode_event-encode_event_example =
    decode_event-encode_event (ProtoEvent.clipboard_files files) files-IsFiles

decode_event_trailing_example :
    (encode_event (ProtoEvent.clipboard_text text) >>= λ bs. decode_event (bs ++ 1 ∷ []))
    ≡ err frame_too_short
unfolding event_type is_fixed
decode_event_trailing_example =
    decode_event_trailing (ProtoEvent.clipboard_text text) 1 [] text-IsText refl

decode_event-ne-panic_example : decode_event (14 ∷ 255 ∷ []) ≢ panic
decode_event-ne-panic_example = decode_event-ne-panic (14 ∷ 255 ∷ [])

abbrev cancel : FileTransferCancel
cancel = record { sha256 = hash }

decode_event_truncated_example : decode_event (17 ∷ replicate 31 0xab) ≡ err frame_too_short
unfolding codecs event_type is_fixed
decode_event_truncated_example =
    decode_event_truncated (ProtoEvent.file_transfer_cancel cancel) 17 0xab (replicate 31 0xab) []
      refl refl refl
