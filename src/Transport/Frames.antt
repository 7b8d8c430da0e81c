-- ===== src/Transport/Frames.antt =====
-- `write_frame`, `read_frame`, `write_stream_c_frame` and `read_stream_c_frame`,
-- src/quic_transport/protocol.rs. A writer gives the bytes that it hands to the stream, one after
-- the other; `write_hello_frame` and `read_hello_frame` differ from the first two in their error
-- texts.
use lan_mouse_pro.Common.{ℕ, ◌-◌, ◌%◌, ◌^◌, ltb, if◌then◌else◌, List, ◌++◌, length, take, replicate}
use lan_mouse_pro.Transport.ByteStream.{Exact, full, eof, io_error, ByteStream}
use lan_mouse_pro.Wire.Bytes.{to_be_bytes, from_be_bytes}
use lan_mouse_pro.Wire.Dispatch.{encode_event}
use lan_mouse_pro.Wire.Fixed.{max_event_size, encode_fixed}
use lan_mouse_pro.Wire.Fixed
use lan_mouse_pro.Wire.Dispatch
use lan_mouse_pro.Wire.Outcome.{ProtocolError, Outcome, ok, ◌>>=◌}
use lan_mouse_pro.Wire.Types.{ProtoEvent}

-- The errors of src/quic_transport/mod.rs that a reader answers: `HelloFailed` with the text of the
-- step that failed, `FrameTooLarge` and `Truncated`.
pub data Error : Type 0 where
  length_failed : Error
  body_failed : Error
  decode_failed : ProtocolError → Error
  frame_too_large : ℕ → Error
  truncated : Error

-- What a reader answers, with the stream behind what it took.
pub data Read (S : Type 0) : Type 0 where
  got : ProtoEvent → S → Read S
  failed : Error → S → Read S
  panic : Read S

unfoldable pub write_frame : ProtoEvent → Outcome (List ℕ)
write_frame event = do
  (buf, len) ← encode_fixed event
  ok (to_be_bytes 4 (len % 2 ^ 32) ++ take len buf)

unfoldable pub write_stream_c_frame : ProtoEvent → Outcome (List ℕ)
write_stream_c_frame event = do
  body ← encode_event event
  ok (to_be_bytes 4 (length body % 2 ^ 32) ++ body)

unfoldable pub decoded : {S : Type 0} → Outcome ProtoEvent → S → Read S
decoded (Outcome.ok event) s = got event s
decoded (Outcome.err e) s = failed (Error.decode_failed e) s
decoded Outcome.panic s = panic

-- The `[0u8; MAX_EVENT_SIZE]` that holds the body.
abbrev pub padded : ℕ → List ℕ → List ℕ
padded len body = body ++ replicate (max_event_size - len) 0

module _ {S : Type 0} (stream : ByteStream S) where
  -- With the answer of `read_exact` for the body, and the decoder.
  unfoldable pub on_body : (List ℕ → Outcome ProtoEvent) → S → Exact S → Read S
  unfolding decoded
  on_body decode s (full body rest) = decoded (decode body) rest
  on_body decode s eof = failed Error.truncated s
  on_body decode s io_error = failed Error.body_failed s

  -- With the answer of `read_u32`.
  unfoldable pub on_length : S → Exact S → Read S
  unfolding on_body
  on_length s (full bytes rest) =
      let len = from_be_bytes bytes in
      if ltb max_event_size len
      then failed (Error.frame_too_large len) rest
      else on_body (λ body. Fixed.decode_fixed (padded len body)) rest (stream.read_exact len rest)
  on_length s eof = failed Error.length_failed s
  on_length s io_error = failed Error.length_failed s

  unfoldable pub read_frame : S → Read S
  unfolding on_length
  read_frame s = on_length s (stream.read_exact 4 s)

  unfoldable pub on_length_c : S → Exact S → Read S
  unfolding on_body
  on_length_c s (full bytes rest) =
      on_body Dispatch.decode_event rest (stream.read_exact (from_be_bytes bytes) rest)
  on_length_c s eof = failed Error.length_failed s
  on_length_c s io_error = failed Error.length_failed s

  unfoldable pub read_stream_c_frame : S → Read S
  unfolding on_length_c
  read_stream_c_frame s = on_length_c s (stream.read_exact 4 s)
