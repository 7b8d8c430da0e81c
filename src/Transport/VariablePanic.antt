-- ===== src/Transport/VariablePanic.antt =====
-- src/quic_transport/protocol.rs: a variable-size type byte in a frame of fixed size.
use lan_mouse_pro.Common.{
  ℕ, ◌-◌, ◌%◌, ◌^◌, ◌≡◌, ◌≤◌, refl, ap, ◌∙◌, false, arith, List, ◌∷◌, ◌++◌, length, replicate,
}
use lan_mouse_pro.Transport.ByteStream.{ByteStream}
use lan_mouse_pro.Transport.Frames.{panic, decoded, read_frame}
use lan_mouse_pro.Transport.Small.{read_frame-small}
use lan_mouse_pro.Wire.Bytes.{to_be_bytes}
use lan_mouse_pro.Wire.EventTypes.{event_type_of, is_fixed}
use lan_mouse_pro.Wire.Fixed.{max_event_size, decode_fixed, decode_fixed_body}
use lan_mouse_pro.Wire.Fixed.Arrays.{decode_int_one}
use lan_mouse_pro.Wire.Outcome.{Outcome, ok}
use lan_mouse_pro.Wire.Types.{EventType}

decode_fixed_body-variable :
    (t : EventType) (buf : List ℕ) → is_fixed t ≡ false → decode_fixed_body t buf ≡ Outcome.panic
unfolding is_fixed decode_fixed_body
decode_fixed_body-variable EventType.clipboard_text buf h = refl
decode_fixed_body-variable EventType.clipboard_image buf h = refl
decode_fixed_body-variable EventType.clipboard_files buf h = refl
decode_fixed_body-variable EventType.file_transfer_offer buf h = refl
decode_fixed_body-variable EventType.file_transfer_response buf h = refl
decode_fixed_body-variable EventType.file_transfer_cancel buf h = refl
decode_fixed_body-variable EventType.clipboard_request buf h = refl
decode_fixed_body-variable _ buf h = absurd (ground arith)

decode_fixed-variable :
    (code : ℕ) (buf : List ℕ) (t : EventType)
    → event_type_of code ≡ ok t
    → is_fixed t ≡ false
    → decode_fixed (code ∷ buf) ≡ Outcome.panic
unfolding decode_fixed
decode_fixed-variable code buf t typed variable =
    rw (decode_int_one code buf) (rw typed (decode_fixed_body-variable t buf variable))

module _ {S : Type 0} (stream : ByteStream S) where
  -- A frame of at most 21 bytes whose first byte is the code of a type of variable size makes the
  -- reader of streams A and B panic, whatever its other bytes are: `decode_fixed` reaches its
  -- `unreachable!`. One byte is enough of a body.
  pub read_frame-variable-panic :
      (code : ℕ) (t : EventType) (body more : List ℕ) (s : S)
      → event_type_of code ≡ ok t
      → is_fixed t ≡ false
      → length (code ∷ body) ≤ 21
      → stream.content s ≡ (to_be_bytes 4 (length (code ∷ body) % 2 ^ 32) ++ (code ∷ body)) ++ more
      → read_frame stream s ≡ panic
  unfolding decoded
  read_frame-variable-panic code t body more s typed variable small at =
      let (rest, (reads, left)) = read_frame-small stream (code ∷ body) more s small at in
      reads
      ∙ ap (λ o. decoded o rest)
          (decode_fixed-variable code (body ++ replicate (max_event_size - length (code ∷ body)) 0)
            t typed variable)
