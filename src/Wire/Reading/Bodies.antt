-- ===== src/Wire/Reading/Bodies.antt =====
-- The bodies of codec.rs on any bytes: `decode_var_body` of each variable-length event.
use lan_mouse_pro.Common.{Bool, true, false}
use lan_mouse_pro.Wire.Bodies.{
  decode_inline, decode_text, decode_image, decode_entry, decode_files, decode_offer,
  decode_response, decode_cancel, decode_request,
}
use lan_mouse_pro.Wire.Reading.{IsReader, IsReader-pure, IsReader-bind, IsReader-any}
use lan_mouse_pro.Wire.Reading.Fields.{
  read_hash-IsReader, read_u64_be-IsReader, read_bool-IsReader, read_string-IsReader,
  read_bytes-IsReader, read_vec_var-IsReader,
}

decode_inline-IsReader : (b : Bool) → IsReader 0 (decode_inline b)
unfolding decode_inline
decode_inline-IsReader true =
    IsReader-any (IsReader-bind read_bytes-IsReader (λ bytes. IsReader-pure _))
decode_inline-IsReader false = IsReader-pure _

pub decode_text-IsReader : IsReader 73 decode_text
unfolding decode_text
decode_text-IsReader = IsReader-bind read_hash-IsReader (λ fingerprint.
    IsReader-bind read_hash-IsReader (λ sha256. IsReader-bind read_u64_be-IsReader (λ size.
      IsReader-bind read_bool-IsReader (λ has_inline.
        IsReader-bind (decode_inline-IsReader has_inline) (λ content. IsReader-pure _)))))

pub decode_image-IsReader : IsReader 76 decode_image
unfolding decode_image
decode_image-IsReader = IsReader-bind read_hash-IsReader (λ fingerprint.
    IsReader-bind read_string-IsReader (λ mime.
      IsReader-bind read_hash-IsReader
        (λ sha256. IsReader-bind read_u64_be-IsReader (λ size. IsReader-pure _))))

pub decode_entry-IsReader : IsReader 48 decode_entry
unfolding decode_entry
decode_entry-IsReader = IsReader-bind read_string-IsReader (λ name.
    IsReader-bind read_u64_be-IsReader (λ size.
      IsReader-bind read_string-IsReader
        (λ mime. IsReader-bind read_hash-IsReader (λ sha256. IsReader-pure _))))

pub decode_files-IsReader : IsReader 36 decode_files
unfolding decode_files
decode_files-IsReader = IsReader-bind read_hash-IsReader (λ fingerprint.
    IsReader-bind (read_vec_var-IsReader decode_entry-IsReader) (λ entries. IsReader-pure _))

pub decode_offer-IsReader : IsReader 48 decode_offer
unfolding decode_offer
decode_offer-IsReader = IsReader-bind read_hash-IsReader (λ sha256.
    IsReader-bind read_string-IsReader (λ name.
      IsReader-bind read_u64_be-IsReader
        (λ size. IsReader-bind read_string-IsReader (λ mime. IsReader-pure _))))

pub decode_response-IsReader : IsReader 33 decode_response
unfolding decode_response
decode_response-IsReader =
    IsReader-bind read_hash-IsReader
      (λ sha256. IsReader-bind read_bool-IsReader (λ accept. IsReader-pure _))

pub decode_cancel-IsReader : IsReader 32 decode_cancel
unfolding decode_cancel
decode_cancel-IsReader = IsReader-bind read_hash-IsReader (λ sha256. IsReader-pure _)

pub decode_request-IsReader : IsReader 32 decode_request
unfolding decode_request
decode_request-IsReader = IsReader-bind read_hash-IsReader (λ sha256. IsReader-pure _)
