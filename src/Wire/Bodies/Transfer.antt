-- ===== src/Wire/Bodies/Transfer.antt =====
-- codec.rs: the laws of `VarCodec` for the file-transfer events and the clipboard request.
use lan_mouse_pro.Common.{ℕ, ◌≡◌, arith, List, [], ◌++◌, append_assoc}
use lan_mouse_pro.Wire.Bytes.{to_be_bytes}
use lan_mouse_pro.Wire.Fields.{write_hash, write_bool}
use lan_mouse_pro.Wire.Fields.RoundTrip.{
  prefixed, write_hash-append, read_hash-append, write_u64_be-append, read_u64_be-append,
  write_bool-append, read_bool-write_bool, write_string-append, read_string-prefixed,
}
use lan_mouse_pro.Wire.Fields.Vectors.{VarCodecLaws}
use lan_mouse_pro.Wire.Bodies.{
  encode_offer, decode_offer, encode_response, decode_response, encode_cancel, decode_cancel,
  encode_request, decode_request,
}
use lan_mouse_pro.Wire.Outcome.{ok}
use lan_mouse_pro.Wire.Types.{FileTransferOffer, FileTransferResponse}
use lan_mouse_pro.Wire.Bodies.Valid.{IsHash, IsOffer, laws_of_bytes, hash_nonempty}

abbrev offer_bytes : FileTransferOffer → List ℕ
offer_bytes e = e.sha256 ++ (prefixed e.name ++ (to_be_bytes 8 e.size ++ prefixed e.mime))

encode_offer-append :
    (buf : List ℕ) (e : FileTransferOffer) → IsOffer e → encode_offer buf e ≡ buf ++ offer_bytes e
unfolding encode_offer
encode_offer-append buf e v = simp (
  write_string-append _ e.name v.name.short,
  write_string-append _ e.mime v.mime.short,
  write_u64_be-append,
  write_hash-append,
  append_assoc,
)

decode_offer-offer_bytes :
    (e : FileTransferOffer) (rest : List ℕ)
    → IsOffer e
    → decode_offer (offer_bytes e ++ rest) ≡ ok (e, rest)
unfolding decode_offer
decode_offer-offer_bytes e rest v = simp append_assoc (
    rw (
      read_hash-append e.sha256 _ v.sha256,
      read_string-prefixed e.name _ v.name,
      read_u64_be-append e.size _ v.size,
      read_string-prefixed e.mime rest v.mime,
    ))

pub IsOffer-laws : VarCodecLaws encode_offer decode_offer IsOffer
IsOffer-laws =
    laws_of_bytes offer_bytes encode_offer-append (λ e v. hash_nonempty e.sha256 _ v.sha256)
      decode_offer-offer_bytes

encode_response-append :
    (buf : List ℕ) (e : FileTransferResponse)
    → IsHash e.sha256
    → encode_response buf e ≡ buf ++ (e.sha256 ++ write_bool [] e.accept)
unfolding encode_response
encode_response-append buf e v =
    rw (write_bool-append (write_hash buf e.sha256) e.accept)
      (simp (write_hash-append, append_assoc))

decode_response-bytes :
    (e : FileTransferResponse) (rest : List ℕ)
    → IsHash e.sha256
    → decode_response ((e.sha256 ++ write_bool [] e.accept) ++ rest) ≡ ok (e, rest)
unfolding decode_response
decode_response-bytes e rest v =
    simp append_assoc (rw (read_hash-append e.sha256 _ v, read_bool-write_bool e.accept rest))

pub response_laws : VarCodecLaws encode_response decode_response (λ e. IsHash e.sha256)
response_laws =
    laws_of_bytes (λ e. e.sha256 ++ write_bool [] e.accept) encode_response-append
      (λ e v. hash_nonempty e.sha256 _ v) decode_response-bytes

pub cancel_laws : VarCodecLaws encode_cancel decode_cancel (λ e. IsHash e.sha256)
unfolding encode_cancel decode_cancel
cancel_laws =
    laws_of_bytes (λ e. e.sha256) (λ buf e v. write_hash-append buf e.sha256) (λ e v. omega arith)
      (λ e rest v. rw (read_hash-append e.sha256 rest v))

pub request_laws : VarCodecLaws encode_request decode_request (λ e. IsHash e.sha256)
unfolding encode_request decode_request
request_laws =
    laws_of_bytes (λ e. e.sha256) (λ buf e v. write_hash-append buf e.sha256) (λ e v. omega arith)
      (λ e rest v. rw (read_hash-append e.sha256 rest v))
