-- ===== src/Wire/Bodies.antt =====
-- lan-mouse-proto/src/codec.rs, "VarCodec impls": `encode_var_body` and `decode_var_body` of each
-- variable-length event.
pub mod Valid
pub mod Clipboard
pub mod Transfer
use lan_mouse_pro.Common.{ℕ, Bool, true, false, List, [], ◌∷◌, ◌++◌, Option, none, some}
use lan_mouse_pro.Wire.Fields.{
  write_hash, read_hash, write_u64_be, read_u64_be, write_bool, read_bool, write_string,
  read_string, write_bytes, read_bytes, write_vec_var, read_vec_var,
}
use lan_mouse_pro.Wire.Outcome.{ok, Reader, ◌>>=◌}
use lan_mouse_pro.Wire.Types.{
  FileEntry, ClipboardText, ClipboardImage, ClipboardFiles, FileTransferOffer, FileTransferResponse,
  FileTransferCancel, ClipboardRequest,
}

-- The `match &self.content_inline`.
unfoldable pub encode_inline : List ℕ → Option (List ℕ) → List ℕ
encode_inline buf (some bytes) = write_bytes (buf ++ (1 ∷ [])) bytes
encode_inline buf none = buf ++ (0 ∷ [])

unfoldable pub decode_inline : Bool → Reader (Option (List ℕ))
decode_inline true buf = do (bytes, rest) ← read_bytes buf; ok (some bytes, rest)
decode_inline false buf = ok (none, buf)

unfoldable pub encode_text : List ℕ → ClipboardText → List ℕ
encode_text buf e =
    encode_inline (write_u64_be (write_hash (write_hash buf e.fingerprint) e.sha256) e.size)
      e.content_inline

unfoldable pub decode_text : Reader ClipboardText
decode_text buf = do
  (fingerprint, buf) ← read_hash buf
  (sha256, buf) ← read_hash buf
  (size, buf) ← read_u64_be buf
  (has_inline, buf) ← read_bool buf
  (content_inline, buf) ← decode_inline has_inline buf
  ok (
    record {
      fingerprint = fingerprint;
      sha256 = sha256;
      size = size;
      content_inline = content_inline;
    },
    buf,
  )

unfoldable pub encode_image : List ℕ → ClipboardImage → List ℕ
encode_image buf e =
    write_u64_be (write_hash (write_string (write_hash buf e.fingerprint) e.mime) e.sha256) e.size

unfoldable pub decode_image : Reader ClipboardImage
decode_image buf = do
  (fingerprint, buf) ← read_hash buf
  (mime, buf) ← read_string buf
  (sha256, buf) ← read_hash buf
  (size, buf) ← read_u64_be buf
  ok (record { fingerprint = fingerprint; mime = mime; sha256 = sha256; size = size }, buf)

unfoldable pub encode_entry : List ℕ → FileEntry → List ℕ
encode_entry buf e =
    write_hash (write_string (write_u64_be (write_string buf e.name) e.size) e.mime) e.sha256

unfoldable pub decode_entry : Reader FileEntry
decode_entry buf = do
  (name, buf) ← read_string buf
  (size, buf) ← read_u64_be buf
  (mime, buf) ← read_string buf
  (sha256, buf) ← read_hash buf
  ok (record { name = name; size = size; mime = mime; sha256 = sha256 }, buf)

unfoldable pub encode_files : List ℕ → ClipboardFiles → List ℕ
encode_files buf e = write_vec_var encode_entry (write_hash buf e.fingerprint) e.entries

unfoldable pub decode_files : Reader ClipboardFiles
decode_files buf = do
  (fingerprint, buf) ← read_hash buf
  (entries, buf) ← read_vec_var decode_entry buf
  ok (record { fingerprint = fingerprint; entries = entries }, buf)

unfoldable pub encode_offer : List ℕ → FileTransferOffer → List ℕ
encode_offer buf e =
    write_string (write_u64_be (write_string (write_hash buf e.sha256) e.name) e.size) e.mime

unfoldable pub decode_offer : Reader FileTransferOffer
decode_offer buf = do
  (sha256, buf) ← read_hash buf
  (name, buf) ← read_string buf
  (size, buf) ← read_u64_be buf
  (mime, buf) ← read_string buf
  ok (record { sha256 = sha256; name = name; size = size; mime = mime }, buf)

unfoldable pub encode_response : List ℕ → FileTransferResponse → List ℕ
encode_response buf e = write_bool (write_hash buf e.sha256) e.accept

unfoldable pub decode_response : Reader FileTransferResponse
decode_response buf = do
  (sha256, buf) ← read_hash buf
  (accept, buf) ← read_bool buf
  ok (record { sha256 = sha256; accept = accept }, buf)

unfoldable pub encode_cancel : List ℕ → FileTransferCancel → List ℕ
encode_cancel buf e = write_hash buf e.sha256

unfoldable pub decode_cancel : Reader FileTransferCancel
decode_cancel buf = do (sha256, buf) ← read_hash buf; ok (record { sha256 = sha256 }, buf)

unfoldable pub encode_request : List ℕ → ClipboardRequest → List ℕ
encode_request buf e = write_hash buf e.sha256

unfoldable pub decode_request : Reader ClipboardRequest
decode_request buf = do (sha256, buf) ← read_hash buf; ok (record { sha256 = sha256 }, buf)
