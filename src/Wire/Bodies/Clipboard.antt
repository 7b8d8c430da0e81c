-- ===== src/Wire/Bodies/Clipboard.antt =====
-- codec.rs: the laws of `VarCodec` for the clipboard events and their `FileEntry` items.
use lan_mouse_pro.Common.{
  ℕ, ◌<◌, ◌≡◌, refl, ◌∙◌, arith, Bool, true, false, List, [], ◌∷◌, Option, none, some, ◌++◌, length,
  length-append, append_assoc,
}
use lan_mouse_pro.Wire.Bytes.{to_be_bytes, length-to_be_bytes}
use lan_mouse_pro.Wire.Fields.{write_hash, read_bool, encode_items}
use lan_mouse_pro.Wire.Fields.RoundTrip.{
  prefixed, write_hash-append, read_hash-append, write_u64_be-append, read_u64_be-append,
  write_string-append, read_string-prefixed, write_bytes-append, read_bytes-prefixed,
}
use lan_mouse_pro.Wire.Fields.Vectors.{VarCodecLaws, write_vec_var-append, read_vec_var-prefixed}
use lan_mouse_pro.Wire.Bodies.{
  encode_inline, decode_inline, encode_text, decode_text, encode_image, decode_image, encode_entry,
  decode_entry, encode_files, decode_files,
}
use lan_mouse_pro.Wire.Outcome.{ok}
use lan_mouse_pro.Wire.Types.{FileEntry, ClipboardText, ClipboardImage, ClipboardFiles}
use lan_mouse_pro.Wire.Bodies.Valid.{
  IsInline, IsEntry, IsText, IsImage, IsFiles, laws_of_bytes, hash_nonempty,
}

abbrev entry_bytes : FileEntry → List ℕ
entry_bytes e = prefixed e.name ++ (to_be_bytes 8 e.size ++ (prefixed e.mime ++ e.sha256))

encode_entry-append :
    (buf : List ℕ) (e : FileEntry) → IsEntry e → encode_entry buf e ≡ buf ++ entry_bytes e
unfolding encode_entry
encode_entry-append buf e v = simp (
  write_string-append buf e.name v.name.short,
  write_string-append _ e.mime v.mime.short,
  write_u64_be-append,
  write_hash-append,
  append_assoc,
)

decode_entry-entry_bytes :
    (e : FileEntry) (rest : List ℕ)
    → IsEntry e
    → decode_entry (entry_bytes e ++ rest) ≡ ok (e, rest)
unfolding decode_entry
decode_entry-entry_bytes e rest v = simp append_assoc (
    rw (
      read_string-prefixed e.name _ v.name,
      read_u64_be-append e.size _ v.size,
      read_string-prefixed e.mime _ v.mime,
      read_hash-append e.sha256 rest v.sha256,
    ))

entry_nonempty : (e : FileEntry) → IsEntry e → 0 < length (entry_bytes e)
entry_nonempty e v = omega (
  arith,
  length-append (prefixed e.name) (to_be_bytes 8 e.size ++ (prefixed e.mime ++ e.sha256)),
  length-append (to_be_bytes 8 e.size) (prefixed e.mime ++ e.sha256),
  length-to_be_bytes 8 e.size,
)

pub IsEntry-laws : VarCodecLaws encode_entry decode_entry IsEntry
IsEntry-laws = laws_of_bytes entry_bytes encode_entry-append entry_nonempty decode_entry-entry_bytes

inline_bytes : Option (List ℕ) → List ℕ
inline_bytes none = 0 ∷ []
inline_bytes (some bytes) = 1 ∷ prefixed bytes

abbrev text_bytes : ClipboardText → List ℕ
text_bytes e =
    e.fingerprint ++ (e.sha256 ++ (to_be_bytes 8 e.size ++ inline_bytes e.content_inline))

encode_inline-append :
    (buf : List ℕ) (o : Option (List ℕ)) → IsInline o → encode_inline buf o ≡ buf ++ inline_bytes o
unfolding encode_inline inline_bytes
encode_inline-append buf none v = refl
encode_inline-append buf (some bytes) v =
    rw (write_bytes-append (buf ++ (1 ∷ [])) bytes v) (append_assoc buf (1 ∷ []) (prefixed bytes))

abbrev has_inline : Option (List ℕ) → Bool
has_inline none = false
has_inline (some bytes) = true

abbrev payload : Option (List ℕ) → List ℕ
payload none = []
payload (some bytes) = prefixed bytes

read_bool-inline_bytes :
    (o : Option (List ℕ)) (rest : List ℕ)
    → read_bool (inline_bytes o ++ rest) ≡ ok (has_inline o, payload o ++ rest)
unfolding inline_bytes read_bool
read_bool-inline_bytes none rest = refl
read_bool-inline_bytes (some bytes) rest = refl

decode_inline-payload :
    (o : Option (List ℕ)) (rest : List ℕ)
    → IsInline o
    → decode_inline (has_inline o) (payload o ++ rest) ≡ ok (o, rest)
unfolding decode_inline
decode_inline-payload none rest v = refl
decode_inline-payload (some bytes) rest v = rw (read_bytes-prefixed bytes rest v)

encode_text-append :
    (buf : List ℕ) (e : ClipboardText) → IsText e → encode_text buf e ≡ buf ++ text_bytes e
unfolding encode_text
encode_text-append buf e v = simp (
  encode_inline-append _ e.content_inline v.content_inline,
  write_u64_be-append,
  write_hash-append,
  append_assoc,
)

decode_text-text_bytes :
    (e : ClipboardText) (rest : List ℕ)
    → IsText e
    → decode_text (text_bytes e ++ rest) ≡ ok (e, rest)
unfolding decode_text
decode_text-text_bytes e rest v = simp append_assoc (
    rw (
      read_hash-append e.fingerprint _ v.fingerprint,
      read_hash-append e.sha256 _ v.sha256,
      read_u64_be-append e.size _ v.size,
      read_bool-inline_bytes e.content_inline rest,
      decode_inline-payload e.content_inline rest v.content_inline,
    ))

pub IsText-laws : VarCodecLaws encode_text decode_text IsText
IsText-laws =
    laws_of_bytes text_bytes encode_text-append (λ e v. hash_nonempty e.fingerprint _ v.fingerprint)
      decode_text-text_bytes

abbrev image_bytes : ClipboardImage → List ℕ
image_bytes e = e.fingerprint ++ (prefixed e.mime ++ (e.sha256 ++ to_be_bytes 8 e.size))

encode_image-append :
    (buf : List ℕ) (e : ClipboardImage) → IsImage e → encode_image buf e ≡ buf ++ image_bytes e
unfolding encode_image
encode_image-append buf e v = simp (
  write_string-append _ e.mime v.mime.short,
  write_u64_be-append,
  write_hash-append,
  append_assoc,
)

decode_image-image_bytes :
    (e : ClipboardImage) (rest : List ℕ)
    → IsImage e
    → decode_image (image_bytes e ++ rest) ≡ ok (e, rest)
unfolding decode_image
decode_image-image_bytes e rest v = simp append_assoc (
    rw (
      read_hash-append e.fingerprint _ v.fingerprint,
      read_string-prefixed e.mime _ v.mime,
      read_hash-append e.sha256 _ v.sha256,
      read_u64_be-append e.size rest v.size,
    ))

pub IsImage-laws : VarCodecLaws encode_image decode_image IsImage
IsImage-laws =
    laws_of_bytes image_bytes encode_image-append
      (λ e v. hash_nonempty e.fingerprint _ v.fingerprint) decode_image-image_bytes

abbrev files_bytes : ClipboardFiles → List ℕ
files_bytes e = e.fingerprint ++ prefixed (encode_items encode_entry [] e.entries)

encode_files-append :
    (buf : List ℕ) (e : ClipboardFiles) → IsFiles e → encode_files buf e ≡ buf ++ files_bytes e
unfolding encode_files
encode_files-append buf e v =
    write_vec_var-append IsEntry-laws (write_hash buf e.fingerprint) e.entries v.entries v.fits
    ∙ simp (write_hash-append, append_assoc)

decode_files-files_bytes :
    (e : ClipboardFiles) (rest : List ℕ)
    → IsFiles e
    → decode_files (files_bytes e ++ rest) ≡ ok (e, rest)
unfolding decode_files
decode_files-files_bytes e rest v = simp append_assoc (
    rw (
      read_hash-append e.fingerprint _ v.fingerprint,
      read_vec_var-prefixed IsEntry-laws e.entries rest v.entries v.fits,
    ))

pub IsFiles-laws : VarCodecLaws encode_files decode_files IsFiles
IsFiles-laws =
    laws_of_bytes files_bytes encode_files-append
      (λ e v. hash_nonempty e.fingerprint _ v.fingerprint) decode_files-files_bytes
