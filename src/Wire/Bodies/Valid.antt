-- ===== src/Wire/Bodies/Valid.antt =====
-- When an event of codec.rs can be encoded, and the laws of a codec from the bytes that it writes.
use lan_mouse_pro.Common.{
  ℕ, ◌^◌, ◌<◌, ◌≡◌, sym, ap, ◌∙◌, arith, List, [], Option, none, some, ◌++◌, length, length-append,
  All,
}
use lan_mouse_pro.Wire.Fields.{encode_items}
use lan_mouse_pro.Wire.Fields.RoundTrip.{IsString}
use lan_mouse_pro.Wire.Fields.Vectors.{VarCodecLaws}
use lan_mouse_pro.Wire.Bodies.{encode_entry}
use lan_mouse_pro.Wire.Outcome.{ok, Reader}
use lan_mouse_pro.Wire.Types.{
  FileEntry, ClipboardText, ClipboardImage, ClipboardFiles, FileTransferOffer,
}

-- What the Rust types say of a value: a hash has 32 bytes, a string is UTF-8, a size is a u64. A
-- string or an inline payload is also short enough for its u32 length prefix.
abbrev pub IsHash : List ℕ → Type 0
IsHash h = length h ≡ 32

abbrev pub IsInline : Option (List ℕ) → Type 0
IsInline none = Unit {0}
IsInline (some bytes) = length bytes < 2 ^ 32

pub record IsEntry (e : FileEntry) : Type 0 where
  pub name : IsString e.name
  pub size : e.size < 2 ^ 64
  pub mime : IsString e.mime
  pub sha256 : IsHash e.sha256

pub record IsText (e : ClipboardText) : Type 0 where
  pub fingerprint : IsHash e.fingerprint
  pub sha256 : IsHash e.sha256
  pub size : e.size < 2 ^ 64
  pub content_inline : IsInline e.content_inline

pub record IsImage (e : ClipboardImage) : Type 0 where
  pub fingerprint : IsHash e.fingerprint
  pub mime : IsString e.mime
  pub sha256 : IsHash e.sha256
  pub size : e.size < 2 ^ 64

pub record IsFiles (e : ClipboardFiles) : Type 0 where
  pub fingerprint : IsHash e.fingerprint
  pub entries : All IsEntry e.entries
  pub fits : length (encode_items encode_entry [] e.entries) < 2 ^ 32

pub record IsOffer (e : FileTransferOffer) : Type 0 where
  pub sha256 : IsHash e.sha256
  pub name : IsString e.name
  pub size : e.size < 2 ^ 64
  pub mime : IsString e.mime

-- The laws of a codec whose encoding is stated as a list of bytes.
pub laws_of_bytes {ℓ κ} :
    {T : Type ℓ} {encode : List ℕ → T → List ℕ} {decode : Reader T} {IsValid : T → Type κ}
    (bytes : T → List ℕ)
    → ((buf : List ℕ) (e : T) → IsValid e → encode buf e ≡ buf ++ bytes e)
    → ((e : T) → IsValid e → 0 < length (bytes e))
    → ((e : T) (rest : List ℕ) → IsValid e → decode (bytes e ++ rest) ≡ ok (e, rest))
    → VarCodecLaws encode decode IsValid
laws_of_bytes bytes appends nonempty reads = record {
  appends = λ buf e v. appends buf e v ∙ ap (◌++◌ buf) (sym (appends [] e v));
  nonempty = λ e v. rw (appends [] e v) (nonempty e v);
  reads = λ e rest v. rw (appends [] e v) (reads e rest v);
}

-- Bytes that begin with a hash are not empty.
pub hash_nonempty : (h rest : List ℕ) → IsHash h → 0 < length (h ++ rest)
hash_nonempty h rest e = omega (arith, length-append h rest)
