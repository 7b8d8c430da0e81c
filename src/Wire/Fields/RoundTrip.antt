-- ===== src/Wire/Fields/RoundTrip.antt =====
-- The writers and the readers of codec.rs, field by field.
use lan_mouse_pro.Common.{
  ℕ, ◌%◌, ◌^◌, ◌<◌, ◌≡◌, refl, ap, arith, Bool, true, false, List, [], ◌++◌, length, length-append,
  take-append, drop-append, append_assoc, le→ltb,
}
use lan_mouse_pro.Wire.Bytes.{to_be_bytes, length-to_be_bytes, from_be_bytes-to_be_bytes}
use lan_mouse_pro.Wire.Fields.{
  split_checked, write_hash, read_hash, write_u64_be, read_u64_be, write_bool, read_bool,
  write_string, read_string, write_bytes, read_bytes,
}
use lan_mouse_pro.Wire.Outcome.{ok}
use lan_mouse_pro.Wire.Utf8.{is_utf8}

-- A string field that the writer can hold: valid UTF-8, and a length that fits a u32.
pub record IsString (s : List ℕ) : Type 0 where
  pub utf8 : is_utf8 s ≡ true
  pub short : length s < 2 ^ 32

-- A length-prefixed field.
unfoldable pub prefixed : List ℕ → List ℕ
prefixed s = to_be_bytes 4 (length s) ++ s

pub split_checked-append :
    (n : ℕ) (xs rest : List ℕ) → length xs ≡ n → split_checked n (xs ++ rest) ≡ ok (xs, rest)
unfolding split_checked
split_checked-append n xs rest h =
    rw (le→ltb (length (xs ++ rest)) n (omega (arith, length-append xs rest)))
      (rw (take-append n xs rest h, drop-append n xs rest h))

pub write_hash-append : (buf h : List ℕ) → write_hash buf h ≡ buf ++ h
unfolding write_hash
write_hash-append buf h = refl

pub read_hash-append : (h rest : List ℕ) → length h ≡ 32 → read_hash (h ++ rest) ≡ ok (h, rest)
unfolding read_hash
read_hash-append h rest e = split_checked-append 32 h rest e

pub write_u64_be-append : (buf : List ℕ) (n : ℕ) → write_u64_be buf n ≡ buf ++ to_be_bytes 8 n
unfolding write_u64_be
write_u64_be-append buf n = refl

pub read_u64_be-append :
    (n : ℕ) (rest : List ℕ) → n < 2 ^ 64 → read_u64_be (to_be_bytes 8 n ++ rest) ≡ ok (n, rest)
unfolding read_u64_be
read_u64_be-append n rest h = rw (
  split_checked-append 8 (to_be_bytes 8 n) rest (length-to_be_bytes 8 n),
  from_be_bytes-to_be_bytes 8 n h,
)

pub write_bool-append : (buf : List ℕ) (b : Bool) → write_bool buf b ≡ buf ++ write_bool [] b
unfolding write_bool
write_bool-append buf b = refl

pub read_bool-write_bool :
    (b : Bool) (rest : List ℕ) → read_bool (write_bool [] b ++ rest) ≡ ok (b, rest)
unfolding read_bool write_bool
read_bool-write_bool true rest = refl
read_bool-write_bool false rest = refl

prefixed_mod :
    (s : List ℕ) → length s < 2 ^ 32 → to_be_bytes 4 (length s % 2 ^ 32) ++ s ≡ prefixed s
unfolding prefixed
prefixed_mod s h = ap (λ (n : ℕ). to_be_bytes 4 n ++ s) (omega arith)

pub write_string-append :
    (buf s : List ℕ) → length s < 2 ^ 32 → write_string buf s ≡ buf ++ prefixed s
unfolding write_string
write_string-append buf s h = ap (◌++◌ buf) (prefixed_mod s h)

pub write_bytes-append :
    (buf s : List ℕ) → length s < 2 ^ 32 → write_bytes buf s ≡ buf ++ prefixed s
unfolding write_bytes
write_bytes-append buf s h = ap (◌++◌ buf) (prefixed_mod s h)

-- The two steps that `read_string` and `read_bytes` begin with.
pub split_length :
    (n : ℕ) (rest : List ℕ) → split_checked 4 (to_be_bytes 4 n ++ rest) ≡ ok (to_be_bytes 4 n, rest)
split_length n rest = split_checked-append 4 (to_be_bytes 4 n) rest (length-to_be_bytes 4 n)

pub read_bytes-prefixed :
    (s rest : List ℕ) → length s < 2 ^ 32 → read_bytes (prefixed s ++ rest) ≡ ok (s, rest)
unfolding read_bytes prefixed
read_bytes-prefixed s rest h = rw (
  append_assoc (to_be_bytes 4 (length s)) s rest,
  split_length (length s) (s ++ rest),
  from_be_bytes-to_be_bytes 4 (length s) h,
  split_checked-append (length s) s rest refl,
)

pub read_string-prefixed :
    (s rest : List ℕ) → IsString s → read_string (prefixed s ++ rest) ≡ ok (s, rest)
unfolding read_string prefixed
read_string-prefixed s rest h = rw (
  append_assoc (to_be_bytes 4 (length s)) s rest,
  split_length (length s) (s ++ rest),
  from_be_bytes-to_be_bytes 4 (length s) h.short,
  split_checked-append (length s) s rest refl,
  h.utf8,
)
