-- ===== src/Wire/Fields.antt =====
-- lan-mouse-proto/src/codec.rs, "VarCodec helpers": one writer and one reader for each kind of
-- field. A writer appends to the buffer it is given.
pub mod Vectors
pub mod RoundTrip
use lan_mouse_pro.Common.{
  ℕ, zero, suc, ◌+◌, ◌-◌, ◌%◌, ◌^◌, Bool, not, ltb, ◌==◌, if◌then◌else◌, List, [], ◌∷◌, ◌++◌,
  length, take, drop,
}
use lan_mouse_pro.Wire.Bytes.{to_be_bytes, from_be_bytes}
use lan_mouse_pro.Wire.Outcome.{Outcome, ok, err, panic, frame_too_short, Reader, ◌>>=◌}
use lan_mouse_pro.Wire.Utf8.{is_utf8}

-- `if buf.len() < n { return Err(FrameTooShort) }` and `buf.split_at(n)`.
unfoldable pub split_checked : ℕ → Reader (List ℕ)
split_checked n buf =
    if ltb (length buf) n then err frame_too_short else ok (take n buf, drop n buf)

unfoldable pub write_hash : List ℕ → List ℕ → List ℕ
write_hash buf h = buf ++ h

unfoldable pub read_hash : Reader (List ℕ)
read_hash buf = split_checked 32 buf

unfoldable pub write_u64_be : List ℕ → ℕ → List ℕ
write_u64_be buf n = buf ++ to_be_bytes 8 n

unfoldable pub read_u64_be : Reader ℕ
read_u64_be buf = do (n, rest) ← split_checked 8 buf; ok (from_be_bytes n, rest)

unfoldable pub write_bool : List ℕ → Bool → List ℕ
write_bool buf b = buf ++ ((if b then 1 else 0) ∷ [])

-- `buf.is_empty()`, `split_at(1)` and `b[0] != 0`.
unfoldable pub read_bool : Reader Bool
read_bool [] = err frame_too_short
read_bool (b ∷ rest) = ok (not (b == 0), rest)

unfoldable pub write_string : List ℕ → List ℕ → List ℕ
write_string buf s = buf ++ (to_be_bytes 4 (length s % 2 ^ 32) ++ s)

unfoldable pub read_string : Reader (List ℕ)
read_string buf = do
  (len_bytes, rest) ← split_checked 4 buf
  (s_bytes, after) ← split_checked (from_be_bytes len_bytes) rest
  if is_utf8 s_bytes then ok (s_bytes, after) else err frame_too_short

unfoldable pub write_bytes : List ℕ → List ℕ → List ℕ
write_bytes buf b = buf ++ (to_be_bytes 4 (length b % 2 ^ 32) ++ b)

unfoldable pub read_bytes : Reader (List ℕ)
read_bytes buf = do
  (len_bytes, rest) ← split_checked 4 buf
  split_checked (from_be_bytes len_bytes) rest

module _ {ℓ} {T : Type ℓ} where
  -- The loop over `items` of `write_vec_var`.
  unfoldable pub encode_items : (List ℕ → T → List ℕ) → List ℕ → List T → List ℕ
  encode_items encode buf [] = buf
  encode_items encode buf (item ∷ items) = encode_items encode (encode buf item) items

  -- Four zero bytes are pushed, the items follow, and the length of what they took is written over
  -- the zeros.
  unfoldable pub write_vec_var : (List ℕ → T → List ℕ) → List ℕ → List T → List ℕ
  unfolding encode_items
  write_vec_var encode buf items =
      let len_pos = length buf in
      let open_buf = buf ++ (0 ∷ 0 ∷ 0 ∷ 0 ∷ []) in
      let body_start = length open_buf in
      let full = encode_items encode open_buf items in
      let body_len = (length full - body_start) % 2 ^ 32 in
      take len_pos full ++ (to_be_bytes 4 body_len ++ drop (len_pos + 4) full)

  -- `while !body.is_empty()` on fuel; `panic` where the fuel runs out.
  unfoldable pub decode_items : ℕ → Reader T → List ℕ → Outcome (List T)
  decode_items fuel decode [] = ok []
  decode_items zero decode (b ∷ bs) = panic
  decode_items (suc fuel) decode (b ∷ bs) = do
    (item, rest) ← decode (b ∷ bs)
    items ← decode_items fuel decode rest
    ok (item ∷ items)

  -- A body of n bytes gets n rounds: each takes a byte at least, for a `decode` that does.
  unfoldable pub read_vec_var : Reader T → Reader (List T)
  unfolding decode_items
  read_vec_var decode buf = do
    (len_bytes, rest) ← split_checked 4 buf
    (body, after) ← split_checked (from_be_bytes len_bytes) rest
    items ← decode_items (length body) decode body
    ok (items, after)
