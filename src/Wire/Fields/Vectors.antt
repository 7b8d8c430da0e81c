-- ===== src/Wire/Fields/Vectors.antt =====
-- `write_vec_var` and `read_vec_var`, for any item codec that keeps the laws of the trait
-- `VarCodec`.
use lan_mouse_pro.Common.{
  ℕ, zero, suc, ◌+◌, ◌-◌, ◌%◌, ◌^◌, ◌<◌, ◌≤◌, ◌≡◌, refl, sym, ap, ◌∙◌, arith, List, [], ◌∷◌, ◌++◌,
  length, take, drop, length-append, take-append, drop-append, append_assoc, append-nil, All,
}
use lan_mouse_pro.Wire.Bytes.{to_be_bytes, from_be_bytes-to_be_bytes}
use lan_mouse_pro.Wire.Fields.{encode_items, write_vec_var, decode_items, read_vec_var}
use lan_mouse_pro.Wire.Fields.RoundTrip.{prefixed, split_length, split_checked-append}
use lan_mouse_pro.Wire.Outcome.{ok, Reader, ◌>>=◌}

-- What the trait `VarCodec` asks of an implementation, for the values that satisfy `IsValid`.
pub record VarCodecLaws {ℓ κ} {T : Type ℓ} (encode : List ℕ → T → List ℕ) (decode : Reader T)
    (IsValid : T → Type κ) : Type (ℓ ⊔ κ) where
  pub appends : (buf : List ℕ) (e : T) → IsValid e → encode buf e ≡ buf ++ encode [] e
  pub nonempty : (e : T) → IsValid e → 0 < length (encode [] e)
  pub reads : (e : T) (rest : List ℕ) → IsValid e → decode (encode [] e ++ rest) ≡ ok (e, rest)

abbrev four_zeros : List ℕ
four_zeros = 0 ∷ 0 ∷ 0 ∷ 0 ∷ []

-- To write the length of `body` over the four zeros before it.
patch_length :
    (buf body : List ℕ)
    → length body < 2 ^ 32
    → let full = (buf ++ four_zeros) ++ body in
      take (length buf) full
        ++ (to_be_bytes 4 ((length full - length (buf ++ four_zeros)) % 2 ^ 32)
            ++ drop (length buf + 4) full)
      ≡ buf ++ prefixed body
unfolding prefixed
patch_length buf body h =
    let full = (buf ++ four_zeros) ++ body in
    let front : take (length buf) full ≡ buf =
      rw (append_assoc buf four_zeros body)
        (take-append (length buf) buf (four_zeros ++ body) refl) in
    let back : drop (length buf + 4) full ≡ body =
      drop-append (length buf + 4) (buf ++ four_zeros) body (length-append buf four_zeros) in
    let size : (length full - length (buf ++ four_zeros)) % 2 ^ 32 ≡ length body =
      omega (arith, length-append (buf ++ four_zeros) body) in
    rw (front, back, size)

module _ {ℓ κ} {T : Type ℓ} {encode : List ℕ → T → List ℕ} {decode : Reader T}
    {IsValid : T → Type κ} (laws : VarCodecLaws encode decode IsValid) where
  encode_items-append :
      (buf : List ℕ) (items : List T)
      → All IsValid items
      → encode_items encode buf items ≡ buf ++ encode_items encode [] items
  unfolding encode_items
  encode_items-append buf [] v = sym (append-nil buf)
  encode_items-append buf (x ∷ xs) v =
      encode_items-append (encode buf x) xs v.1
      ∙ rw (laws.appends buf x v.0, append_assoc buf (encode [] x) (encode_items encode [] xs))
          (ap (◌++◌ buf) (sym (encode_items-append (encode [] x) xs v.1)))

  pub write_vec_var-append :
      (buf : List ℕ) (items : List T)
      → All IsValid items
      → length (encode_items encode [] items) < 2 ^ 32
      → write_vec_var encode buf items ≡ buf ++ prefixed (encode_items encode [] items)
  unfolding write_vec_var
  write_vec_var-append buf items v h =
      rw (encode_items-append (buf ++ four_zeros) items v)
        (patch_length buf (encode_items encode [] items) h)

  encode_items-cons :
      (x : T) (xs : List T)
      → All IsValid xs
      → encode_items encode [] (x ∷ xs) ≡ encode [] x ++ encode_items encode [] xs
  unfolding encode_items
  encode_items-cons x xs v = encode_items-append (encode [] x) xs v

  decode_items_step :
      (fuel : ℕ) (bs : List ℕ) (x : T) (rest : List ℕ)
      → 0 < length bs
      → decode bs ≡ ok (x, rest)
      → decode_items (suc fuel) decode bs
        ≡ (decode_items fuel decode rest >>= λ items. ok (x ∷ items))
  unfolding decode_items
  decode_items_step fuel [] x rest h e = absurd (omega arith)
  decode_items_step fuel (b ∷ bs) x rest h e = rw e

  decode_items-encode_items :
      (items : List T) (fuel : ℕ)
      → All IsValid items
      → length (encode_items encode [] items) ≤ fuel
      → decode_items fuel decode (encode_items encode [] items) ≡ ok items
  decode_items-encode_items [] fuel v h = unfold decode_items encode_items in refl
  decode_items-encode_items (x ∷ xs) zero v h = absurd (
      omega (
        arith,
        ap length (encode_items-cons x xs v.1),
        length-append (encode [] x) (encode_items encode [] xs),
        laws.nonempty x v.0,
      ))
  decode_items-encode_items (x ∷ xs) (suc fuel) v h =
      let tail = encode_items encode [] xs in
      let sizes = length-append (encode [] x) tail in
      let longer : 0 < length (encode [] x ++ tail) = omega (arith, sizes, laws.nonempty x v.0) in
      let fits : length tail ≤ fuel =
        omega (arith, ap length (encode_items-cons x xs v.1), sizes, laws.nonempty x v.0) in
      rw (
        encode_items-cons x xs v.1,
        decode_items_step fuel (encode [] x ++ tail) x tail longer (laws.reads x tail v.0),
        decode_items-encode_items xs fuel v.1 fits,
      )

  pub read_vec_var-prefixed :
      (items : List T) (rest : List ℕ)
      → All IsValid items
      → length (encode_items encode [] items) < 2 ^ 32
      → read_vec_var decode (prefixed (encode_items encode [] items) ++ rest) ≡ ok (items, rest)
  unfolding read_vec_var prefixed
  read_vec_var-prefixed items rest v h =
      let body = encode_items encode [] items in
      rw (
        append_assoc (to_be_bytes 4 (length body)) body rest,
        split_length (length body) (body ++ rest),
        from_be_bytes-to_be_bytes 4 (length body) h,
        split_checked-append (length body) body rest refl,
        decode_items-encode_items items (length body) v (omega arith),
      )
