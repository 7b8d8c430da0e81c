-- ===== src/Wire/Reading/Fields.antt =====
-- The field readers of codec.rs on any bytes.
use lan_mouse_pro.Common.{
  ℕ, zero, suc, ◌+◌, ◌≤◌, ◌≡◌, refl, sym, ap, ◌∙◌, ◌⊎◌, inl, inr, arith, Bool, List, [], ◌∷◌, ◌++◌,
  length, Bool-cases, ltb, length-append, length-take, if◌then◌else◌, take-append-drop,
  append_assoc, ltb→le, take, drop,
}
use lan_mouse_pro.Wire.Outcome.{ok, err, frame_too_short, Reader, ok-injective}
use lan_mouse_pro.Wire.Bytes.{from_be_bytes}
use lan_mouse_pro.Wire.Fields.{
  split_checked, read_hash, read_u64_be, read_bool, read_string, read_bytes, decode_items,
  read_vec_var,
}
use lan_mouse_pro.Wire.Fields.RoundTrip.{split_checked-append}
use lan_mouse_pro.Wire.Reading.{
  IsReader, IsReader-pure, IsReader-bind, IsReader-any, IsReader-lift, IsReader-fail,
}
use lan_mouse_pro.Wire.Utf8.{is_utf8}

-- A successful split cuts the input in two, the first part of the length asked for.
pub split_checked_ok :
    (n : ℕ) (bs : List ℕ) (p : List ℕ × List ℕ)
    → split_checked n bs ≡ ok p
    → (bs ≡ p.0 ++ p.1) × (length p.0 ≡ n)
unfolding split_checked
split_checked_ok n bs p e = elim (Bool-cases (ltb (length bs) n)) [
  | inl short ↦ cc (rw short at e)
  | inr long ↦
      let parts : (take n bs, drop n bs) ≡ p = ok-injective (rw long at e) in
      let enough = ltb→le (length bs) n long in
      (
        sym (take-append-drop n bs) ∙ ap (λ q. q.0 ++ q.1) parts,
        omega (arith, ap (λ q. length q.0) parts, length-take n bs),
      )
]

split_checked_total :
    (n : ℕ) (bs : List ℕ)
    → ((p : List ℕ × List ℕ) × (split_checked n bs ≡ ok p))
      ⊎ (split_checked n bs ≡ err frame_too_short)
unfolding split_checked
split_checked_total n bs = elim (Bool-cases (ltb (length bs) n)) [
  | inl short ↦ inr (rw short)
  | inr long ↦ inl ((take n bs, drop n bs), rw long)
]

split_checked_extends :
    (n : ℕ) (bs more : List ℕ) (p : List ℕ × List ℕ)
    → split_checked n bs ≡ ok p
    → split_checked n (bs ++ more) ≡ ok (p.0, p.1 ++ more)
split_checked_extends n bs more p e =
    let (cut, size) = split_checked_ok n bs p e in
    rw (cut, append_assoc p.0 p.1 more) (split_checked-append n p.0 (p.1 ++ more) size)

pub split_checked-IsReader : (n : ℕ) → IsReader n (split_checked n)
split_checked-IsReader n = record {
  total = split_checked_total n;
  extends = split_checked_extends n;
  consumes = λ bs p e.
      let (cut, size) = split_checked_ok n bs p e in
      omega (arith, ap length cut, length-append p.0 p.1);
}

pub read_hash-IsReader : IsReader 32 read_hash
unfolding read_hash
read_hash-IsReader = split_checked-IsReader 32

pub read_u64_be-IsReader : IsReader 8 read_u64_be
unfolding read_u64_be
read_u64_be-IsReader = IsReader-bind (split_checked-IsReader 8) (λ n. IsReader-pure _)

read_bool_total :
    (bs : List ℕ)
    → ((p : Bool × List ℕ) × (read_bool bs ≡ ok p)) ⊎ (read_bool bs ≡ err frame_too_short)
unfolding read_bool
read_bool_total [] = inr refl
read_bool_total (b ∷ bs) = inl (_, refl)

read_bool_extends :
    (bs more : List ℕ) (p : Bool × List ℕ)
    → read_bool bs ≡ ok p
    → read_bool (bs ++ more) ≡ ok (p.0, p.1 ++ more)
unfolding read_bool
read_bool_extends [] more p e = cc
read_bool_extends (b ∷ bs) more p e = ap (λ q. ok (q.0, q.1 ++ more)) (ok-injective e)

read_bool_consumes :
    (bs : List ℕ) (p : Bool × List ℕ) → read_bool bs ≡ ok p → length p.1 + 1 ≤ length bs
unfolding read_bool
read_bool_consumes [] p e = cc
read_bool_consumes (b ∷ bs) p e = omega (arith, ap (λ q. length q.1) (ok-injective e))

pub read_bool-IsReader : IsReader 1 read_bool
read_bool-IsReader = record {
  total = read_bool_total;
  extends = read_bool_extends;
  consumes = read_bool_consumes;
}

-- The test of `String::from_utf8`.
utf8_checked :
    (s : List ℕ) → IsReader 0 (λ after. if is_utf8 s then ok (s, after) else err frame_too_short)
utf8_checked s = elim (Bool-cases (is_utf8 s)) [
  | inl good ↦ rw good (IsReader-pure s)
  | inr bad ↦ rw bad (IsReader-fail)
]

pub read_string-IsReader : IsReader 4 read_string
unfolding read_string
read_string-IsReader =
    IsReader-bind (split_checked-IsReader 4)
      (λ n. IsReader-bind (IsReader-any (split_checked-IsReader (from_be_bytes n))) utf8_checked)

pub read_bytes-IsReader : IsReader 4 read_bytes
unfolding read_bytes
read_bytes-IsReader =
    IsReader-bind (split_checked-IsReader 4)
      (λ n. IsReader-any (split_checked-IsReader (from_be_bytes n)))

module _ {ℓ} {T : Type ℓ} {k : ℕ} {decode : Reader T} (item : IsReader (suc k) decode) where
  -- The loop ends: an item takes a byte at least, so a round for each byte is enough.
  decode_items_total :
      (fuel : ℕ) (bs : List ℕ)
      → length bs ≤ fuel
      → ((items : List T) × (decode_items fuel decode bs ≡ ok items))
        ⊎ (decode_items fuel decode bs ≡ err frame_too_short)
  unfolding decode_items
  decode_items_total fuel [] h = inl ([], refl)
  decode_items_total zero (b ∷ bs) h = absurd (omega arith)
  decode_items_total (suc fuel) (b ∷ bs) h = elim (item.total (b ∷ bs)) [
    | inl (p, e) ↦
        rw e (elim (decode_items_total fuel p.1 (omega (arith, item.consumes (b ∷ bs) p e))) [
          | inl (items, r) ↦ inl (p.0 ∷ items, rw r)
          | inr r ↦ inr (rw r)
        ])
    | inr e ↦ inr (rw e)
  ]

  pub read_vec_var-IsReader : IsReader 4 (read_vec_var decode)
  unfolding read_vec_var
  read_vec_var-IsReader = IsReader-bind (split_checked-IsReader 4) (λ n.
      IsReader-bind (IsReader-any (split_checked-IsReader (from_be_bytes n))) (λ body.
        IsReader-lift (decode_items (length body) decode body)
          (decode_items_total (length body) body (omega arith))))
