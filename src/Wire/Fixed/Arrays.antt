-- ===== src/Wire/Fixed/Arrays.antt =====
-- The byte loops of the `Hello` event: the arrays `magic` and `commit`.
use lan_mouse_pro.Common.{
  ℕ, zero, suc, ◌+◌, ◌≤◌, ◌≡◌, refl, sym, ap, ◌∙◌, arith, List, [], ◌∷◌, ◌++◌, length, drop, All,
  le→ltb, append_assoc, append-nil, length-drop,
}
use lan_mouse_pro.Wire.Bytes.{IsByte, to_be_bytes, from_be_bytes}
use lan_mouse_pro.Wire.Fixed.{ArrayWriter, encode_int, encode_u8s, decode_int, decode_u8s}
use lan_mouse_pro.Wire.Outcome.{Outcome, ok}

one_byte : (b : ℕ) → IsByte b → to_be_bytes 1 b ≡ b ∷ []
unfolding to_be_bytes
one_byte b h = ap (λ (x : ℕ). x ∷ []) (omega arith)

pub decode_int_one : (b : ℕ) (rest : List ℕ) → decode_int 1 (b ∷ rest) ≡ ok (b, rest)
unfolding decode_int from_be_bytes
decode_int_one b rest = ground arith

pub decode_u8s-append :
    (n : ℕ) (bs rest : List ℕ) → length bs ≡ n → decode_u8s n (bs ++ rest) ≡ ok (bs, rest)
unfolding decode_u8s
decode_u8s-append zero [] rest h = refl
decode_u8s-append zero (b ∷ bs) rest h = absurd (omega arith)
decode_u8s-append (suc n) [] rest h = absurd (omega arith)
decode_u8s-append (suc n) (b ∷ bs) rest h =
    rw (decode_int_one b (bs ++ rest), decode_u8s-append n bs rest (omega arith))

drop-drop : (n : ℕ) (xs : List ℕ) → drop n (drop 1 xs) ≡ drop (suc n) xs
drop-drop zero [] = refl
drop-drop (suc n) [] = refl
drop-drop zero (x ∷ xs) = refl
drop-drop (suc n) (x ∷ xs) = refl

encode_int_one :
    (b : ℕ) (w : ArrayWriter)
    → IsByte b
    → 1 ≤ length w.rest
    → encode_int 1 b w
      ≡ ok (record { written = w.written ++ (b ∷ []); rest = drop 1 w.rest; len = w.len + 1 })
unfolding encode_int
encode_int_one b w v h = rw (le→ltb (length w.rest) 1 h, one_byte b v)

same_writer :
    {a b : List ℕ} {c d : List ℕ} {m n : ℕ}
    → a ≡ b
    → c ≡ d
    → m ≡ n
    → ◌≡◌ {A = Outcome ArrayWriter}
        (ok (record { written = a; rest = c; len = m }))
        (ok (record { written = b; rest = d; len = n }))
same_writer p q r = λ i. ok (record { written = p i; rest = q i; len = r i })

pub encode_u8s_lem :
    (bs : List ℕ) (w : ArrayWriter)
    → All IsByte bs
    → length bs ≤ length w.rest
    → encode_u8s bs w
      ≡ ok (record {
        written = w.written ++ bs;
        rest = drop (length bs) w.rest;
        len = w.len + length bs;
      })
unfolding encode_u8s
encode_u8s_lem [] w v h = same_writer (sym (append-nil w.written)) refl (omega arith)
encode_u8s_lem (b ∷ bs) w v h =
    let w' : ArrayWriter = record {
      written = w.written ++ (b ∷ []);
      rest = drop 1 w.rest;
      len = w.len + 1;
    } in
    rw (encode_int_one b w v.0 (omega arith)) (
      encode_u8s_lem bs w' v.1 (omega (arith, length-drop 1 w.rest))
      ∙ same_writer (append_assoc w.written (b ∷ []) bs) (drop-drop (length bs) w.rest)
          (omega arith))
