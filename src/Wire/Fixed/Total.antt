-- ===== src/Wire/Fixed/Total.antt =====
-- The fixed-size decoder on any array of `MAX_EVENT_SIZE` bytes.
use lan_mouse_pro.Common.{
  ℕ, ◌-◌, ◌≤◌, ◌≡◌, ◌≢◌, true, List, length, drop, length-drop, length-take, take-append-drop,
  Option-cases, inl, inr, le→ltb, arith, take,
}
use lan_mouse_pro.Wire.Bytes.{from_be_bytes}
use lan_mouse_pro.Wire.EventTypes.{
  nth, all_positions, all_event_types, position_of, event_type_of, is_fixed,
}
use lan_mouse_pro.Wire.Fixed.{decode_int, decode_u8s, decode_fixed_body}
use lan_mouse_pro.Wire.Fixed.Arrays.{decode_u8s-append}
use lan_mouse_pro.Wire.Outcome.{Outcome, ok, panic, ◌>>=◌, >>=-ne-panic}
use lan_mouse_pro.Wire.Types.{EventType}

decode_u8s_ok :
    (n : ℕ) (buf : List ℕ) → n ≤ length buf → decode_u8s n buf ≡ ok (take n buf, drop n buf)
decode_u8s_ok n buf h =
    rw (take-append-drop n buf) at
      (decode_u8s-append n (take n buf) (drop n buf) (omega (arith, length-take n buf)))

module _ {ℓ} {A : Type ℓ} where
  -- A read of `k` bytes that are there, and what goes on with the bytes left.
  after_int :
      (k : ℕ) (buf : List ℕ) (f : ℕ × List ℕ → Outcome A)
      → k ≤ length buf
      → ((n : ℕ) (rest : List ℕ) → length rest ≡ length buf - k → f (n, rest) ≢ panic)
      → (decode_int k buf >>= f) ≢ panic
  unfolding decode_int
  after_int k buf f h next =
      rw (le→ltb (length buf) k h)
        (next (from_be_bytes (take k buf)) (drop k buf) (length-drop k buf))

  after_u8s :
      (n : ℕ) (buf : List ℕ) (f : List ℕ × List ℕ → Outcome A)
      → n ≤ length buf
      → ((bs rest : List ℕ) → length rest ≡ length buf - n → f (bs, rest) ≢ panic)
      → (decode_u8s n buf >>= f) ≢ panic
  after_u8s n buf f h next =
      rw (decode_u8s_ok n buf h) (next (take n buf) (drop n buf) (length-drop n buf))

ok_ne_panic {ℓ} : {A : Type ℓ} {a : A} → ok a ≢ panic
ok_ne_panic e = cc

position_of-ne-panic : (n : ℕ) → position_of n ≢ panic
unfolding position_of
position_of-ne-panic n = elim (Option-cases (nth all_positions n)) [
  | inl e ↦ rw e (λ p. cc)
  | inr (x, e) ↦ rw e (λ p. cc)
]

pub event_type_of-ne-panic : (n : ℕ) → event_type_of n ≢ panic
unfolding event_type_of
event_type_of-ne-panic n = elim (Option-cases (nth all_event_types n)) [
  | inl e ↦ rw e (λ p. cc)
  | inr (x, e) ↦ rw e (λ p. cc)
]

pub decode_fixed_body-ne-panic :
    (t : EventType) (buf : List ℕ)
    → is_fixed t ≡ true
    → length buf ≡ 20
    → decode_fixed_body t buf ≢ panic
unfolding decode_fixed_body
decode_fixed_body-ne-panic EventType.pointer_motion buf h size =
    after_int 4 buf _ (omega arith) λ time buf₁ h₁.
      after_int 8 buf₁ _ (omega arith)
        λ dx buf₂ h₂. after_int 8 buf₂ _ (omega arith) λ dy buf₃ h₃. ok_ne_panic
decode_fixed_body-ne-panic EventType.pointer_button buf h size =
    after_int 4 buf _ (omega arith) λ time buf₁ h₁.
      after_int 4 buf₁ _ (omega arith)
        λ button buf₂ h₂. after_int 4 buf₂ _ (omega arith) λ state buf₃ h₃. ok_ne_panic
decode_fixed_body-ne-panic EventType.pointer_axis buf h size =
    after_int 4 buf _ (omega arith) λ time buf₁ h₁.
      after_int 1 buf₁ _ (omega arith)
        λ axis buf₂ h₂. after_int 8 buf₂ _ (omega arith) λ value buf₃ h₃. ok_ne_panic
decode_fixed_body-ne-panic EventType.pointer_axis_value120 buf h size =
    after_int 1 buf _ (omega arith)
      λ axis buf₁ h₁. after_int 4 buf₁ _ (omega arith) λ value buf₂ h₂. ok_ne_panic
decode_fixed_body-ne-panic EventType.keyboard_key buf h size =
    after_int 4 buf _ (omega arith) λ time buf₁ h₁.
      after_int 4 buf₁ _ (omega arith)
        λ key buf₂ h₂. after_int 1 buf₂ _ (omega arith) λ state buf₃ h₃. ok_ne_panic
decode_fixed_body-ne-panic EventType.keyboard_modifiers buf h size =
    after_int 4 buf _ (omega arith) λ depressed buf₁ h₁.
      after_int 4 buf₁ _ (omega arith) λ latched buf₂ h₂.
        after_int 4 buf₂ _ (omega arith)
          λ locked buf₃ h₃. after_int 4 buf₃ _ (omega arith) λ group buf₄ h₄. ok_ne_panic
decode_fixed_body-ne-panic EventType.pong buf h size =
    after_int 1 buf _ (omega arith) λ alive buf₁ h₁. ok_ne_panic
decode_fixed_body-ne-panic EventType.leave buf h size =
    after_int 4 buf _ (omega arith) λ serial buf₁ h₁. ok_ne_panic
decode_fixed_body-ne-panic EventType.ack buf h size =
    after_int 4 buf _ (omega arith) λ serial buf₁ h₁. ok_ne_panic
decode_fixed_body-ne-panic EventType.ping buf h size = ok_ne_panic
decode_fixed_body-ne-panic EventType.enter buf h size =
    after_int 1 buf _ (omega arith) λ code buf₁ h₁.
      >>=-ne-panic (position_of code) _ (position_of-ne-panic code) (λ p e. ok_ne_panic)
decode_fixed_body-ne-panic EventType.hello buf h size =
    after_u8s 8 buf _ (omega arith)
      λ magic buf₁ h₁. after_u8s 8 buf₁ _ (omega arith) λ commit buf₂ h₂. ok_ne_panic
decode_fixed_body-ne-panic _ buf h size = unfold is_fixed in cc
