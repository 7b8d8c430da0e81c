-- ===== src/Wire/Dispatch/Total.antt =====
-- The universal decoder on any bytes.
use lan_mouse_pro.Common.{
  ℕ, zero, suc, ◌-◌, ◌≡◌, ◌≢◌, inl, inr, refl, ap, true, false, List, [], ◌∷◌, length,
  length-append, length-take, take, arith, Bool-cases, replicate, min,
}
use lan_mouse_pro.Wire.Dispatch.{decode_event, expect_end, decode_var, fixed_frame}
use lan_mouse_pro.Wire.Dispatch.RoundTrip.{finish}
use lan_mouse_pro.Wire.EventTypes.{event_type_of, is_fixed}
use lan_mouse_pro.Wire.Fixed.{decode_fixed}
use lan_mouse_pro.Wire.Fixed.Arrays.{decode_int_one}
use lan_mouse_pro.Wire.Fixed.Total.{decode_fixed_body-ne-panic, event_type_of-ne-panic}
use lan_mouse_pro.Wire.Outcome.{ok, panic, Reader, ◌>>=◌, >>=-ne-panic}
use lan_mouse_pro.Wire.Reading.{IsReader}
use lan_mouse_pro.Wire.Reading.Bodies.{
  decode_text-IsReader, decode_image-IsReader, decode_files-IsReader, decode_offer-IsReader,
  decode_response-IsReader, decode_cancel-IsReader, decode_request-IsReader,
}
use lan_mouse_pro.Wire.Types.{EventType, ProtoEvent}

length-replicate : (n : ℕ) → length (replicate {A = ℕ} n 0) ≡ n
length-replicate zero = refl
length-replicate (suc n) = ap suc (length-replicate n)

fixed_frame_body :
    (code : ℕ) (body : List ℕ)
    → (bs : List ℕ) × (fixed_frame code body ≡ code ∷ bs) × (length bs ≡ 20)
unfolding fixed_frame
fixed_frame_body code body = (
  _,
  refl,
  omega (
    arith,
    length-append (take (min (length body) 20) body) (replicate (20 - min (length body) 20) 0),
    length-take (min (length body) 20) body,
    length-replicate (20 - min (length body) 20),
  ),
)

frame_ne_panic :
    (code : ℕ) (bs : List ℕ) (t : EventType)
    → event_type_of code ≡ ok t
    → is_fixed t ≡ true
    → length bs ≡ 20
    → decode_fixed (code ∷ bs) ≢ panic
unfolding decode_fixed
frame_ne_panic code bs t e h size =
    rw (decode_int_one code bs) (rw e (decode_fixed_body-ne-panic t bs h size))

expect_end-ne-panic : (p : ProtoEvent × List ℕ) → expect_end p ≢ panic
unfolding expect_end
expect_end-ne-panic (e, []) = λ p. cc
expect_end-ne-panic (e, b ∷ bs) = λ p. cc

-- `is_fixed` is what decides which decoder is safe.
decode_fixed-ne-panic :
    (code : ℕ) (body : List ℕ) (t : EventType)
    → event_type_of code ≡ ok t
    → is_fixed t ≡ true
    → decode_fixed (fixed_frame code body) ≢ panic
decode_fixed-ne-panic code body t e h =
    let (bs, frame, size) = fixed_frame_body code body in
    rw frame (frame_ne_panic code bs t e h size)

finish-ne-panic {ℓ} :
    {T : Type ℓ} {k : ℕ} {read : Reader T}
    → IsReader k read
    → (wrap : T → ProtoEvent) (bs : List ℕ) → finish wrap (read bs) ≢ panic
finish-ne-panic r wrap bs = elim (r.total bs) [
  | inl (p, e) ↦ rw e (expect_end-ne-panic (wrap p.0, p.1))
  | inr e ↦ rw e (λ p. cc)
]

decode_var-ne-panic :
    (t : EventType) (body : List ℕ)
    → is_fixed t ≡ false
    → (decode_var t body >>= expect_end) ≢ panic
unfolding decode_var
decode_var-ne-panic EventType.clipboard_text body h = finish-ne-panic decode_text-IsReader _ body
decode_var-ne-panic EventType.clipboard_image body h = finish-ne-panic decode_image-IsReader _ body
decode_var-ne-panic EventType.clipboard_files body h = finish-ne-panic decode_files-IsReader _ body
decode_var-ne-panic EventType.file_transfer_offer body h =
    finish-ne-panic decode_offer-IsReader _ body
decode_var-ne-panic EventType.file_transfer_response body h =
    finish-ne-panic decode_response-IsReader _ body
decode_var-ne-panic EventType.file_transfer_cancel body h =
    finish-ne-panic decode_cancel-IsReader _ body
decode_var-ne-panic EventType.clipboard_request body h =
    finish-ne-panic decode_request-IsReader _ body
decode_var-ne-panic _ body h = unfold is_fixed in cc

-- Whatever bytes arrive, the decoder ends with an event or a `ProtocolError`: no slice is split out
-- of range, no `unreachable!` is reached, and the loop over the file entries ends.
pub decode_event-ne-panic : (bs : List ℕ) → decode_event bs ≢ panic
unfolding decode_event
decode_event-ne-panic [] = λ p. cc
decode_event-ne-panic (code ∷ body) =
    >>=-ne-panic (event_type_of code) _ (event_type_of-ne-panic code) λ t e.
      elim (Bool-cases (is_fixed t)) [
        | inl fixed ↦ rw fixed (decode_fixed-ne-panic code body t e fixed)
        | inr var ↦ rw var (decode_var-ne-panic t body var)
      ]
