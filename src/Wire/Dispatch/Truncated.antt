-- ===== src/Wire/Dispatch/Truncated.antt =====
-- The universal decoder on a frame that was cut off.
use lan_mouse_pro.Common.{
  ℕ, ◌≡◌, inl, inr, sym, ap, ◌∙◌, false, List, [], ◌∷◌, ◌++◌, length, length-append, arith,
  append-nil,
}
use lan_mouse_pro.Wire.Bodies.Clipboard.{IsText-laws, IsImage-laws, IsFiles-laws}
use lan_mouse_pro.Wire.Bodies.Transfer.{IsOffer-laws, response_laws, cancel_laws, request_laws}
use lan_mouse_pro.Wire.Dispatch.{encode_event, decode_event, decode_var}
use lan_mouse_pro.Wire.Dispatch.RoundTrip.{IsEvent, finish, is_fixed-input}
use lan_mouse_pro.Wire.EventTypes.{event_type, is_fixed}
use lan_mouse_pro.Wire.Fields.Vectors.{VarCodecLaws}
use lan_mouse_pro.Wire.Outcome.{ok, err, frame_too_short, Reader, ok-injective}
use lan_mouse_pro.Wire.Reading.{IsReader}
use lan_mouse_pro.Wire.Reading.Bodies.{
  decode_text-IsReader, decode_image-IsReader, decode_files-IsReader, decode_offer-IsReader,
  decode_response-IsReader, decode_cancel-IsReader, decode_request-IsReader,
}
use lan_mouse_pro.Wire.Types.{ProtoEvent}

module _ {ℓ κ} {T : Type ℓ} {encode : List ℕ → T → List ℕ} {decode : Reader T}
    {IsValid : T → Type κ} {k : ℕ} (laws : VarCodecLaws encode decode IsValid)
    (reader : IsReader k decode) (wrap : T → ProtoEvent) where
  decode_cut :
      (e : T) (front back : List ℕ) (x : ℕ)
      → IsValid e
      → encode [] e ≡ front ++ (x ∷ back)
      → decode front ≡ err frame_too_short
  decode_cut e front back x v cut = elim (reader.total front) [
    | inl (p, got) ↦
        let whole : decode (front ++ (x ∷ back)) ≡ ok (e, []) =
          rw (append-nil, cut) at (laws.reads e [] v) in
        let same = ok-injective (sym (reader.extends front (x ∷ back) p got) ∙ whole) in
        absurd (omega (arith, ap (λ q. length q.1) same, length-append p.1 (x ∷ back)))
    | inr got ↦ got
  ]

  finish-decode_cut :
      (e : T) (front back : List ℕ) (x id code : ℕ)
      → IsValid e
      → encode (id ∷ []) e ≡ code ∷ (front ++ (x ∷ back))
      → (code ≡ id) × (finish wrap (decode front) ≡ err frame_too_short)
  finish-decode_cut e front back x id code v cut =
      let head : code ≡ id = cc (laws.appends (id ∷ []) e v) in
      let body : encode [] e ≡ front ++ (x ∷ back) = cc (laws.appends (id ∷ []) e v) in
      (head, rw (decode_cut e front back x v body))

-- A variable-length frame that was cut off anywhere behind its type byte is refused as
-- `FrameTooShort`.
pub decode_event_truncated :
    (e : ProtoEvent) (code x : ℕ) (front back : List ℕ)
    → IsEvent e
    → is_fixed (event_type e) ≡ false
    → encode_event e ≡ ok (code ∷ (front ++ (x ∷ back)))
    → decode_event (code ∷ front) ≡ err frame_too_short
decode_event_truncated (ProtoEvent.clipboard_text e) code x front back v h enc =
    unfold encode_event decode_event decode_var in
    let (same, cut) =
      finish-decode_cut IsText-laws decode_text-IsReader ProtoEvent.clipboard_text e front back x 12
        code v (ok-injective enc) in
    rw same cut
decode_event_truncated (ProtoEvent.clipboard_image e) code x front back v h enc =
    unfold encode_event decode_event decode_var in
    let (same, cut) =
      finish-decode_cut IsImage-laws decode_image-IsReader ProtoEvent.clipboard_image e front back x
        13 code v (ok-injective enc) in
    rw same cut
decode_event_truncated (ProtoEvent.clipboard_files e) code x front back v h enc =
    unfold encode_event decode_event decode_var in
    let (same, cut) =
      finish-decode_cut IsFiles-laws decode_files-IsReader ProtoEvent.clipboard_files e front back x
        14 code v (ok-injective enc) in
    rw same cut
decode_event_truncated (ProtoEvent.file_transfer_offer e) code x front back v h enc =
    unfold encode_event decode_event decode_var in
    let (same, cut) =
      finish-decode_cut IsOffer-laws decode_offer-IsReader ProtoEvent.file_transfer_offer e front
        back x 15 code v (ok-injective enc) in
    rw same cut
decode_event_truncated (ProtoEvent.file_transfer_response e) code x front back v h enc =
    unfold encode_event decode_event decode_var in
    let (same, cut) =
      finish-decode_cut response_laws decode_response-IsReader ProtoEvent.file_transfer_response e
        front back x 16 code v (ok-injective enc) in
    rw same cut
decode_event_truncated (ProtoEvent.file_transfer_cancel e) code x front back v h enc =
    unfold encode_event decode_event decode_var in
    let (same, cut) =
      finish-decode_cut cancel_laws decode_cancel-IsReader ProtoEvent.file_transfer_cancel e front
        back x 17 code v (ok-injective enc) in
    rw same cut
decode_event_truncated (ProtoEvent.clipboard_request e) code x front back v h enc =
    unfold encode_event decode_event decode_var in
    let (same, cut) =
      finish-decode_cut request_laws decode_request-IsReader ProtoEvent.clipboard_request e front
        back x 18 code v (ok-injective enc) in
    rw same cut
decode_event_truncated (ProtoEvent.input e) code x front back v h enc = cc (is_fixed-input e)
decode_event_truncated _ code x front back v h enc = unfold event_type is_fixed in cc
