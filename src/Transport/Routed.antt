-- ===== src/Transport/Routed.antt =====
-- src/quic_transport/session.rs: `send_input` on the channel that `route_input` names.
use lan_mouse_pro.Common.{
  ℕ, ◌≡◌, refl, sym, ap, ◌∙◌, subst, inl, inr, arith, Bool, true, false, leb, if_both, Option, none,
  some, List, [], ◌∷◌, length, min, append-nil,
}
use lan_mouse_pro.Transport.Delivers.{
  Carries, CarriesC, DeliversB, DeliversC, DeliversDatagram, Wrote, frame_of, half_or, extended,
  write_framed-Wrote, after_write-Wrote,
}
use lan_mouse_pro.Transport.Hello.{SendStream}
use lan_mouse_pro.Transport.Input.{send_stream_b-Delivers}
use lan_mouse_pro.Transport.Sending.{
  Datagram, Quic, Session, cached_c, encoded_c, fresh_stream, max_safe_datagram, on_datagram,
  on_stream_b, on_stream_c, opened_b, cached_b, write_framed, priority_input, opened_c,
  priority_meta, send_stream_b, within_limit, write_framed_c,
}
use lan_mouse_pro.Wire.Bytes.{to_be_bytes}
use lan_mouse_pro.Wire.Dispatch.{encode_event, decode_event}
use lan_mouse_pro.Wire.Dispatch.RoundTrip.{IsEvent, decode_event-encode_event}
use lan_mouse_pro.Wire.Fixed.{decode_fixed}
use lan_mouse_pro.Wire.Outcome.{Outcome, ok, ◌>>=◌}
use lan_mouse_pro.Wire.Types.{ProtoEvent}

module _ {W : Type 0} (quic : Quic W) where
  -- Stream C.
  on_stream_c-Delivers :
      (e : ProtoEvent) (body : List ℕ) (send : SendStream) (r : Bool × (SendStream × W))
      (s : Session W)
      → CarriesC e (frame_of body)
      → send ≡ half_or priority_meta s.cached_send_c
      → Wrote (frame_of body) send r
      → DeliversC e s (on_stream_c quic r s)
  unfolding on_stream_c
  on_stream_c-Delivers e body send (true, (after, w)) s carries old wrote = (
    frame_of body,
    (
      carries,
      ap (λ half. record s { conn = w; cached_send_c = some half })
          (wrote ∙ ap (extended (frame_of body)) old),
    ),
  )
  on_stream_c-Delivers e body send (false, (after, w)) s carries old wrote = refl

  write_framed_c-Wrote :
      (body : List ℕ) (send : SendStream) (w : W)
      → Wrote (frame_of body) send (write_framed_c quic body send w)
  unfolding write_framed_c
  write_framed_c-Wrote [] send w =
      subst (λ bs. Wrote bs send (write_framed_c quic [] send w))
        (sym (append-nil (to_be_bytes 4 0)))
        (after_write-Wrote quic (to_be_bytes 4 0) send (quic.write (to_be_bytes 4 0) w))
  write_framed_c-Wrote (b ∷ bytes) send w = write_framed-Wrote quic (b ∷ bytes) send w

  encoded_c-Delivers :
      (e : ProtoEvent) (o : Outcome (List ℕ)) (send : SendStream) (w : W) (s : Session W)
      → (o >>= decode_event) ≡ ok e
      → send ≡ half_or priority_meta s.cached_send_c
      → DeliversC e s (encoded_c quic o send w s)
  unfolding encoded_c
  encoded_c-Delivers e (Outcome.ok body) send w s decodes old =
      on_stream_c-Delivers e body send (write_framed_c quic body send w) s (body, (refl, decodes))
        old (write_framed_c-Wrote body send w)
  encoded_c-Delivers e (Outcome.err x) send w s decodes old = absurd (ground arith)
  encoded_c-Delivers e Outcome.panic send w s decodes old = absurd (ground arith)

  opened_c-Delivers :
      (e : ProtoEvent) (r : Bool × W) (s : Session W)
      → IsEvent e
      → s.cached_send_c ≡ none
      → DeliversC e s (opened_c quic e r s)
  unfolding opened_c
  opened_c-Delivers e (true, w) s valid empty =
      encoded_c-Delivers e (encode_event e) (fresh_stream priority_meta) w s
        (decode_event-encode_event e valid) (sym (ap (half_or priority_meta) empty))
  opened_c-Delivers e (false, w) s valid empty =
      ap (λ c. record s { conn = w; cached_send_c = c }) empty

  pub cached_c-Delivers :
      (e : ProtoEvent) (c : Option SendStream) (s : Session W)
      → IsEvent e
      → s.cached_send_c ≡ c
      → DeliversC e s (cached_c quic e c s)
  unfolding cached_c
  cached_c-Delivers e none s valid at = opened_c-Delivers e (quic.open_bi s.conn) s valid at
  cached_c-Delivers e (some send) s valid at =
      encoded_c-Delivers e (encode_event e) send s.conn s (decode_event-encode_event e valid)
        (sym (ap (half_or priority_meta) at))

  -- The array of an event of fixed size, as a datagram or on stream B.
  -- Only stream B's own error leaves it.
  on_stream_b-Datagram :
      (e : ProtoEvent) (r : Bool × (SendStream × W)) (s base : Session W)
      → base.hello_ok ≡ true
      → DeliversB e base (on_stream_b quic r s)
      → DeliversDatagram e base (on_stream_b quic r s)
  unfolding on_stream_b
  on_stream_b-Datagram e (true, (after, w)) s base hello d = (hello, inr d)
  on_stream_b-Datagram e (false, (after, w)) s base hello d = d

  opened_b-Datagram :
      (e : ProtoEvent) (arr : List ℕ) (r : Bool × W) (s base : Session W)
      → base.hello_ok ≡ true
      → DeliversB e base (opened_b quic arr r s)
      → DeliversDatagram e base (opened_b quic arr r s)
  unfolding opened_b
  opened_b-Datagram e arr (true, w) s base hello d =
      on_stream_b-Datagram e (write_framed quic arr (fresh_stream priority_input) w) s base hello d
  opened_b-Datagram e arr (false, w) s base hello d = d

  cached_b-Datagram :
      (e : ProtoEvent) (arr : List ℕ) (c : Option SendStream) (s base : Session W)
      → base.hello_ok ≡ true
      → DeliversB e base (cached_b quic arr c s)
      → DeliversDatagram e base (cached_b quic arr c s)
  unfolding cached_b
  cached_b-Datagram e arr none s base hello d =
      opened_b-Datagram e arr (quic.open_bi s.conn) s base hello d
  cached_b-Datagram e arr (some send) s base hello d =
      on_stream_b-Datagram e (write_framed quic arr send s.conn) s base hello d

  -- What goes over stream B in place of a datagram.
  fallback-Delivers :
      (e : ProtoEvent) (arr : List ℕ) (w : W) (s : Session W)
      → s.hello_ok ≡ true
      → Carries e (frame_of arr)
      → DeliversDatagram e s (send_stream_b quic arr (record s { conn = w }))
  unfolding send_stream_b
  fallback-Delivers e arr w s hello carries =
      let s1 = record s { conn = w } in
      cached_b-Datagram e arr s.cached_send_b s1 s hello
        (send_stream_b-Delivers quic e arr s1 carries)

  on_datagram-Delivers :
      (e : ProtoEvent) (arr : List ℕ) (r : Datagram × W) (s : Session W)
      → s.hello_ok ≡ true
      → length arr ≡ 21
      → decode_fixed arr ≡ ok e
      → Carries e (frame_of arr)
      → DeliversDatagram e s (on_datagram quic arr r s)
  unfolding on_datagram
  on_datagram-Delivers e arr (Datagram.accepted, w) s hello size decodes carries =
      (hello, inl (arr, (size, (decodes, refl))))
  on_datagram-Delivers e arr (Datagram.connection_lost, w) s hello size decodes carries = refl
  on_datagram-Delivers e arr (Datagram.unavailable, w) s hello size decodes carries =
      fallback-Delivers e arr w s hello carries

  pub within_limit-Delivers :
      (e : ProtoEvent) (arr : List ℕ) (limit : Option ℕ) (s : Session W)
      → s.hello_ok ≡ true
      → length arr ≡ 21
      → decode_fixed arr ≡ ok e
      → Carries e (frame_of arr)
      → DeliversDatagram e s (within_limit quic arr limit s)
  unfolding within_limit
  within_limit-Delivers e arr none s hello size decodes carries =
      fallback-Delivers e arr s.conn s hello carries
  within_limit-Delivers e arr (some m) s hello size decodes carries =
      if_both (DeliversDatagram e s) (leb (length arr) (min m max_safe_datagram))
        (on_datagram quic arr (quic.send_datagram arr s.conn) s) (send_stream_b quic arr s)
        (on_datagram-Delivers e arr (quic.send_datagram arr s.conn) s hello size decodes carries)
        (fallback-Delivers e arr s.conn s hello carries)
