-- ===== src/Transport/Input.antt =====
-- src/quic_transport/session.rs: `send_input` on each channel.
use lan_mouse_pro.Common.{
  ℕ, ◌≡◌, refl, sym, ap, ◌∙◌, inl, inr, Bool, true, false, Option, none, some, List, [], ◌∷◌, ◌++◌,
}
use lan_mouse_pro.Transport.Delivers.{
  Carries, DeliversA, DeliversB, Wrote, frame_of, half_or, extended, write_framed-Wrote,
}
use lan_mouse_pro.Transport.Hello.{SendStream}
use lan_mouse_pro.Transport.Sending.{
  Quic, Session, cached_a, cached_b, fresh_stream, on_fallback_a, on_finish, on_stream_a,
  on_stream_b, opened_a, opened_b, priority_input, send_stream_a, send_stream_b, write_framed,
}
use lan_mouse_pro.Wire.Types.{ProtoEvent}

module _ {W : Type 0} (quic : Quic W) where
  -- Stream B.
  on_stream_b-Delivers :
      (e : ProtoEvent) (body : List ℕ) (send : SendStream) (r : Bool × (SendStream × W))
      (s : Session W)
      → Carries e (frame_of body)
      → send ≡ half_or priority_input s.cached_send_b
      → Wrote (frame_of body) send r
      → DeliversB e s (on_stream_b quic r s)
  unfolding on_stream_b
  on_stream_b-Delivers e body send (true, (after, w)) s carries old wrote = (
    frame_of body,
    (
      carries,
      ap (λ half. record s { conn = w; cached_send_b = some half })
          (wrote ∙ ap (extended (frame_of body)) old),
    ),
  )
  on_stream_b-Delivers e body send (false, (after, w)) s carries old wrote = refl

  opened_b-Delivers :
      (e : ProtoEvent) (body : List ℕ) (r : Bool × W) (s : Session W)
      → Carries e (frame_of body)
      → s.cached_send_b ≡ none
      → DeliversB e s (opened_b quic body r s)
  unfolding opened_b
  opened_b-Delivers e body (true, w) s carries empty =
      on_stream_b-Delivers e body (fresh_stream priority_input)
        (write_framed quic body (fresh_stream priority_input) w) s carries
        (sym (ap (half_or priority_input) empty))
        (write_framed-Wrote quic body (fresh_stream priority_input) w)
  opened_b-Delivers e body (false, w) s carries empty =
      ap (λ c. record s { conn = w; cached_send_b = c }) empty

  cached_b-Delivers :
      (e : ProtoEvent) (body : List ℕ) (c : Option SendStream) (s : Session W)
      → Carries e (frame_of body)
      → s.cached_send_b ≡ c
      → DeliversB e s (cached_b quic body c s)
  unfolding cached_b
  cached_b-Delivers e body none s carries at =
      opened_b-Delivers e body (quic.open_bi s.conn) s carries at
  cached_b-Delivers e body (some send) s carries at =
      on_stream_b-Delivers e body send (write_framed quic body send s.conn) s carries
        (sym (ap (half_or priority_input) at)) (write_framed-Wrote quic body send s.conn)

  pub send_stream_b-Delivers :
      (e : ProtoEvent) (body : List ℕ) (s : Session W)
      → Carries e (frame_of body)
      → DeliversB e s (send_stream_b quic body s)
  unfolding send_stream_b
  send_stream_b-Delivers e body s carries = cached_b-Delivers e body s.cached_send_b s carries refl

  -- Stream A.
  on_stream_a-Delivers :
      (e : ProtoEvent) (body : List ℕ) (send : SendStream) (r : Bool × (SendStream × W))
      (s : Session W)
      → Carries e (frame_of body)
      → s.cached_send_a ≡ some send
      → Wrote (frame_of body) send r
      → DeliversA e s (on_stream_a quic r s)
  unfolding on_stream_a
  on_stream_a-Delivers e body send (true, (after, w)) s carries at wrote = inl (
    send,
    (
      at,
      (
        frame_of body,
        (carries, ap (λ half. record s { conn = w; cached_send_a = some half }) wrote),
      ),
    ),
  )
  on_stream_a-Delivers e body send (false, (after, w)) s carries at wrote = refl

  on_finish-Delivers :
      (e : ProtoEvent) (body : List ℕ) (send : SendStream) (r : Bool × W) (s : Session W)
      → Carries e (frame_of body)
      → s.cached_send_a ≡ none
      → send ≡ extended (frame_of body) (fresh_stream 0)
      → DeliversA e s (on_finish quic send r s)
  unfolding on_finish
  on_finish-Delivers e body send (true, w) s carries at wrote = inr (
    at,
    (
      frame_of body,
      (carries, ap (λ half. record s { conn = w; finished = s.finished ++ (half ∷ []) }) wrote),
    ),
  )
  on_finish-Delivers e body send (false, w) s carries at wrote = refl

  on_fallback_a-Delivers :
      (e : ProtoEvent) (body : List ℕ) (r : Bool × (SendStream × W)) (s : Session W)
      → Carries e (frame_of body)
      → s.cached_send_a ≡ none
      → Wrote (frame_of body) (fresh_stream 0) r
      → DeliversA e s (on_fallback_a quic r s)
  unfolding on_fallback_a
  on_fallback_a-Delivers e body (true, (send, w)) s carries at wrote =
      on_finish-Delivers e body send (quic.finish w) s carries at wrote
  on_fallback_a-Delivers e body (false, (send, w)) s carries at wrote = refl

  opened_a-Delivers :
      (e : ProtoEvent) (body : List ℕ) (r : Bool × W) (s : Session W)
      → Carries e (frame_of body)
      → s.cached_send_a ≡ none
      → DeliversA e s (opened_a quic body r s)
  unfolding opened_a
  opened_a-Delivers e body (true, w) s carries at =
      on_fallback_a-Delivers e body (write_framed quic body (fresh_stream 0) w) s carries at
        (write_framed-Wrote quic body (fresh_stream 0) w)
  opened_a-Delivers e body (false, w) s carries at = refl

  cached_a-Delivers :
      (e : ProtoEvent) (body : List ℕ) (c : Option SendStream) (s : Session W)
      → Carries e (frame_of body)
      → s.cached_send_a ≡ c
      → DeliversA e s (cached_a quic body c s)
  unfolding cached_a
  cached_a-Delivers e body none s carries at =
      opened_a-Delivers e body (quic.open_bi s.conn) s carries at
  cached_a-Delivers e body (some send) s carries at =
      on_stream_a-Delivers e body send (write_framed quic body send s.conn) s carries at
        (write_framed-Wrote quic body send s.conn)

  pub send_stream_a-Delivers :
      (e : ProtoEvent) (body : List ℕ) (s : Session W)
      → Carries e (frame_of body)
      → DeliversA e s (send_stream_a quic body s)
  unfolding send_stream_a
  send_stream_a-Delivers e body s carries = cached_a-Delivers e body s.cached_send_a s carries refl
