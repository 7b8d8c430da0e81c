-- ===== src/Transport/Delivers.antt =====
-- src/quic_transport/session.rs: what `send_input` hands over is what the other side decodes.
use lan_mouse_pro.Common.{
  ℕ, ◌%◌, ◌^◌, ◌≡◌, ◌≤◌, refl, ap, ◌∙◌, ◌⊎◌, Bool, true, false, Option, none, some, List, [], ◌∷◌,
  ◌++◌, length, append_assoc,
}
use lan_mouse_pro.Transport.Frames.{padded}
use lan_mouse_pro.Transport.Hello.{SendStream}
use lan_mouse_pro.Transport.Routing.{Channel}
use lan_mouse_pro.Transport.Sending.{
  Quic, SendError, Sent, Session, after_write, failed, fresh_stream, panic, priority_input,
  priority_meta, sent, write_body, write_framed,
}
use lan_mouse_pro.Wire.Bytes.{to_be_bytes}
use lan_mouse_pro.Wire.Dispatch.{decode_event}
use lan_mouse_pro.Wire.Fixed.{decode_fixed}
use lan_mouse_pro.Wire.Outcome.{ok}
use lan_mouse_pro.Wire.Types.{ProtoEvent}

-- The frame of a body.
abbrev pub frame_of : List ℕ → List ℕ
frame_of body = to_be_bytes 4 (length body % 2 ^ 32) ++ body

-- The half that is cached, or the one that is opened in its place.
abbrev pub half_or : ℕ → Option SendStream → SendStream
half_or priority none = fresh_stream priority
half_or priority (some send) = send

-- The same half, with a frame behind what was written to it.
abbrev pub extended : List ℕ → SendStream → SendStream
extended frame send = record send { written = send.written ++ frame }

-- A frame that the readers of streams A and B decode to the event, and one that the reader of stream C
-- decodes to it.
abbrev pub Carries : ProtoEvent → List ℕ → Type 0
Carries e frame =
    (body : List ℕ) × ((frame ≡ frame_of body)
      × ((length body ≤ 21) × (decode_fixed (padded (length body) body) ≡ ok e)))

abbrev pub CarriesC : ProtoEvent → List ℕ → Type 0
CarriesC e frame = (body : List ℕ) × ((frame ≡ frame_of body) × (decode_event body ≡ ok e))

module _ {W : Type 0} where
  -- One frame behind what stream B held, and nothing else but the connection changed; a stream that
  -- failed is not kept.
  abbrev pub DeliversB : ProtoEvent → Session W → Sent W → Type 0
  DeliversB e s (sent after) =
      (frame : List ℕ) × (Carries e frame
        × (after ≡ record s {
          conn = after.conn;
          cached_send_b = some (extended frame (half_or priority_input s.cached_send_b));
        }))
  DeliversB e s (failed x after) = after ≡ record s { conn = after.conn; cached_send_b = none }
  DeliversB e s panic = ⊥

  abbrev pub DeliversC : ProtoEvent → Session W → Sent W → Type 0
  DeliversC e s (sent after) =
      (frame : List ℕ) × (CarriesC e frame
        × (after ≡ record s {
          conn = after.conn;
          cached_send_c = some (extended frame (half_or priority_meta s.cached_send_c));
        }))
  DeliversC e s (failed x after) = after ≡ record s { conn = after.conn; cached_send_c = none }
  DeliversC e s panic = ⊥

  -- On the cached stream A; where none is cached, on one of its own.
  abbrev pub DeliversA : ProtoEvent → Session W → Sent W → Type 0
  DeliversA e s (sent after) =
      ((send : SendStream) × ((s.cached_send_a ≡ some send)
          × ((frame : List ℕ) × (Carries e frame
                × (after ≡ record s {
                  conn = after.conn;
                  cached_send_a = some (extended frame send);
                })))))
      ⊎ ((s.cached_send_a ≡ none)
          × ((frame : List ℕ) × (Carries e frame
                × (after ≡ record s {
                  conn = after.conn;
                  finished = s.finished ++ (extended frame (fresh_stream 0) ∷ []);
                }))))
  DeliversA e s (failed x after) =
      after ≡ record s { conn = after.conn; cached_send_a = after.cached_send_a }
  DeliversA e s panic = ⊥

  -- One datagram of 21 bytes, or in its place what stream B is given; nothing before the handshake.
  abbrev pub DeliversDatagram : ProtoEvent → Session W → Sent W → Type 0
  DeliversDatagram e s (sent after) =
      (s.hello_ok ≡ true)
      × (((bytes : List ℕ) × ((length bytes ≡ 21)
              × ((decode_fixed bytes ≡ ok e)
                  × (after
                      ≡ record s { conn = after.conn; datagrams = s.datagrams ++ (bytes ∷ []) }))))
          ⊎ DeliversB e s (sent after))
  DeliversDatagram e s (failed SendError.stream_b_failed after) =
      DeliversB e s (failed SendError.stream_b_failed after)
  DeliversDatagram e s (failed SendError.datagram_failed after) =
      after ≡ record s { conn = after.conn }
  DeliversDatagram e s (failed SendError.hello_failed after) = (s.hello_ok ≡ false) × (after ≡ s)
  DeliversDatagram e s panic = ⊥

  abbrev pub Delivers : Channel → ProtoEvent → Session W → Sent W → Type 0
  Delivers Channel.datagram = DeliversDatagram
  Delivers Channel.stream_a = DeliversA
  Delivers Channel.stream_b = DeliversB
  Delivers Channel.stream_c = DeliversC

  -- What a write leaves, if it succeeds.
  abbrev pub Wrote : List ℕ → SendStream → Bool × (SendStream × W) → Type 0
  Wrote bytes send (true, (after, w)) = after ≡ extended bytes send
  Wrote bytes send (false, (after, w)) = Unit

module _ {W : Type 0} (quic : Quic W) where
  pub after_write-Wrote :
      (bytes : List ℕ) (send : SendStream) (r : Option ℕ × W)
      → Wrote bytes send (after_write quic bytes send r)
  unfolding after_write
  after_write-Wrote bytes send (none, w) = refl
  after_write-Wrote bytes send (some n, w) = tt

  Wrote-trans :
      (xs ys : List ℕ) (first second : SendStream) (r : Bool × (SendStream × W))
      → second ≡ extended xs first
      → Wrote ys second r
      → Wrote (xs ++ ys) first r
  Wrote-trans xs ys first second (true, (after, w)) h k =
      k
      ∙ (ap (extended ys) h
          ∙ ap (λ bs. record first { written = bs }) (append_assoc first.written xs ys))
  Wrote-trans xs ys first second (false, (after, w)) h k = tt

  write_body-Wrote :
      (xs bytes : List ℕ) (send : SendStream) (r : Bool × (SendStream × W))
      → Wrote xs send r
      → Wrote (xs ++ bytes) send (write_body quic bytes r)
  unfolding write_body
  write_body-Wrote xs bytes send (true, (mid, w)) h =
      Wrote-trans xs bytes send mid (after_write quic bytes mid (quic.write bytes w)) h
        (after_write-Wrote bytes mid (quic.write bytes w))
  write_body-Wrote xs bytes send (false, (mid, w)) h = tt

  pub write_framed-Wrote :
      (bytes : List ℕ) (send : SendStream) (w : W)
      → Wrote (frame_of bytes) send (write_framed quic bytes send w)
  unfolding write_framed
  write_framed-Wrote bytes send w =
      let prefix = to_be_bytes 4 (length bytes % 2 ^ 32) in
      write_body-Wrote prefix bytes send (after_write quic prefix send (quic.write prefix w))
        (after_write-Wrote prefix send (quic.write prefix w))
