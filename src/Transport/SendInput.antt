-- ===== src/Transport/SendInput.antt =====
-- src/quic_transport/session.rs: `send_input`.
use lan_mouse_pro.Client.Types.{InputChannelConfig}
use lan_mouse_pro.Common.{
  ℕ, ◌+◌, ◌-◌, ◌≡◌, ◌≢◌, refl, sym, ap, ◌∙◌, subst, arith, if_each, List, length, take, append-nil,
  replicate, length-append, length-replicate,
}
use lan_mouse_pro.Transport.Delivers.{
  Carries, Delivers, DeliversA, DeliversB, DeliversDatagram, frame_of,
}
use lan_mouse_pro.Transport.FixedFrames.{IsFixedFrame, is_fixed-HasFixedFrame}
use lan_mouse_pro.Transport.FixedReading.{routed-is_fixed}
use lan_mouse_pro.Transport.Frames.{padded}
use lan_mouse_pro.Transport.Input.{send_stream_a-Delivers, send_stream_b-Delivers}
use lan_mouse_pro.Transport.Routed.{cached_c-Delivers, within_limit-Delivers}
use lan_mouse_pro.Transport.Routing.{Channel, route_input}
use lan_mouse_pro.Transport.Sending.{
  Quic, SendError, Sent, Session, failed, send_datagram_or_stream_b, send_input, send_motion,
  send_routed, send_stream_a, send_stream_b, send_stream_c, with_array,
}
use lan_mouse_pro.Wire.Dispatch.RoundTrip.{IsEvent}
use lan_mouse_pro.Wire.Fixed.{encode_fixed, decode_fixed}
use lan_mouse_pro.Wire.Outcome.{Outcome, ok}
use lan_mouse_pro.Wire.Types.{ProtoEvent}

module _ (e : ProtoEvent) (arr : List ℕ) (len : ℕ) (frame : IsFixedFrame e arr len) where
  array_size : length arr ≡ 21
  array_size =
      let sized : length (padded len (take len arr)) ≡ len + (21 - len) =
        length-append (take len arr) (replicate (21 - len) 0)
        ∙ rw (frame.is_sized, length-replicate {A = ℕ} (21 - len) 0) refl in
      sym (ap length frame.is_padded) ∙ (sized ∙ omega (arith, frame.is_small))

  array-decodes : decode_fixed arr ≡ ok e
  array-decodes = ap decode_fixed (sym frame.is_padded) ∙ frame.decodes

  -- The whole array as a body, and the part of it that is in use.
  array-Carries : Carries e (frame_of arr)
  array-Carries = (
    arr,
    (
      refl,
      (
        rw array_size (omega arith),
        ap (λ n. decode_fixed (padded n arr)) array_size
            ∙ (ap decode_fixed (append-nil arr) ∙ array-decodes),
      ),
    ),
  )

  used-Carries : Carries e (frame_of (take len arr))
  used-Carries = (
    take len arr,
    (
      refl,
      (
        rw frame.is_sized frame.is_small,
        ap (λ n. decode_fixed (padded n (take len arr))) frame.is_sized ∙ frame.decodes,
      ),
    ),
  )

module _ {W : Type 0} (quic : Quic W) where
  with_array-ok :
      (o : Outcome (List ℕ × ℕ)) (arr : List ℕ) (len : ℕ) (next : List ℕ → ℕ → Sent W)
      → o ≡ ok (arr, len)
      → with_array quic o next ≡ next arr len
  unfolding with_array
  with_array-ok o arr len next encodes = ap (λ o. with_array quic o next) encodes

  send_motion-Delivers :
      (e : ProtoEvent) (arr : List ℕ) (len : ℕ) (s : Session W)
      → IsFixedFrame e arr len
      → DeliversDatagram e s (send_motion quic e s)
  unfolding send_motion send_datagram_or_stream_b
  send_motion-Delivers e arr len s frame =
      let next : List ℕ → ℕ → Sent W = λ buf n. send_datagram_or_stream_b quic buf s in
      if_each (DeliversDatagram e s) s.hello_ok (with_array quic (encode_fixed e) next)
        (failed SendError.hello_failed s)
        (λ hello.
          subst (DeliversDatagram e s)
            (sym (with_array-ok (encode_fixed e) arr len next frame.encodes))
            (within_limit-Delivers quic e arr (quic.max_datagram_size s.conn) s hello
              (array_size e arr len frame) (array-decodes e arr len frame)
              (array-Carries e arr len frame)))
        (λ unknown. (unknown, refl))

  send_routed-Delivers :
      (c : Channel) (e : ProtoEvent) (arr : List ℕ) (len : ℕ) (s : Session W)
      → c ≢ Channel.stream_c
      → IsFixedFrame e arr len
      → Delivers c e s (send_routed quic c e s)
  unfolding send_routed
  send_routed-Delivers Channel.datagram e arr len s routed frame =
      send_motion-Delivers e arr len s frame
  send_routed-Delivers Channel.stream_a e arr len s routed frame =
      subst (DeliversA e s)
        (sym (
          with_array-ok (encode_fixed e) arr len (λ buf n. send_stream_a quic (take n buf) s)
            frame.encodes))
        (send_stream_a-Delivers quic e (take len arr) s (used-Carries e arr len frame))
  send_routed-Delivers Channel.stream_b e arr len s routed frame =
      subst (DeliversB e s)
        (sym (
          with_array-ok (encode_fixed e) arr len (λ buf n. send_stream_b quic (take n buf) s)
            frame.encodes))
        (send_stream_b-Delivers quic e (take len arr) s (used-Carries e arr len frame))
  send_routed-Delivers Channel.stream_c e arr len s routed frame = absurd (routed refl)

  routed-Delivers :
      (cfg : InputChannelConfig) (e : ProtoEvent) (s : Session W) (c : Channel)
      → IsEvent e
      → route_input cfg e ≡ c
      → Delivers c e s (send_routed quic c e s)
  unfolding send_routed send_stream_c
  routed-Delivers cfg e s Channel.stream_c valid at =
      cached_c-Delivers quic e s.cached_send_c s valid refl
  routed-Delivers cfg e s Channel.datagram valid at =
      let routed : route_input cfg e ≢ Channel.stream_c = λ h. ground arith in
      let (arr, (len, frame)) = is_fixed-HasFixedFrame e valid (routed-is_fixed cfg e routed) in
      send_routed-Delivers Channel.datagram e arr len s (λ h. ground arith) frame
  routed-Delivers cfg e s Channel.stream_a valid at =
      let routed : route_input cfg e ≢ Channel.stream_c = λ h. ground arith in
      let (arr, (len, frame)) = is_fixed-HasFixedFrame e valid (routed-is_fixed cfg e routed) in
      send_routed-Delivers Channel.stream_a e arr len s (λ h. ground arith) frame
  routed-Delivers cfg e s Channel.stream_b valid at =
      let routed : route_input cfg e ≢ Channel.stream_c = λ h. ground arith in
      let (arr, (len, frame)) = is_fixed-HasFixedFrame e valid (routed-is_fixed cfg e routed) in
      send_routed-Delivers Channel.stream_b e arr len s (λ h. ground arith) frame

  -- Whatever the connection answers, send_input of an event of the ranges of its Rust types does not
  -- panic. Where it answers Ok, one thing was handed over on the channel that route_input names, from
  -- which its reader gets that event, and nothing else of the session but the connection changed: a
  -- frame behind what the half of stream A, B or C held, which is opened for stream B or C if none was
  -- cached; where no half of stream A is cached, and only there, a frame on a stream of its own; or,
  -- only once hello_ok is set, one datagram of 21 bytes, or in place of it a frame on stream B. Where
  -- it fails, no other channel was touched, and a half of stream B or C that failed is not kept, nor is
  -- one of stream B that stood in for a datagram.
  pub send_input-Delivers :
      (cfg : InputChannelConfig) (e : ProtoEvent) (s : Session W)
      → IsEvent e
      → Delivers (route_input cfg e) e s (send_input quic cfg e s)
  unfolding send_input
  send_input-Delivers cfg e s valid = routed-Delivers cfg e s (route_input cfg e) valid refl
