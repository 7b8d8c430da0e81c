-- ===== src/Transport/FixedReading.antt =====
-- src/quic_transport/protocol.rs: a frame of a fixed-size event that was written is read back.
use lan_mouse_pro.Common.{
  ℕ, ◌%◌, ◌^◌, ◌≡◌, ◌≢◌, sym, ap, ◌∙◌, true, Bool-cases, inl, inr, List, ◌++◌, length, take,
}
use lan_mouse_pro.Client.Types.{InputChannelConfig}
use lan_mouse_pro.Transport.ByteStream.{ByteStream}
use lan_mouse_pro.Transport.Frames.{got, padded, decoded, read_frame, write_frame}
use lan_mouse_pro.Transport.FixedFrames.{IsFixedFrame, is_fixed-HasFixedFrame}
use lan_mouse_pro.Transport.Small.{read_frame-small}
use lan_mouse_pro.Transport.Routing.{Channel, route_input, route_input-is_fixed}
use lan_mouse_pro.Wire.Bytes.{to_be_bytes}
use lan_mouse_pro.Wire.Dispatch.RoundTrip.{IsEvent}
use lan_mouse_pro.Wire.EventTypes.{event_type, is_fixed}
use lan_mouse_pro.Wire.Fixed.{decode_fixed}
use lan_mouse_pro.Wire.Outcome.{ok, ◌>>=◌, ok-injective}
use lan_mouse_pro.Wire.Types.{ProtoEvent}

-- What `write_frame` gives for the array of an event.
framing : List ℕ × ℕ → List ℕ
framing p = to_be_bytes 4 (p.1 % 2 ^ 32) ++ take p.1 p.0

write_frame-IsFixedFrame :
    (e : ProtoEvent) (arr : List ℕ) (len : ℕ)
    → IsFixedFrame e arr len
    → write_frame e ≡ ok (framing (arr, len))
unfolding write_frame framing
write_frame-IsFixedFrame e arr len frame =
    ap (λ o. o >>= λ p. ok (to_be_bytes 4 (p.1 % 2 ^ 32) ++ take p.1 p.0)) frame.encodes

write_frame-inversion :
    (e : ProtoEvent) (arr : List ℕ) (len : ℕ) (bytes : List ℕ)
    → IsFixedFrame e arr len
    → write_frame e ≡ ok bytes
    → bytes ≡ to_be_bytes 4 (length (take len arr) % 2 ^ 32) ++ take len arr
unfolding framing
write_frame-inversion e arr len bytes frame written =
    ok-injective (sym written ∙ write_frame-IsFixedFrame e arr len frame)
    ∙ ap (λ n. to_be_bytes 4 (n % 2 ^ 32) ++ take len arr) (sym frame.is_sized)

pub routed-is_fixed :
    (cfg : InputChannelConfig) (e : ProtoEvent)
    → route_input cfg e ≢ Channel.stream_c
    → is_fixed (event_type e) ≡ true
routed-is_fixed cfg e routed = elim (Bool-cases (is_fixed (event_type e))) [
  | inl fixed ↦ fixed
  | inr variable ↦ absurd (routed ((route_input-is_fixed cfg e).1 variable))
]

-- Such an event has a frame.
pub write_frame-ok :
    (cfg : InputChannelConfig) (e : ProtoEvent)
    → IsEvent e
    → route_input cfg e ≢ Channel.stream_c
    → (bytes : List ℕ) × (write_frame e ≡ ok bytes)
write_frame-ok cfg e valid routed =
    let (arr, (len, frame)) = is_fixed-HasFixedFrame e valid (routed-is_fixed cfg e routed) in
    (framing (arr, len), write_frame-IsFixedFrame e arr len frame)

module _ {S : Type 0} (stream : ByteStream S) where
  open stream use {content}

  read_frame-IsFixedFrame :
      (e : ProtoEvent) (arr : List ℕ) (len : ℕ) (bytes more : List ℕ) (s : S)
      → IsFixedFrame e arr len
      → write_frame e ≡ ok bytes
      → content s ≡ bytes ++ more
      → (rest : S) × ((read_frame stream s ≡ got e rest) × (content rest ≡ more))
  unfolding decoded
  read_frame-IsFixedFrame e arr len bytes more s frame written at =
      let sized : length (take len arr) ≡ len = frame.is_sized in
      let (rest, (reads, left)) =
        read_frame-small stream (take len arr) more s (rw sized frame.is_small)
          (at ∙ ap (λ bs. bs ++ more) (write_frame-inversion e arr len bytes frame written)) in
      (
        rest,
        (
          reads
              ∙ (ap (λ n. decoded (decode_fixed (padded n (take len arr))) rest) sized
                  ∙ ap (λ o. decoded o rest) frame.decodes),
          left,
        ),
      )

  -- An event that is routed to stream A or B or to a datagram, with fields of the ranges of their Rust
  -- types, is read back by the reader of streams A and B from the frame that their writer made of it,
  -- the rest of the stream left behind it.
  pub read_frame-write_frame :
      (cfg : InputChannelConfig) (e : ProtoEvent) (bytes more : List ℕ) (s : S)
      → IsEvent e
      → route_input cfg e ≢ Channel.stream_c
      → write_frame e ≡ ok bytes
      → content s ≡ bytes ++ more
      → (rest : S) × ((read_frame stream s ≡ got e rest) × (content rest ≡ more))
  read_frame-write_frame cfg e bytes more s valid routed written at =
      let (arr, (len, frame)) = is_fixed-HasFixedFrame e valid (routed-is_fixed cfg e routed) in
      read_frame-IsFixedFrame e arr len bytes more s frame written at
