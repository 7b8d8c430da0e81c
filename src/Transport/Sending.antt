-- ===== src/Transport/Sending.antt =====
-- Sending an event over a session, src/quic_transport/session.rs: `send_input`, `send_motion`,
-- `send_datagram_or_stream_b`, `send_stream_a`, `send_stream_b` and `send_stream_c`. What the session
-- calls of quinn is the record Quic, a parameter, over a state of the connection.
use lan_mouse_pro.Client.Types.{InputChannelConfig}
use lan_mouse_pro.Common.{
  ℕ, ◌%◌, ◌^◌, Bool, true, false, leb, if◌then◌else◌, Option, none, some, List, [], ◌∷◌, ◌++◌,
  length, take, min,
}
use lan_mouse_pro.Transport.Hello.{SendStream}
use lan_mouse_pro.Transport.Routing.{Channel, route_input}
use lan_mouse_pro.Wire.Bytes.{to_be_bytes}
use lan_mouse_pro.Wire.Dispatch.{encode_event}
use lan_mouse_pro.Wire.Fixed.{encode_fixed}
use lan_mouse_pro.Wire.Outcome.{Outcome}
use lan_mouse_pro.Wire.Types.{ProtoEvent}

-- The answer of `send_datagram`: `Ok`, `ConnectionLost`, or another error.
pub data Datagram : Type 0 where
  accepted connection_lost unavailable : Datagram

-- `open_bi`, a write (none, or how many bytes were taken before it failed), `finish`,
-- `max_datagram_size` and `send_datagram`.
pub record Quic (W : Type 0) : Type 0 where
  pub open_bi : W → Bool × W
  pub write : List ℕ → W → Option ℕ × W
  pub finish : W → Bool × W
  pub max_datagram_size : W → Option ℕ
  pub send_datagram : List ℕ → W → Datagram × W

-- The fields of PeerSession that sending uses, with the connection, the datagrams it was given, and the
-- streams that were opened for one frame and finished.
pub record Session (W : Type 0) : Type 0 where
  pub conn : W
  pub hello_ok : Bool
  pub cached_send_a : Option SendStream
  pub cached_send_b : Option SendStream
  pub cached_send_c : Option SendStream
  pub datagrams : List (List ℕ)
  pub finished : List SendStream

-- `HelloFailed`, `StreamB` and `Datagram`.
pub data SendError : Type 0 where
  hello_failed stream_b_failed datagram_failed : SendError

pub data Sent (W : Type 0) : Type 0 where
  sent : Session W → Sent W
  failed : SendError → Session W → Sent W
  panic : Sent W

abbrev pub max_safe_datagram : ℕ
max_safe_datagram = 1162

abbrev pub priority_input : ℕ
priority_input = 50

abbrev pub priority_meta : ℕ
priority_meta = 50

abbrev pub fresh_stream : ℕ → SendStream
fresh_stream priority = record { written = []; priority = priority }

abbrev append_bytes : List ℕ → SendStream → SendStream
append_bytes bytes send = record send { written = send.written ++ bytes }

module _ {W : Type 0} (quic : Quic W) where
  -- The answer of a write, and the stream behind it.
  unfoldable pub after_write : List ℕ → SendStream → Option ℕ × W → Bool × (SendStream × W)
  after_write bytes send (none, w) = (true, (append_bytes bytes send, w))
  after_write bytes send (some n, w) = (false, (append_bytes (take n bytes) send, w))

  -- `write_all(bytes)` behind the answer of `write_u32`.
  unfoldable pub write_body : List ℕ → Bool × (SendStream × W) → Bool × (SendStream × W)
  unfolding after_write
  write_body bytes (true, (send, w)) = after_write bytes send (quic.write bytes w)
  write_body bytes (false, (send, w)) = (false, (send, w))

  -- `write_u32(bytes.len() as u32)` and `write_all(bytes)`.
  unfoldable pub write_framed : List ℕ → SendStream → W → Bool × (SendStream × W)
  unfolding after_write write_body
  write_framed bytes send w =
      let prefix = to_be_bytes 4 (length bytes % 2 ^ 32) in
      write_body bytes (after_write prefix send (quic.write prefix w))

  -- The write of stream B: a stream that failed is forgotten.
  unfoldable pub on_stream_b : Bool × (SendStream × W) → Session W → Sent W
  on_stream_b (true, (send, w)) s = sent (record s { conn = w; cached_send_b = some send })
  on_stream_b (false, (send, w)) s =
      failed SendError.stream_b_failed (record s { conn = w; cached_send_b = none })

  unfoldable pub opened_b : List ℕ → Bool × W → Session W → Sent W
  unfolding write_framed on_stream_b
  opened_b bytes (true, w) s = on_stream_b (write_framed bytes (fresh_stream priority_input) w) s
  opened_b bytes (false, w) s = failed SendError.stream_b_failed (record s { conn = w })

  unfoldable pub cached_b : List ℕ → Option SendStream → Session W → Sent W
  unfolding opened_b write_framed on_stream_b
  cached_b bytes none s = opened_b bytes (quic.open_bi s.conn) s
  cached_b bytes (some send) s = on_stream_b (write_framed bytes send s.conn) s

  unfoldable pub send_stream_b : List ℕ → Session W → Sent W
  unfolding cached_b
  send_stream_b bytes s = cached_b bytes s.cached_send_b s

  -- `write_stream_c_frame`, which writes no empty body.
  unfoldable pub write_framed_c : List ℕ → SendStream → W → Bool × (SendStream × W)
  unfolding write_framed after_write
  write_framed_c [] send w =
      let prefix = to_be_bytes 4 0 in after_write prefix send (quic.write prefix w)
  write_framed_c (b ∷ bytes) send w = write_framed (b ∷ bytes) send w

  unfoldable pub on_stream_c : Bool × (SendStream × W) → Session W → Sent W
  on_stream_c (true, (send, w)) s = sent (record s { conn = w; cached_send_c = some send })
  on_stream_c (false, (send, w)) s =
      failed SendError.hello_failed (record s { conn = w; cached_send_c = none })

  unfoldable pub encoded_c : Outcome (List ℕ) → SendStream → W → Session W → Sent W
  unfolding write_framed_c on_stream_c
  encoded_c (Outcome.ok body) send w s = on_stream_c (write_framed_c body send w) s
  encoded_c (Outcome.err e) send w s = panic
  encoded_c Outcome.panic send w s = panic

  unfoldable pub opened_c : ProtoEvent → Bool × W → Session W → Sent W
  unfolding encoded_c
  opened_c event (true, w) s = encoded_c (encode_event event) (fresh_stream priority_meta) w s
  opened_c event (false, w) s = failed SendError.hello_failed (record s { conn = w })

  unfoldable pub cached_c : ProtoEvent → Option SendStream → Session W → Sent W
  unfolding opened_c encoded_c
  cached_c event none s = opened_c event (quic.open_bi s.conn) s
  cached_c event (some send) s = encoded_c (encode_event event) send s.conn s

  unfoldable pub send_stream_c : ProtoEvent → Session W → Sent W
  unfolding cached_c
  send_stream_c event s = cached_c event s.cached_send_c s

  -- The write on the cached half of stream A, which stays cached.
  unfoldable pub on_stream_a : Bool × (SendStream × W) → Session W → Sent W
  on_stream_a (true, (send, w)) s = sent (record s { conn = w; cached_send_a = some send })
  on_stream_a (false, (send, w)) s =
      failed SendError.hello_failed (record s { conn = w; cached_send_a = some send })

  -- `finish` of a stream that was opened for one frame.
  unfoldable pub on_finish : SendStream → Bool × W → Session W → Sent W
  on_finish send (true, w) s = sent (record s { conn = w; finished = s.finished ++ (send ∷ []) })
  on_finish send (false, w) s = failed SendError.hello_failed (record s { conn = w })

  unfoldable pub on_fallback_a : Bool × (SendStream × W) → Session W → Sent W
  unfolding on_finish
  on_fallback_a (true, (send, w)) s = on_finish send (quic.finish w) s
  on_fallback_a (false, (send, w)) s = failed SendError.hello_failed (record s { conn = w })

  unfoldable pub opened_a : List ℕ → Bool × W → Session W → Sent W
  unfolding write_framed on_fallback_a
  opened_a bytes (true, w) s = on_fallback_a (write_framed bytes (fresh_stream 0) w) s
  opened_a bytes (false, w) s = failed SendError.hello_failed (record s { conn = w })

  unfoldable pub cached_a : List ℕ → Option SendStream → Session W → Sent W
  unfolding opened_a write_framed on_stream_a
  cached_a bytes none s = opened_a bytes (quic.open_bi s.conn) s
  cached_a bytes (some send) s = on_stream_a (write_framed bytes send s.conn) s

  unfoldable pub send_stream_a : List ℕ → Session W → Sent W
  unfolding cached_a
  send_stream_a bytes s = cached_a bytes s.cached_send_a s

  -- The `match self.conn.send_datagram(...)`.
  unfoldable pub on_datagram : List ℕ → Datagram × W → Session W → Sent W
  unfolding send_stream_b
  on_datagram bytes (Datagram.accepted, w) s =
      sent (record s { conn = w; datagrams = s.datagrams ++ (bytes ∷ []) })
  on_datagram bytes (Datagram.connection_lost, w) s =
      failed SendError.datagram_failed (record s { conn = w })
  on_datagram bytes (Datagram.unavailable, w) s = send_stream_b bytes (record s { conn = w })

  -- With the limit.
  unfoldable pub within_limit : List ℕ → Option ℕ → Session W → Sent W
  unfolding send_stream_b on_datagram
  within_limit bytes none s = send_stream_b bytes s
  within_limit bytes (some m) s =
      if leb (length bytes) (min m max_safe_datagram)
      then on_datagram bytes (quic.send_datagram bytes s.conn) s
      else send_stream_b bytes s

  unfoldable pub send_datagram_or_stream_b : List ℕ → Session W → Sent W
  unfolding within_limit
  send_datagram_or_stream_b bytes s = within_limit bytes (quic.max_datagram_size s.conn) s

  -- `event.clone().into()`, and what is done with the array and its length.
  unfoldable pub with_array : Outcome (List ℕ × ℕ) → (List ℕ → ℕ → Sent W) → Sent W
  with_array (Outcome.ok (buf, len)) next = next buf len
  with_array (Outcome.err e) next = panic
  with_array Outcome.panic next = panic

  unfoldable pub send_motion : ProtoEvent → Session W → Sent W
  unfolding with_array send_datagram_or_stream_b
  send_motion event s =
      if s.hello_ok
      then with_array (encode_fixed event) (λ buf len. send_datagram_or_stream_b buf s)
      else failed SendError.hello_failed s

  -- The `match routed`.
  unfoldable pub send_routed : Channel → ProtoEvent → Session W → Sent W
  unfolding with_array send_motion send_stream_a send_stream_b send_stream_c
  send_routed Channel.datagram event s = send_motion event s
  send_routed Channel.stream_a event s =
      with_array (encode_fixed event) (λ buf len. send_stream_a (take len buf) s)
  send_routed Channel.stream_b event s =
      with_array (encode_fixed event) (λ buf len. send_stream_b (take len buf) s)
  send_routed Channel.stream_c event s = send_stream_c event s

  unfoldable pub send_input : InputChannelConfig → ProtoEvent → Session W → Sent W
  unfolding send_routed route_input
  send_input cfg event s = send_routed (route_input cfg event) event s
