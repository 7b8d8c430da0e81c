-- ===== src/Transport/Hello.antt =====
-- The Hello handshake of src/quic_transport/protocol.rs: `client_hello`, `server_hello`,
-- `write_hello_frame` and `read_hello_frame`. What quinn and the clock answer is the record Remote, a
-- parameter; a half that sends is what was written to it, and its priority.
use lan_mouse_pro.Common.{
  ℕ, ◌%◌, ◌^◌, Bool, true, ltb, if◌then◌else◌, Option, none, some, List, [], ◌∷◌, ◌++◌, take,
}
use lan_mouse_pro.Transport.ByteStream.{Exact, full, eof, io_error, ByteStream}
use lan_mouse_pro.Transport.Frames.{padded}
use lan_mouse_pro.Wire.Bytes.{to_be_bytes, from_be_bytes}
use lan_mouse_pro.Wire.Fixed.{max_event_size, encode_fixed, decode_fixed}
use lan_mouse_pro.Wire.Outcome.{ProtocolError, Outcome, ok, ◌>>=◌}
use lan_mouse_pro.Wire.Types.{ProtoEvent}
use native.Mathlib.Decide.{ℕ_discrete}

-- `*b"LANMOUSE"`.
abbrev pub protocol_magic : List ℕ
protocol_magic = 76 ∷ 65 ∷ 78 ∷ 77 ∷ 79 ∷ 85 ∷ 83 ∷ 69 ∷ []

-- `ProtoEvent::hello`.
abbrev pub hello : List ℕ → ProtoEvent
hello commit = ProtoEvent.hello protocol_magic commit

unfoldable pub magic-discrete : Discrete (List ℕ)
magic-discrete = hlevel ℕ_discrete

-- The priority + 100 of PRIORITY_CONTROL, or none that was set.
abbrev pub priority_control : ℕ
priority_control = 100

pub record SendStream : Type 0 where
  pub written : List ℕ
  pub priority : ℕ

pub record StreamPair (S : Type 0) : Type 0 where
  pub send : Option SendStream
  pub recv : Option S

-- The reason of `conn.close`.
pub data CloseReason : Type 0 where
  timed_out foreign_magic no_hello : CloseReason

-- The fields of PeerSession that the handshake uses, and how it closed the connection, if it did.
pub record Peer (S : Type 0) : Type 0 where
  pub stream_a_cache : Option (StreamPair S)
  pub cached_send_a : Option SendStream
  pub hello_ok : Bool
  pub closed : Option CloseReason

-- `Handshake`, `HelloTimeout`, and `HelloFailed` with its text.
pub data HelloError : Type 0 where
  handshake accept_failed hello_timeout : HelloError
  write_failed length_failed body_failed : HelloError
  too_large : ℕ → HelloError
  decode_failed : ProtocolError → HelloError
  wrong_magic : List ℕ → HelloError
  non_hello : ProtoEvent → HelloError

-- The receiving half of the stream that is opened or accepted, whether HELLO_TIMEOUT is over before
-- the other side has answered, and whether writing fails.
pub record Remote (S : Type 0) : Type 0 where
  pub opened : Option S
  pub elapsed : Bool
  pub write_fails : Bool

-- `Ok(())`, an error, or a panic.
pub data HelloEnd (S : Type 0) : Type 0 where
  established : Peer S → HelloEnd S
  refused : HelloError → Peer S → HelloEnd S
  panic : HelloEnd S

-- A frame that was read, an error, or a panic.
pub data Received (S : Type 0) : Type 0 where
  received : ProtoEvent → S → Received S
  unreadable : HelloError → Received S
  panicked : Received S

unfoldable pub write_hello_frame : ProtoEvent → Outcome (List ℕ)
write_hello_frame event = do
  (buf, len) ← encode_fixed event
  ok (to_be_bytes 4 (len % 2 ^ 32) ++ take len buf)

unfoldable pub hello_decoded : {S : Type 0} → Outcome ProtoEvent → S → Received S
hello_decoded (Outcome.ok event) s = received event s
hello_decoded (Outcome.err e) s = unreadable (HelloError.decode_failed e)
hello_decoded Outcome.panic s = panicked

module _ {S : Type 0} (stream : ByteStream S) where
  -- With the answer of `read_exact` for the body.
  unfoldable pub on_hello_body : ℕ → Exact S → Received S
  unfolding hello_decoded
  on_hello_body len (full body rest) = hello_decoded (decode_fixed (padded len body)) rest
  on_hello_body len eof = unreadable HelloError.body_failed
  on_hello_body len io_error = unreadable HelloError.body_failed

  -- With the answer of `read_u32`.
  unfoldable pub on_hello_length : Exact S → Received S
  unfolding on_hello_body
  on_hello_length (full bytes rest) =
      let len = from_be_bytes bytes in
      if ltb max_event_size len
      then unreadable (HelloError.too_large len)
      else on_hello_body len (stream.read_exact len rest)
  on_hello_length eof = unreadable HelloError.length_failed
  on_hello_length io_error = unreadable HelloError.length_failed

  unfoldable pub read_hello_frame : S → Received S
  unfolding on_hello_length
  read_hello_frame s = on_hello_length (stream.read_exact 4 s)

module _ {S : Type 0} where
  abbrev pub close : CloseReason → Peer S → Peer S
  close reason peer = record peer { closed = some reason }

  -- `take_stream_a_send`.
  unfoldable pub take_stream_a_send : Peer S → Option SendStream × Peer S
  take_stream_a_send peer = elim peer.stream_a_cache [
    | none ↦ (none, peer)
    | some pair ↦ (pair.send, record peer { stream_a_cache = some (record pair { send = none }) })
  ]

  -- `.expect(...)`, and what follows it.
  unfoldable pub cache_send : Option SendStream × Peer S → HelloEnd S
  cache_send (none, peer) = panic
  cache_send (some send, peer) = established (record peer {
    cached_send_a = some (record send { priority = priority_control });
    hello_ok = true;
  })

  -- Stream A is kept, its two halves apart.
  unfoldable pub keep_stream_a : SendStream → S → Peer S → HelloEnd S
  unfolding take_stream_a_send cache_send
  keep_stream_a send recv peer = cache_send (
      take_stream_a_send
        (record peer { stream_a_cache = some (record { send = some send; recv = some recv }) }))
