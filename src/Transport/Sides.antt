-- ===== src/Transport/Sides.antt =====
-- `client_hello` and `server_hello`, src/quic_transport/protocol.rs.
use lan_mouse_pro.Common.{ℕ, Bool, if◌then◌else◌, Option, none, some, List}
use lan_mouse_pro.Transport.ByteStream.{ByteStream}
use lan_mouse_pro.Transport.Hello.{
  CloseReason, HelloEnd, HelloError, Peer, Received, Remote, SendStream, close, hello,
  keep_stream_a, magic-discrete, protocol_magic, read_hello_frame, received, refused, unreadable,
  panicked, write_hello_frame,
}
use lan_mouse_pro.Wire.Outcome.{Outcome}
use lan_mouse_pro.Wire.Types.{ProtoEvent}
use mathlib.Core.Logic.{ite}

-- A half that was just opened, with what was written to it.
abbrev pub half : List ℕ → SendStream
half bytes = record { written = bytes; priority = 0 }

module _ {S : Type 0} where
  unfoldable pub time_out : Peer S → HelloEnd S
  time_out peer = refused HelloError.hello_timeout (close CloseReason.timed_out peer)

  -- The `match response`, with the half that the client's frame was written to.
  unfoldable pub on_response : SendStream → Received S → Peer S → HelloEnd S
  unfolding magic-discrete keep_stream_a
  on_response send (received (ProtoEvent.hello magic commit) rest) peer =
      ite (magic-discrete magic protocol_magic) (keep_stream_a send rest peer)
        (refused (HelloError.wrong_magic magic) (close CloseReason.foreign_magic peer))
  on_response send (received event rest) peer =
      refused (HelloError.non_hello event) (close CloseReason.no_hello peer)
  on_response send (unreadable e) peer = refused e peer
  on_response send panicked peer = HelloEnd.panic

  -- The server's own Hello, and what follows it.
  unfoldable pub echo : Bool → Outcome (List ℕ) → S → Peer S → HelloEnd S
  unfolding keep_stream_a
  echo fails (Outcome.ok frame) recv peer =
      if fails then refused HelloError.write_failed peer else keep_stream_a (half frame) recv peer
  echo fails (Outcome.err e) recv peer = HelloEnd.panic
  echo fails Outcome.panic recv peer = HelloEnd.panic

  -- The `match &hello`.
  unfoldable pub on_hello : Bool → List ℕ → Received S → Peer S → HelloEnd S
  unfolding echo magic-discrete write_hello_frame
  on_hello fails commit (received (ProtoEvent.hello magic theirs) rest) peer =
      ite (magic-discrete magic protocol_magic)
        (echo fails (write_hello_frame (hello commit)) rest peer)
        (refused (HelloError.wrong_magic magic) (close CloseReason.foreign_magic peer))
  on_hello fails commit (received event rest) peer =
      refused (HelloError.non_hello event) (close CloseReason.no_hello peer)
  on_hello fails commit (unreadable e) peer = refused e peer
  on_hello fails commit panicked peer = HelloEnd.panic

module _ {S : Type 0} (stream : ByteStream S) where
  -- The `exchange` of the client: the frame is written, then the answer is read.
  unfoldable pub exchange : Bool → Outcome (List ℕ) → S → Peer S → HelloEnd S
  unfolding on_response read_hello_frame
  exchange fails (Outcome.ok frame) recv peer =
      if fails
      then refused HelloError.write_failed peer
      else on_response (half frame) (read_hello_frame stream recv) peer
  exchange fails (Outcome.err e) recv peer = HelloEnd.panic
  exchange fails Outcome.panic recv peer = HelloEnd.panic

  unfoldable pub client_opened : Option S → Remote S → List ℕ → Peer S → HelloEnd S
  unfolding exchange time_out write_hello_frame
  client_opened none remote commit peer = refused HelloError.handshake peer
  client_opened (some recv) remote commit peer =
      if remote.elapsed
      then time_out peer
      else exchange remote.write_fails (write_hello_frame (hello commit)) recv peer

  unfoldable pub client_hello : Remote S → List ℕ → Peer S → HelloEnd S
  unfolding client_opened
  client_hello remote commit peer = client_opened remote.opened remote commit peer

  unfoldable pub server_accepted : Option S → Remote S → List ℕ → Peer S → HelloEnd S
  unfolding on_hello time_out read_hello_frame
  server_accepted none remote commit peer = refused HelloError.accept_failed peer
  server_accepted (some recv) remote commit peer =
      if remote.elapsed
      then time_out peer
      else on_hello remote.write_fails commit (read_hello_frame stream recv) peer

  unfoldable pub server_hello : Remote S → List ℕ → Peer S → HelloEnd S
  unfolding server_accepted
  server_hello remote commit peer = server_accepted remote.opened remote commit peer
