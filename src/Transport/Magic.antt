-- ===== src/Transport/Magic.antt =====
-- src/quic_transport/protocol.rs: a session is established only with a peer that presents the magic.
use lan_mouse_pro.Common.{ℕ, ◌≡◌, refl, Bool, true, false, if_both, Option, none, some, List}
use lan_mouse_pro.Transport.ByteStream.{ByteStream}
use lan_mouse_pro.Transport.Hello.{
  CloseReason, HelloEnd, HelloError, Peer, Received, Remote, SendStream, close, established,
  keep_stream_a, magic-discrete, protocol_magic, read_hello_frame, received, refused, unreadable,
  panicked, cache_send, take_stream_a_send, write_hello_frame, hello,
}
use lan_mouse_pro.Transport.Sides.{
  client_hello, client_opened, exchange, on_response, on_hello, echo, server_accepted, server_hello,
  time_out, half,
}
use lan_mouse_pro.Wire.Outcome.{Outcome}
use lan_mouse_pro.Wire.Types.{ProtoEvent}
use mathlib.Core.Logic.{ite}

-- What holds of both branches, each under its proposition.
ite_each {ℓ} :
    {A P : Type ℓ} (Q : A → Type ℓ) (d : Dec P) (x y : A) → (P → Q x) → (¬ P → Q y) → Q (ite d x y)
ite_each Q (yes p) x y hx hy = hx p
ite_each Q (no np) x y hx hy = hy np

module _ {S : Type 0} where
  -- The answer is a Hello with the magic.
  abbrev pub IsMagic : Received S → Type 0
  IsMagic (received (ProtoEvent.hello magic commit) rest) = magic ≡ protocol_magic
  IsMagic (received event rest) = ⊥
  IsMagic (unreadable e) = ⊥
  IsMagic panicked = ⊥

  -- The session is established and G holds, or hello_ok is what it was.
  abbrev pub Earned : Type 0 → Peer S → HelloEnd S → Type 0
  Earned G peer (established after) = G × (after.hello_ok ≡ true)
  Earned G peer (refused e after) = after.hello_ok ≡ peer.hello_ok
  Earned G peer HelloEnd.panic = Unit

  keep_stream_a-Earned :
      (G : Type 0) (send : SendStream) (recv : S) (peer : Peer S)
      → G
      → Earned G peer (keep_stream_a send recv peer)
  unfolding keep_stream_a take_stream_a_send cache_send
  keep_stream_a-Earned G send recv peer g = (g, refl)

  echo-Earned :
      (G : Type 0) (fails : Bool) (o : Outcome (List ℕ)) (recv : S) (peer : Peer S)
      → G
      → Earned G peer (echo fails o recv peer)
  unfolding echo
  echo-Earned G true (Outcome.ok frame) recv peer g = refl
  echo-Earned G false (Outcome.ok frame) recv peer g =
      keep_stream_a-Earned G (half frame) recv peer g
  echo-Earned G fails (Outcome.err e) recv peer g = tt
  echo-Earned G fails Outcome.panic recv peer g = tt

  on_response-Earned :
      (send : SendStream) (r : Received S) (peer : Peer S)
      → Earned (IsMagic r) peer (on_response send r peer)
  unfolding on_response
  on_response-Earned send (received (ProtoEvent.hello magic commit) rest) peer =
      ite_each (Earned (magic ≡ protocol_magic) peer) (magic-discrete magic protocol_magic)
        (keep_stream_a send rest peer)
        (refused (HelloError.wrong_magic magic) (close CloseReason.foreign_magic peer))
        (keep_stream_a-Earned (magic ≡ protocol_magic) send rest peer) (λ no. refl)
  on_response-Earned send (received _ rest) peer = refl
  on_response-Earned send (unreadable e) peer = refl
  on_response-Earned send panicked peer = tt

  on_hello-Earned :
      (fails : Bool) (commit : List ℕ) (r : Received S) (peer : Peer S)
      → Earned (IsMagic r) peer (on_hello fails commit r peer)
  unfolding on_hello
  on_hello-Earned fails commit (received (ProtoEvent.hello magic theirs) rest) peer =
      let frame = write_hello_frame (hello commit) in
      ite_each (Earned (magic ≡ protocol_magic) peer) (magic-discrete magic protocol_magic)
        (echo fails frame rest peer)
        (refused (HelloError.wrong_magic magic) (close CloseReason.foreign_magic peer))
        (echo-Earned (magic ≡ protocol_magic) fails frame rest peer) (λ no. refl)
  on_hello-Earned fails commit (received _ rest) peer = refl
  on_hello-Earned fails commit (unreadable e) peer = refl
  on_hello-Earned fails commit panicked peer = tt

module _ {S : Type 0} (stream : ByteStream S) where
  -- Stream A is there, and its first frame is a Hello with the magic.
  abbrev pub Presents : Option S → Type 0
  Presents none = ⊥
  Presents (some recv) = IsMagic (read_hello_frame stream recv)

  exchange-Earned :
      (fails : Bool) (o : Outcome (List ℕ)) (recv : S) (peer : Peer S)
      → Earned (Presents (some recv)) peer (exchange stream fails o recv peer)
  unfolding exchange
  exchange-Earned true (Outcome.ok frame) recv peer = refl
  exchange-Earned false (Outcome.ok frame) recv peer =
      on_response-Earned (half frame) (read_hello_frame stream recv) peer
  exchange-Earned fails (Outcome.err e) recv peer = tt
  exchange-Earned fails Outcome.panic recv peer = tt

  client_opened-Earned :
      (opened : Option S) (remote : Remote S) (commit : List ℕ) (peer : Peer S)
      → Earned (Presents opened) peer (client_opened stream opened remote commit peer)
  unfolding client_opened time_out
  client_opened-Earned none remote commit peer = refl
  client_opened-Earned (some recv) remote commit peer =
      let frame = write_hello_frame (hello commit) in
      if_both (Earned (Presents (some recv)) peer) remote.elapsed (time_out peer)
        (exchange stream remote.write_fails frame recv peer) refl
        (exchange-Earned remote.write_fails frame recv peer)

  server_accepted-Earned :
      (opened : Option S) (remote : Remote S) (commit : List ℕ) (peer : Peer S)
      → Earned (Presents opened) peer (server_accepted stream opened remote commit peer)
  unfolding server_accepted time_out
  server_accepted-Earned none remote commit peer = refl
  server_accepted-Earned (some recv) remote commit peer =
      let answer = read_hello_frame stream recv in
      if_both (Earned (Presents (some recv)) peer) remote.elapsed (time_out peer)
        (on_hello remote.write_fails commit answer peer) refl
        (on_hello-Earned remote.write_fails commit answer peer)

  -- On either side of a connection, whatever the other side sends and however its stream ends, hello_ok
  -- is set exactly when the handshake is established, and that is only where stream A begins with the
  -- frame of a Hello that carries the magic; a handshake that is refused leaves hello_ok as it was.
  pub client_hello-server_hello-Earned :
      (remote : Remote S) (commit : List ℕ) (peer : Peer S)
      → Earned (Presents remote.opened) peer (client_hello stream remote commit peer)
        × Earned (Presents remote.opened) peer (server_hello stream remote commit peer)
  unfolding client_hello server_hello
  client_hello-server_hello-Earned remote commit peer = (
    client_opened-Earned remote.opened remote commit peer,
    server_accepted-Earned remote.opened remote commit peer,
  )
