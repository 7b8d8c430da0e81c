-- ===== src/Transport/Handshake.antt =====
-- src/quic_transport/protocol.rs: the two sides of the handshake meet.
use lan_mouse_pro.Common.{
  ℕ, ◌≡◌, refl, sym, ap, ◌∙◌, subst, Bool, true, false, none, some, List, ◌++◌, if◌then◌else◌, ltb,
  ◌≢◌, arith,
}
use lan_mouse_pro.Client.Types.{default_input_channels}
use lan_mouse_pro.Transport.ByteStream.{ByteStream, Exact, full, eof, io_error}
use lan_mouse_pro.Transport.FixedReading.{read_frame-write_frame}
use lan_mouse_pro.Transport.Frames.{
  Error, Read, got, failed, panic, decoded, on_body, on_length, padded, read_frame, write_frame,
}
use lan_mouse_pro.Transport.Hello.{
  CloseReason, close, HelloEnd, HelloError, Peer, Received, Remote, SendStream, established,
  keep_stream_a, magic-discrete, protocol_magic, read_hello_frame, on_hello_length, on_hello_body,
  hello_decoded, received, refused, unreadable, panicked, cache_send, take_stream_a_send,
  write_hello_frame, hello, priority_control,
}
use lan_mouse_pro.Transport.Routing.{Channel, route_input}
use lan_mouse_pro.Transport.Sides.{
  client_hello, client_opened, exchange, on_response, on_hello, echo, server_accepted, server_hello,
  half,
}
use lan_mouse_pro.Wire.Bytes.{from_be_bytes}
use lan_mouse_pro.Wire.Fixed.{max_event_size, decode_fixed}
use lan_mouse_pro.Wire.Fixed.Valid.{IsArray8}
use lan_mouse_pro.Wire.Outcome.{Outcome, ok}
use lan_mouse_pro.Wire.Types.{ProtoEvent}
use mathlib.Core.Logic.{if_pos}

magic-IsArray8 : IsArray8 protocol_magic
magic-IsArray8 = (
  refl,
  (
    omega arith,
    (
      omega arith,
      (omega arith, (omega arith, (omega arith, (omega arith, (omega arith, (omega arith, tt)))))),
    ),
  ),
)

routed_hello :
    (commit : List ℕ) → route_input default_input_channels (hello commit) ≢ Channel.stream_c
unfolding route_input
routed_hello commit h = ground arith

write_hello_frame-write_frame : (e : ProtoEvent) → write_hello_frame e ≡ write_frame e
unfolding write_hello_frame write_frame
write_hello_frame-write_frame e = refl

module _ {S : Type 0} where
  -- The two readers differ in their errors.
  as_hello : Read S → Received S
  as_hello (got e rest) = received e rest
  as_hello (failed Error.length_failed rest) = unreadable HelloError.length_failed
  as_hello (failed Error.body_failed rest) = unreadable HelloError.body_failed
  as_hello (failed Error.truncated rest) = unreadable HelloError.body_failed
  as_hello (failed (Error.decode_failed e) rest) = unreadable (HelloError.decode_failed e)
  as_hello (failed (Error.frame_too_large len) rest) = unreadable (HelloError.too_large len)
  as_hello panic = panicked

  hello_decoded-decoded :
      (o : Outcome ProtoEvent) (s : S) → hello_decoded o s ≡ as_hello (decoded o s)
  unfolding hello_decoded decoded as_hello
  hello_decoded-decoded (Outcome.ok e) s = refl
  hello_decoded-decoded (Outcome.err e) s = refl
  hello_decoded-decoded Outcome.panic s = refl

  on_response-hello :
      (send : SendStream) (commit : List ℕ) (rest : S) (peer : Peer S)
      → on_response send (received (hello commit) rest) peer ≡ keep_stream_a send rest peer
  unfolding on_response
  on_response-hello send commit rest peer =
      if_pos (magic-discrete protocol_magic protocol_magic) refl (keep_stream_a send rest peer)
        (refused (HelloError.wrong_magic protocol_magic) (close CloseReason.foreign_magic peer))

  on_hello-hello :
      (ours theirs : List ℕ) (rest : S) (peer : Peer S)
      → on_hello false ours (received (hello theirs) rest) peer
        ≡ echo false (write_hello_frame (hello ours)) rest peer
  unfolding on_hello
  on_hello-hello ours theirs rest peer =
      if_pos (magic-discrete protocol_magic protocol_magic) refl
        (echo false (write_hello_frame (hello ours)) rest peer)
        (refused (HelloError.wrong_magic protocol_magic) (close CloseReason.foreign_magic peer))

module _ {S : Type 0} (stream : ByteStream S) where
  on_hello_body-on_body :
      (len : ℕ) (x : Exact S) (s : S)
      → on_hello_body stream len x
        ≡ as_hello (on_body stream (λ body. decode_fixed (padded len body)) s x)
  unfolding on_hello_body on_body as_hello
  on_hello_body-on_body len (full body rest) s =
      hello_decoded-decoded (decode_fixed (padded len body)) rest
  on_hello_body-on_body len eof s = refl
  on_hello_body-on_body len io_error s = refl

  if_as_hello :
      (b : Bool) (x y : Read S) (x' y' : Received S)
      → x' ≡ as_hello x
      → y' ≡ as_hello y
      → (if b then x' else y') ≡ as_hello (if b then x else y)
  if_as_hello true x y x' y' hx hy = hx
  if_as_hello false x y x' y' hx hy = hy

  on_hello_length-on_length :
      (x : Exact S) (s : S) → on_hello_length stream x ≡ as_hello (on_length stream s x)
  unfolding on_hello_length on_length as_hello
  on_hello_length-on_length (full bytes rest) s =
      let len = from_be_bytes bytes in
      let answer = stream.read_exact len rest in
      if_as_hello (ltb max_event_size len) (failed (Error.frame_too_large len) rest)
        (on_body stream (λ body. decode_fixed (padded len body)) rest answer)
        (unreadable (HelloError.too_large len)) (on_hello_body stream len answer) refl
        (on_hello_body-on_body len answer rest)
  on_hello_length-on_length eof s = refl
  on_hello_length-on_length io_error s = refl

  read_hello_frame-read_frame : (s : S) → read_hello_frame stream s ≡ as_hello (read_frame stream s)
  unfolding read_hello_frame read_frame
  read_hello_frame-read_frame s = on_hello_length-on_length (stream.read_exact 4 s) s

  read_hello_frame-hello :
      (commit sent more : List ℕ) (s : S)
      → IsArray8 commit
      → write_hello_frame (hello commit) ≡ ok sent
      → stream.content s ≡ sent ++ more
      → (rest : S) × ((read_hello_frame stream s ≡ received (hello commit) rest)
          × (stream.content rest ≡ more))
  unfolding as_hello
  read_hello_frame-hello commit sent more s array written at =
      let (rest, (reads, left)) =
        read_frame-write_frame stream default_input_channels (hello commit) sent more s
          (magic-IsArray8, array) (routed_hello commit)
          (sym (write_hello_frame-write_frame (hello commit)) ∙ written) at in
      (rest, (read_hello_frame-read_frame s ∙ ap as_hello reads, left))

  -- The session is established, stream A is kept, with its sending half at the control priority and
  -- behind the frame that was sent, and its receiving half at what follows the other side's frame.
  abbrev pub IsUp : List ℕ → List ℕ → HelloEnd S → Type 0
  IsUp sent more (established after) =
      (after.hello_ok ≡ true)
      × ((after.cached_send_a ≡ some (record { written = sent; priority = priority_control }))
          × ((rest : S) × ((after.stream_a_cache ≡ some (record { send = none; recv = some rest }))
                × (stream.content rest ≡ more))))
  IsUp sent more (refused e after) = ⊥
  IsUp sent more HelloEnd.panic = ⊥

  keep_stream_a-IsUp :
      (sent more : List ℕ) (rest : S) (peer : Peer S)
      → stream.content rest ≡ more
      → IsUp sent more (keep_stream_a (half sent) rest peer)
  unfolding keep_stream_a take_stream_a_send cache_send
  keep_stream_a-IsUp sent more rest peer left = (refl, (refl, (rest, (refl, left))))

  -- The stream is opened, the other side answers in time, and writing does not fail.
  abbrev pub prompt : S → Remote S
  prompt recv = record { opened = some recv; elapsed = false; write_fails = false }

  -- Two sides whose streams begin with each other's frames, answered in time and without a failure to
  -- write, establish their sessions, whatever their commits are: both set hello_ok and keep stream A,
  -- the sending half at the control priority, the receiving half at what follows the Hello.
  pub client_hello-server_hello-IsUp :
      (ours theirs our_frame their_frame our_more their_more : List ℕ) (here there : S)
      (client server : Peer S)
      → IsArray8 ours
      → IsArray8 theirs
      → write_hello_frame (hello ours) ≡ ok our_frame
      → write_hello_frame (hello theirs) ≡ ok their_frame
      → stream.content here ≡ their_frame ++ their_more
      → stream.content there ≡ our_frame ++ our_more
      → IsUp our_frame their_more (client_hello stream (prompt here) ours client)
        × IsUp their_frame our_more (server_hello stream (prompt there) theirs server)
  unfolding client_hello client_opened exchange on_response server_hello server_accepted on_hello
      echo
  client_hello-server_hello-IsUp ours theirs our_frame their_frame our_more their_more here there
        client server a b writes_ours writes_theirs at_here at_there =
      let (rest, (reads, left)) =
        read_hello_frame-hello theirs their_frame their_more here b writes_theirs at_here in
      let (rest', (reads', left')) =
        read_hello_frame-hello ours our_frame our_more there a writes_ours at_there in
      (
        subst (IsUp our_frame their_more)
            (sym (
              ap (λ o. exchange stream false o here client) writes_ours
              ∙ (ap (λ r. on_response (half our_frame) r client) reads
                  ∙ on_response-hello (half our_frame) theirs rest client)))
            (keep_stream_a-IsUp our_frame their_more rest client left),
        subst (IsUp their_frame our_more)
            (sym (
              ap (λ r. on_hello false theirs r server) reads'
              ∙ (on_hello-hello theirs ours rest' server
                  ∙ ap (λ o. echo false o rest' server) writes_theirs)))
            (keep_stream_a-IsUp their_frame our_more rest' server left'),
      )
