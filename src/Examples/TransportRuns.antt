-- ===== src/Examples/TransportRuns.antt =====
-- The framing of streams at concrete bytes.
use lan_mouse_pro.Common.{
  true, ℕ, ◌≡◌, ◌≢◌, ◌≤◌, ◌<◌, refl, arith, ltb, lt→ltb, le→ltb, if◌then◌else◌, none, some, false,
  List, [], ◌∷◌, ◌++◌, length, take, drop, replicate,
}
use lan_mouse_pro.Client.Types.{ChannelMode, InputChannelConfig}
use lan_mouse_pro.Transport.ByteStream.{Exact, full, eof, ByteStream}
use lan_mouse_pro.Transport.Delivery.{write_all, read_stream_c_loop-write_all}
use lan_mouse_pro.Transport.Ends.{IsOrderly, read_stream_c_loop-IsOrderly}
use lan_mouse_pro.Transport.FixedReading.{read_frame-write_frame}
use lan_mouse_pro.Transport.Frames.{
  Error, got, panic, read_frame, write_frame, write_stream_c_frame,
}
use lan_mouse_pro.Transport.Handshake.{IsUp, prompt, client_hello-server_hello-IsUp}
use lan_mouse_pro.Transport.Delivers.{Delivers}
use lan_mouse_pro.Transport.SendInput.{send_input-Delivers}
use lan_mouse_pro.Transport.Sending.{Datagram, Quic, Session, send_input}
use lan_mouse_pro.Wire.Dispatch.RoundTrip.{IsEvent}
use lan_mouse_pro.Transport.Hello.{Peer, protocol_magic, write_hello_frame}
use lan_mouse_pro.Transport.Magic.{Earned, Presents, client_hello-server_hello-Earned}
use lan_mouse_pro.Transport.Sides.{client_hello, server_hello}
use lan_mouse_pro.Wire.Fixed.Valid.{IsArray8}
use lan_mouse_pro.Transport.Loops.{StreamEvent, End, read_stream_c_loop}
use lan_mouse_pro.Transport.Routing.{Channel, route_input}
use lan_mouse_pro.Transport.VariablePanic.{read_frame-variable-panic}
use lan_mouse_pro.Wire.Bodies.{encode_cancel, encode_request}
use lan_mouse_pro.Wire.Bytes.{to_be_bytes}
use lan_mouse_pro.Wire.Dispatch.{encode_event}
use lan_mouse_pro.Wire.EventTypes.{event_type_of, is_fixed}
use lan_mouse_pro.Wire.Fields.{write_hash}
use lan_mouse_pro.Wire.Fixed.{encode_fixed}
use lan_mouse_pro.Wire.Types.{EventType, InputEvent, KeyboardEvent, ProtoEvent}

-- The bytes themselves as the stream.
read_list : ℕ → List ℕ → Exact (List ℕ)
read_list n s = if ltb (length s) n then eof else full (take n s) (drop n s)

read_list_enough :
    (n : ℕ) (s : List ℕ)
    → n ≤ length s
    → (rest : List ℕ) × ((read_list n s ≡ full (take n s) rest) × (rest ≡ drop n s))
unfolding read_list
read_list_enough n s fits = (drop n s, (rw (le→ltb (length s) n fits) refl, refl))

read_list_short : (n : ℕ) (s : List ℕ) → length s < n → read_list n s ≡ eof
unfolding read_list
read_list_short n s less = rw (lt→ltb (length s) n less) refl

abbrev bytes_stream : ByteStream (List ℕ)
bytes_stream = record {
  read_exact = read_list;
  content = λ s. s;
  enough = read_list_enough;
  short = read_list_short;
}

abbrev hash : List ℕ
hash = replicate 32 0xab

abbrev cancel : ProtoEvent
cancel = ProtoEvent.file_transfer_cancel (record { sha256 = hash })

abbrev request : ProtoEvent
request = ProtoEvent.clipboard_request (record { sha256 = hash })

-- A cancel and a request, as they go over stream C.
abbrev two_frames : List ℕ
two_frames = (0 ∷ 0 ∷ 0 ∷ 33 ∷ 17 ∷ hash) ++ (0 ∷ 0 ∷ 0 ∷ 33 ∷ 18 ∷ hash)

read_stream_c_loop-write_all_example : read_stream_c_loop bytes_stream 3 2 two_frames ≡ (
  StreamEvent.clipboard_meta cancel ∷ StreamEvent.clipboard_meta request ∷ [],
  End.error Error.length_failed,
)
unfolding write_all write_stream_c_frame encode_event to_be_bytes encode_cancel write_hash
    encode_request
read_stream_c_loop-write_all_example =
    read_stream_c_loop-write_all bytes_stream (cancel ∷ request ∷ []) two_frames 3 two_frames
      ((refl, (17 ∷ hash, (refl, omega arith))), ((refl, (18 ∷ hash, (refl, omega arith))), tt))
      refl refl (omega arith)

read_stream_c_loop-IsOrderly_example :
    IsOrderly (read_stream_c_loop bytes_stream 9 5 (0 ∷ 0 ∷ 0 ∷ 1 ∷ 12 ∷ 255 ∷ 0 ∷ [])).1
read_stream_c_loop-IsOrderly_example =
    read_stream_c_loop-IsOrderly bytes_stream 9 5 (0 ∷ 0 ∷ 0 ∷ 1 ∷ 12 ∷ 255 ∷ 0 ∷ []) (omega arith)

abbrev streamed : InputChannelConfig
streamed = record { mouse_button = ChannelMode.stream; keyboard = ChannelMode.stream }

abbrev key_down : ProtoEvent
key_down = ProtoEvent.input (InputEvent.keyboard (KeyboardEvent.key 0 30 1))

routed_key : route_input streamed key_down ≢ Channel.stream_c
unfolding route_input
routed_key h = ground arith

-- A key of type 4, with its time, its code and its state, and two bytes of what comes next.
abbrev key_frame : List ℕ
key_frame = 0 ∷ 0 ∷ 0 ∷ 10 ∷ 4 ∷ 0 ∷ 0 ∷ 0 ∷ 0 ∷ 0 ∷ 0 ∷ 0 ∷ 30 ∷ 1 ∷ []

read_frame-write_frame_example :
    (rest : List ℕ) × ((read_frame bytes_stream (key_frame ++ (0 ∷ 0 ∷ [])) ≡ got key_down rest)
      × (rest ≡ 0 ∷ 0 ∷ []))
unfolding write_frame encode_fixed to_be_bytes
read_frame-write_frame_example =
    read_frame-write_frame bytes_stream streamed key_down key_frame (0 ∷ 0 ∷ [])
      (key_frame ++ (0 ∷ 0 ∷ [])) (omega arith, omega arith, omega arith) routed_key refl refl

-- One byte of a frame, 12, the type of a clipboard text.
read_frame-variable-panic_example : read_frame bytes_stream (0 ∷ 0 ∷ 0 ∷ 1 ∷ 12 ∷ []) ≡ panic
unfolding event_type_of is_fixed to_be_bytes
read_frame-variable-panic_example =
    read_frame-variable-panic bytes_stream 12 EventType.clipboard_text [] []
      (0 ∷ 0 ∷ 0 ∷ 1 ∷ 12 ∷ []) refl refl (omega arith) refl

-- A Hello frame of type 11: the magic, and a commit of ones.
abbrev hello_frame : ℕ → List ℕ
hello_frame b = (0 ∷ 0 ∷ 0 ∷ 17 ∷ 11 ∷ protocol_magic) ++ replicate 8 b

abbrev unknown : Peer (List ℕ)
unknown = record { stream_a_cache = none; cached_send_a = none; hello_ok = false; closed = none }

ones-IsArray8 : (b : ℕ) → b < 256 → IsArray8 (replicate 8 b)
ones-IsArray8 b h = (refl, (h, (h, (h, (h, (h, (h, (h, (h, tt)))))))))

client_hello-server_hello-IsUp_example :
    IsUp bytes_stream (hello_frame 1) (9 ∷ []) (
      client_hello bytes_stream
        (prompt bytes_stream (hello_frame 2 ++ (9 ∷ [])))
        (replicate 8 1)
        unknown)
    × IsUp bytes_stream (hello_frame 2) (7 ∷ 7 ∷ []) (
        server_hello bytes_stream
          (prompt bytes_stream (hello_frame 1 ++ (7 ∷ 7 ∷ [])))
          (replicate 8 2)
          unknown)
unfolding write_hello_frame encode_fixed to_be_bytes
client_hello-server_hello-IsUp_example =
    client_hello-server_hello-IsUp bytes_stream (replicate 8 1) (replicate 8 2) (hello_frame 1)
      (hello_frame 2) (7 ∷ 7 ∷ []) (9 ∷ []) (hello_frame 2 ++ (9 ∷ []))
      (hello_frame 1 ++ (7 ∷ 7 ∷ [])) unknown unknown (ones-IsArray8 1 (omega arith))
      (ones-IsArray8 2 (omega arith)) refl refl refl refl

-- A server that answers a key.
client_hello-server_hello-Earned_example :
    Earned
      (Presents bytes_stream (some key_frame))
      unknown
      (client_hello bytes_stream (prompt bytes_stream key_frame) (replicate 8 1) unknown)
    × Earned
        (Presents bytes_stream (some key_frame))
        unknown
        (server_hello bytes_stream (prompt bytes_stream key_frame) (replicate 8 1) unknown)
client_hello-server_hello-Earned_example =
    client_hello-server_hello-Earned bytes_stream (prompt bytes_stream key_frame) (replicate 8 1)
      unknown

-- A connection that takes datagrams of 30 bytes, and every write.
abbrev plain : Quic ℕ
plain = record {
  open_bi = λ w. (true, w);
  write = λ bytes w. (none, w);
  finish = λ w. (true, w);
  max_datagram_size = λ w. some 30;
  send_datagram = λ bytes w. (Datagram.accepted, w);
}

abbrev begun : Session ℕ
begun = record {
  conn = 0;
  hello_ok = true;
  cached_send_a = none;
  cached_send_b = some (record { written = key_frame; priority = 50 });
  cached_send_c = none;
  datagrams = [];
  finished = [];
}

key-IsEvent : IsEvent key_down
key-IsEvent = (omega arith, omega arith, omega arith)

-- A key on stream B, behind one that was sent before.
send_input-Delivers_example :
    Delivers
      (route_input streamed key_down)
      key_down
      begun
      (send_input plain streamed key_down begun)
send_input-Delivers_example = send_input-Delivers plain streamed key_down begun key-IsEvent
