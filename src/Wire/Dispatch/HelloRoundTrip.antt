-- ===== src/Wire/Dispatch/HelloRoundTrip.antt =====
-- The `Hello` event through the universal dispatcher.
use lan_mouse_pro.Common.{
  ℕ, ◌≡◌, ap, ◌∙◌, arith, List, [], ◌∷◌, ◌++◌, length, take, replicate, append_assoc, append-nil,
  length-append, take-append,
}
use lan_mouse_pro.Wire.Bytes.{to_be_bytes}
use lan_mouse_pro.Wire.Dispatch.{encode_event, decode_event, fixed_frame}
use lan_mouse_pro.Wire.Fixed.{ArrayWriter, encode_u8s, encode_fixed, decode_fixed}
use lan_mouse_pro.Wire.Fixed.Arrays.{decode_int_one, encode_u8s_lem, decode_u8s-append}
use lan_mouse_pro.Wire.Fixed.Valid.{IsArray8}
use lan_mouse_pro.Wire.Outcome.{ok, ◌>>=◌}
use lan_mouse_pro.Wire.Types.{ProtoEvent}

module _ (magic commit : List ℕ) (m : IsArray8 magic) (c : IsArray8 commit) where
  abbrev at_magic : ArrayWriter
  at_magic = record { written = 11 ∷ []; rest = replicate 20 0; len = 1 }

  abbrev at_commit : ArrayWriter
  at_commit = record { written = 11 ∷ magic; rest = replicate 12 0; len = 9 }

  abbrev at_end : ArrayWriter
  at_end = record { written = (11 ∷ magic) ++ commit; rest = replicate 4 0; len = 17 }

  write_magic : encode_u8s magic at_magic ≡ ok at_commit
  write_magic = rw m.0 at (encode_u8s_lem magic at_magic m.1 (omega (arith, m.0)))

  write_commit : encode_u8s commit at_commit ≡ ok at_end
  write_commit = rw c.0 at (encode_u8s_lem commit at_commit c.1 (omega (arith, c.0)))

  pub encode_fixed-hello :
      encode_fixed (ProtoEvent.hello magic commit)
      ≡ ok (((11 ∷ magic) ++ commit) ++ replicate 4 0, 17)
  unfolding encode_fixed to_be_bytes
  encode_fixed-hello = rw (write_magic, write_commit)

  arrays_size : length (magic ++ commit) ≡ 16
  arrays_size = omega (arith, length-append magic commit, m.0, c.0)

  encode_event-hello : encode_event (ProtoEvent.hello magic commit) ≡ ok (11 ∷ (magic ++ commit))
  unfolding encode_event
  encode_event-hello =
      rw (encode_fixed-hello, take-append 16 (magic ++ commit) (replicate 4 0) arrays_size)

  fixed_frame-hello : fixed_frame 11 (magic ++ commit) ≡ 11 ∷ (magic ++ (commit ++ replicate 4 0))
  unfolding fixed_frame
  fixed_frame-hello =
      let whole : take 16 (magic ++ commit) ≡ magic ++ commit =
        rw append-nil at (take-append 16 (magic ++ commit) [] arrays_size) in
      rw (fixed_frame, arrays_size, whole) (ap (◌∷◌ 11) (append_assoc magic commit (replicate 4 0)))

  pub decode_fixed-hello :
      decode_fixed (11 ∷ (magic ++ (commit ++ replicate 4 0))) ≡ ok (ProtoEvent.hello magic commit)
  unfolding decode_fixed
  decode_fixed-hello = rw (decode_int_one 11 (magic ++ (commit ++ replicate 4 0))) (
      rw (
        decode_u8s-append 8 magic (commit ++ replicate 4 0) m.0,
        decode_u8s-append 8 commit (replicate 4 0) c.0,
      ))

  decode_event-hello : decode_event (11 ∷ (magic ++ commit)) ≡ ok (ProtoEvent.hello magic commit)
  unfolding decode_event
  decode_event-hello = ap decode_fixed fixed_frame-hello ∙ decode_fixed-hello

  pub decode-encode_hello :
      (encode_event (ProtoEvent.hello magic commit) >>= decode_event)
      ≡ ok (ProtoEvent.hello magic commit)
  decode-encode_hello = rw encode_event-hello decode_event-hello
