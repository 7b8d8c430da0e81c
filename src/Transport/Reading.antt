-- ===== src/Transport/Reading.antt =====
-- src/quic_transport/protocol.rs: a frame of stream C that was written is read back.
use lan_mouse_pro.Common.{
  ℕ, ◌%◌, ◌^◌, ◌≡◌, ◌≤◌, ◌<◌, refl, sym, ap, ◌∙◌, arith, List, ◌++◌, length, take, drop,
  length-append, take-append, drop-append, append_assoc,
}
use lan_mouse_pro.Transport.ByteStream.{full, ByteStream}
use lan_mouse_pro.Transport.Frames.{
  got, decoded, on_body, on_length_c, read_stream_c_frame, write_stream_c_frame,
}
use lan_mouse_pro.Wire.Bytes.{
  to_be_bytes, from_be_bytes, length-to_be_bytes, from_be_bytes-to_be_bytes,
}
use lan_mouse_pro.Wire.Dispatch.{encode_event, decode_event}
use lan_mouse_pro.Wire.Dispatch.RoundTrip.{IsEvent, decode_event-encode_event}
use lan_mouse_pro.Wire.Outcome.{ok, ◌>>=◌, bind_inversion, ok-injective}
use lan_mouse_pro.Wire.Types.{ProtoEvent}

-- The length of the body fits its prefix.
abbrev pub FitsPrefix : List ℕ → Type 0
FitsPrefix body = length body < 2 ^ 32

-- The frame of an event that can be encoded, and its body.
pub record IsFrame (e : ProtoEvent) (bytes : List ℕ) : Type 0 where
  pub body : List ℕ
  pub encodes : encode_event e ≡ ok body
  pub decodes : decode_event body ≡ ok e
  pub is_prefixed : bytes ≡ to_be_bytes 4 (length body % 2 ^ 32) ++ body

pub write_stream_c_frame-IsFrame :
    (e : ProtoEvent) (bytes : List ℕ)
    → IsEvent e
    → write_stream_c_frame e ≡ ok bytes
    → IsFrame e bytes
unfolding write_stream_c_frame
write_stream_c_frame-IsFrame e bytes valid written =
    let (body, encodes, decodes) =
      bind_inversion (encode_event e) decode_event (decode_event-encode_event e valid) in
    record {
      body = body;
      encodes = encodes;
      decodes = decodes;
      is_prefixed =
          ok-injective (
            sym written ∙ ap (λ o. o >>= λ b. ok (to_be_bytes 4 (length b % 2 ^ 32) ++ b)) encodes);
    }

module _ {S : Type 0} (stream : ByteStream S) where
  open stream use {read_exact, content}

  -- The first bytes of a stream.
  pub read_prefix :
      (n : ℕ) (xs ys : List ℕ) (s : S)
      → content s ≡ xs ++ ys
      → length xs ≡ n
      → (rest : S) × ((read_exact n s ≡ full xs rest) × (content rest ≡ ys))
  read_prefix n xs ys s at measured =
      let fits : n ≤ length (content s) = rw at (omega (arith, length-append xs ys)) in
      let (rest, (reads, left)) = stream.enough n s fits in
      (
        rest,
        (
          reads ∙ ap (λ bs. full bs rest) (ap (take n) at ∙ take-append n xs ys measured),
          left ∙ (ap (drop n) at ∙ drop-append n xs ys measured),
        ),
      )

  pub read_stream_c_frame-IsFrame :
      (e : ProtoEvent) (bytes more : List ℕ) (s : S) (frame : IsFrame e bytes)
      → FitsPrefix frame.body
      → content s ≡ bytes ++ more
      → (rest : S) × ((read_stream_c_frame stream s ≡ got e rest) × (content rest ≡ more))
  unfolding read_stream_c_frame on_length_c on_body decoded
  read_stream_c_frame-IsFrame e bytes more s frame fits at =
      let len = length frame.body in
      let prefix = to_be_bytes 4 (len % 2 ^ 32) in
      let (s1, (reads, left)) =
        read_prefix 4 prefix (frame.body ++ more) s
          (at ∙ (ap (λ bs. bs ++ more) frame.is_prefixed ∙ append_assoc prefix frame.body more))
          (length-to_be_bytes 4 (len % 2 ^ 32)) in
      let (s2, (reads_body, left_body)) = read_prefix len frame.body more s1 left refl in
      let same_len : from_be_bytes prefix ≡ len =
        from_be_bytes-to_be_bytes 4 (len % 2 ^ 32) (omega arith) ∙ omega (arith, fits) in
      (
        s2,
        (
          ap (on_length_c stream s) reads
              ∙ (ap (λ n. on_body stream decode_event s1 (read_exact n s1)) same_len
                  ∙ (ap (on_body stream decode_event s1) reads_body
                      ∙ ap (λ o. decoded o s2) frame.decodes)),
          left_body,
        ),
      )
