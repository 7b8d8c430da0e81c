-- ===== src/Transport/Small.antt =====
-- src/quic_transport/protocol.rs: what `read_frame` answers to a body that is there and small enough.
use lan_mouse_pro.Common.{
  ℕ, ◌%◌, ◌^◌, ◌≡◌, ◌≤◌, refl, ap, ◌∙◌, ltb, if◌then◌else◌, arith, List, ◌++◌, length, append_assoc,
  le→ltb,
}
use lan_mouse_pro.Transport.ByteStream.{ByteStream}
use lan_mouse_pro.Transport.Frames.{
  Read, failed, Error, padded, decoded, on_body, on_length, read_frame,
}
use lan_mouse_pro.Transport.Reading.{read_prefix}
use lan_mouse_pro.Wire.Bytes.{
  to_be_bytes, from_be_bytes, length-to_be_bytes, from_be_bytes-to_be_bytes,
}
use lan_mouse_pro.Wire.Fixed.{max_event_size, decode_fixed}

module _ {S : Type 0} (stream : ByteStream S) where
  open stream use {read_exact, content}

  -- A length that fits the buffer.
  at_length : S → ℕ → Read S
  unfolding on_body
  at_length s len =
      if ltb max_event_size len
      then failed (Error.frame_too_large len) s
      else on_body stream (λ body. decode_fixed (padded len body)) s (read_exact len s)

  pub read_frame-small :
      (body more : List ℕ) (s : S)
      → length body ≤ 21
      → content s ≡ (to_be_bytes 4 (length body % 2 ^ 32) ++ body) ++ more
      → (rest : S) × ((read_frame stream s
            ≡ decoded (decode_fixed (padded (length body) body)) rest)
          × (content rest ≡ more))
  unfolding read_frame on_length at_length on_body
  read_frame-small body more s small at =
      let len = length body in
      let prefix = to_be_bytes 4 (len % 2 ^ 32) in
      let (s1, (reads, left)) =
        read_prefix stream 4 prefix (body ++ more) s (at ∙ append_assoc prefix body more)
          (length-to_be_bytes 4 (len % 2 ^ 32)) in
      let (s2, (reads_body, left_body)) = read_prefix stream len body more s1 left refl in
      let same_len : from_be_bytes prefix ≡ len =
        from_be_bytes-to_be_bytes 4 (len % 2 ^ 32) (omega arith) ∙ omega (arith, small) in
      (
        s2,
        (
          ap (on_length stream s) reads
              ∙ (ap (at_length s1) same_len
                  ∙ (ap
                        (λ b.
                          if b
                          then failed (Error.frame_too_large len) s1
                          else on_body stream (λ body. decode_fixed (padded len body)) s1
                              (read_exact len s1))
                        (le→ltb max_event_size len small)
                      ∙ ap (on_body stream (λ body. decode_fixed (padded len body)) s1)
                          reads_body)),
          left_body,
        ),
      )
