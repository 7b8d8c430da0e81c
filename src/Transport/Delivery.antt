-- ===== src/Transport/Delivery.antt =====
-- src/quic_transport/streams.rs: what the reader task of stream C delivers of what was written.
use lan_mouse_pro.Common.{
  ℕ, zero, suc, ◌≡◌, ◌<◌, refl, sym, ap, ◌∙◌, subst, arith, List, [], ◌∷◌, ◌++◌, length, map, All,
}
use lan_mouse_pro.Transport.ByteStream.{ByteStream}
use lan_mouse_pro.Transport.Frames.{
  Error, Read, got, failed, on_length_c, read_stream_c_frame, write_stream_c_frame,
}
use lan_mouse_pro.Transport.Loops.{StreamEvent, End, after_read, read_loop_with, read_stream_c_loop}
use lan_mouse_pro.Transport.Reading.{
  FitsPrefix, write_stream_c_frame-IsFrame, read_stream_c_frame-IsFrame,
}
use lan_mouse_pro.Wire.Dispatch.{encode_event}
use lan_mouse_pro.Wire.Dispatch.RoundTrip.{IsEvent}
use lan_mouse_pro.Wire.Outcome.{Outcome, ok, ◌>>=◌, bind_inversion, ok-injective}
use lan_mouse_pro.Wire.Types.{ProtoEvent}

-- The frames of the events, one behind the other.
unfoldable pub write_all : List ProtoEvent → Outcome (List ℕ)
write_all [] = ok []
write_all (e ∷ es) = do frame ← write_stream_c_frame e; frames ← write_all es; ok (frame ++ frames)

-- An event of the ranges of its Rust types, whose body has a length that fits the prefix.
abbrev pub IsSendable : ProtoEvent → Type 0
IsSendable e = IsEvent e × ((body : List ℕ) × ((encode_event e ≡ ok body) × FitsPrefix body))

module _ {S : Type 0} (wrap : ProtoEvent → StreamEvent) (read : S → Read S) where
  loop-got :
      (fuel left : ℕ) (s rest : S) (e : ProtoEvent)
      → read s ≡ got e rest
      → let r = read_loop_with wrap read fuel left rest in
        read_loop_with wrap read (suc fuel) (suc left) s ≡ (wrap e ∷ r.0, r.1)
  unfolding read_loop_with after_read
  loop-got fuel left s rest e reads =
      ap (after_read wrap (read_loop_with wrap read fuel) (suc left)) reads

  ended :
      (next : ℕ → S → List StreamEvent × End) (taken : ℕ) (s : S)
      → after_read wrap next taken (failed Error.length_failed s)
        ≡ ([], End.error Error.length_failed)
  unfolding after_read
  ended next zero s = refl
  ended next (suc left) s = refl

  loop_end :
      (fuel taken : ℕ) (s : S)
      → read s ≡ failed Error.length_failed s
      → read_loop_with wrap read (suc fuel) taken s ≡ ([], End.error Error.length_failed)
  unfolding read_loop_with after_read
  loop_end fuel taken s reads =
      ap (after_read wrap (read_loop_with wrap read fuel) taken) reads
      ∙ ended (read_loop_with wrap read fuel) taken s

module _ {S : Type 0} (stream : ByteStream S) where
  open stream use {content}

  at_end : (s : S) → content s ≡ [] → read_stream_c_frame stream s ≡ failed Error.length_failed s
  unfolding read_stream_c_frame on_length_c
  at_end s empty = ap (on_length_c stream s) (stream.short 4 s (rw empty (omega arith)))

  -- Events that were written to stream C, one behind the other, before the writer closed it, are
  -- delivered by the reader task, all of them, in their order and nothing else, if its receiver takes
  -- as many; the task then ends with the error of a length that cannot be read. Fuel for one frame
  -- more than there are is enough.
  pub read_stream_c_loop-write_all :
      (es : List ProtoEvent) (bytes : List ℕ) (fuel : ℕ) (s : S)
      → All IsSendable es
      → write_all es ≡ ok bytes
      → content s ≡ bytes
      → length es < fuel
      → read_stream_c_loop stream fuel (length es) s
        ≡ (map StreamEvent.clipboard_meta es, End.error Error.length_failed)
  unfolding read_stream_c_loop write_all
  read_stream_c_loop-write_all es bytes zero s sendable written at enough = absurd (omega arith)
  read_stream_c_loop-write_all [] bytes (suc fuel) s sendable written at enough =
      loop_end StreamEvent.clipboard_meta (read_stream_c_frame stream) fuel 0 s
        (at_end s (at ∙ sym (ok-injective written)))
  read_stream_c_loop-write_all (e ∷ es) bytes (suc fuel) s ((valid, (body, (encodes, fits))), rest)
        written at enough =
      let (frame, writes, writes_rest) =
        bind_inversion (write_stream_c_frame e) (λ f. write_all es >>= λ fs. ok (f ++ fs))
          written in
      let (frames, writes_all, joined) =
        bind_inversion (write_all es) (λ fs. ok (frame ++ fs)) writes_rest in
      let is_frame = write_stream_c_frame-IsFrame e frame valid writes in
      let (s1, (reads, left)) =
        read_stream_c_frame-IsFrame stream e frame frames s is_frame
          (subst FitsPrefix (ok-injective (sym encodes ∙ is_frame.encodes)) fits)
          (at ∙ sym (ok-injective joined)) in
      loop-got StreamEvent.clipboard_meta (read_stream_c_frame stream) fuel (length es) s s1 e reads
      ∙ ap (λ r. (StreamEvent.clipboard_meta e ∷ r.0, r.1))
          (read_stream_c_loop-write_all es frames fuel s1 rest writes_all left (omega arith))
