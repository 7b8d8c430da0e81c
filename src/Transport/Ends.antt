-- ===== src/Transport/Ends.antt =====
-- src/quic_transport/streams.rs: the reader task of stream C comes to its end.
use lan_mouse_pro.Common.{
  ℕ, zero, suc, ◌+◌, ◌-◌, ◌≡◌, ◌≢◌, ◌<◌, refl, sym, ap, ◌∙◌, subst, inl, inr, Bool-cases, ltb,
  ltb→lt, ltb→le, arith, List, length, take, length-drop,
}
use lan_mouse_pro.Transport.ByteStream.{Exact, full, eof, ByteStream}
use lan_mouse_pro.Transport.Frames.{
  Error, Read, got, failed, panic, decoded, on_body, on_length_c, read_stream_c_frame,
}
use lan_mouse_pro.Transport.Loops.{StreamEvent, End, after_read, read_loop_with, read_stream_c_loop}
use lan_mouse_pro.Wire.Bytes.{from_be_bytes}
use lan_mouse_pro.Wire.Dispatch.{decode_event}
use lan_mouse_pro.Wire.Dispatch.Total.{decode_event-ne-panic}
use lan_mouse_pro.Wire.Outcome.{Outcome}
use lan_mouse_pro.Wire.Types.{ProtoEvent}

-- Not for want of fuel, and not by a panic.
abbrev pub IsOrderly : End → Type 0
IsOrderly End.closed = Unit
IsOrderly (End.error e) = Unit
IsOrderly End.panicked = ⊥
IsOrderly End.out_of_fuel = ⊥

module _ {S : Type 0} (stream : ByteStream S) where
  open stream use {read_exact, content}

  -- No panic, and where the loop goes on, the stream holds less than n bytes.
  abbrev Shrinks : ℕ → Read S → Type 0
  Shrinks n (got e rest) = length (content rest) < n
  Shrinks n (failed (Error.decode_failed e) rest) = length (content rest) < n
  Shrinks n (failed Error.length_failed rest) = Unit
  Shrinks n (failed Error.body_failed rest) = Unit
  Shrinks n (failed (Error.frame_too_large len) rest) = Unit
  Shrinks n (failed Error.truncated rest) = Unit
  Shrinks n panic = ⊥

  decoded-Shrinks :
      (n : ℕ) (o : Outcome ProtoEvent) (s : S)
      → o ≢ Outcome.panic
      → length (content s) < n
      → Shrinks n (decoded o s)
  unfolding decoded
  decoded-Shrinks n (Outcome.ok e) s calm less = less
  decoded-Shrinks n (Outcome.err e) s calm less = less
  decoded-Shrinks n Outcome.panic s calm less = calm refl

  -- What a read leaves: not more than there was, nothing of it if it is short.
  read_exact-cases :
      (n : ℕ) (P : Exact S → Type 0) (s : S)
      → P eof
      → ((bytes : List ℕ) (rest : S)
          → n + length (content rest) ≡ length (content s)
          → P (full bytes rest))
      → P (read_exact n s)
  read_exact-cases n P s ends goes = elim (Bool-cases (ltb (length (content s)) n)) [
    | inl less ↦ subst P (sym (stream.short n s (ltb→lt (length (content s)) n less))) ends
    | inr enough ↦
        let fits = ltb→le (length (content s)) n enough in
        let (rest, (reads, left)) = stream.enough n s fits in
        let dropped : length (content rest) ≡ length (content s) - n =
          ap length left ∙ length-drop n (content s) in
        subst P (sym reads) (goes (take n (content s)) rest (omega (arith, fits, dropped)))
  ]

  read_stream_c_frame-Shrinks :
      (n : ℕ) (s : S) → length (content s) < suc n → Shrinks n (read_stream_c_frame stream s)
  unfolding read_stream_c_frame on_length_c on_body
  read_stream_c_frame-Shrinks n s less =
      read_exact-cases 4 (λ x. Shrinks n (on_length_c stream s x)) s tt
        (λ bytes rest took.
          read_exact-cases (from_be_bytes bytes)
            (λ x. Shrinks n (on_body stream decode_event rest x)) rest tt
            (λ body last took_body.
              decoded-Shrinks n (decode_event body) last (decode_event-ne-panic body)
                (omega arith)))

module _ {S : Type 0} (stream : ByteStream S) (wrap : ProtoEvent → StreamEvent) where
  after_read-IsOrderly :
      (n : ℕ) (next : ℕ → S → List StreamEvent × End) (taken : ℕ) (r : Read S)
      → ((left : ℕ) (rest : S) → length (stream.content rest) < n → IsOrderly (next left rest).1)
      → Shrinks stream n r
      → IsOrderly (after_read wrap next taken r).1
  unfolding after_read
  after_read-IsOrderly n next zero (got e rest) goes less = tt
  after_read-IsOrderly n next (suc left) (got e rest) goes less = goes left rest less
  after_read-IsOrderly n next zero (failed (Error.decode_failed e) rest) goes less =
      goes 0 rest less
  after_read-IsOrderly n next (suc left) (failed (Error.decode_failed e) rest) goes less =
      goes (suc left) rest less
  after_read-IsOrderly n next zero (failed _ rest) goes less = tt
  after_read-IsOrderly n next (suc left) (failed _ rest) goes less = tt
  after_read-IsOrderly n next zero panic goes less = less
  after_read-IsOrderly n next (suc left) panic goes less = less

  loop-IsOrderly :
      (read : S → Read S) (fuel taken : ℕ) (s : S)
      → ((n : ℕ) (s : S) → length (stream.content s) < suc n → Shrinks stream n (read s))
      → length (stream.content s) < fuel
      → IsOrderly (read_loop_with wrap read fuel taken s).1
  unfolding read_loop_with
  loop-IsOrderly read zero taken s shrinks less = absurd (omega arith)
  loop-IsOrderly read (suc fuel) taken s shrinks less =
      after_read-IsOrderly fuel (read_loop_with wrap read fuel) taken (read s)
        (λ left rest fewer. loop-IsOrderly read fuel left rest shrinks fewer) (shrinks fuel s less)

-- Whatever bytes arrive on stream C, its reader task comes to an end when the peer has closed the
-- stream, and does not panic: every round takes some bytes off, so that fuel for one frame more than
-- there are bytes is enough.
pub read_stream_c_loop-IsOrderly :
    {S : Type 0} (stream : ByteStream S) (fuel taken : ℕ) (s : S)
    → length (stream.content s) < fuel
    → IsOrderly (read_stream_c_loop stream fuel taken s).1
unfolding read_stream_c_loop
read_stream_c_loop-IsOrderly stream fuel taken s less =
    loop-IsOrderly stream StreamEvent.clipboard_meta (read_stream_c_frame stream) fuel taken s
      (read_stream_c_frame-Shrinks stream) less
