-- ===== src/Transport/Loops.antt =====
-- The reader tasks of streams B and C, src/quic_transport/streams.rs. The receiver of the queue takes
-- so many events before it is dropped. The fuel bounds the frames.
use lan_mouse_pro.Common.{ℕ, zero, suc, List, [], ◌∷◌}
use lan_mouse_pro.Transport.ByteStream.{ByteStream}
use lan_mouse_pro.Transport.Frames.{
  Error, Read, got, failed, panic, read_frame, read_stream_c_frame,
}
use lan_mouse_pro.Wire.Types.{ProtoEvent}

pub data StreamEvent : Type 0 where
  control reliable datagram clipboard_meta : ProtoEvent → StreamEvent

-- How a reader task ends: `Ok(())`, an error, a panic, or more frames than the fuel.
pub data End : Type 0 where
  closed : End
  error : Error → End
  panicked : End
  out_of_fuel : End

module _ {S : Type 0} (wrap : ProtoEvent → StreamEvent) where
  -- With what was read, and the loop from there on: a frame that does not decode is skipped, any other
  -- error ends the task.
  unfoldable pub after_read :
      (ℕ → S → List StreamEvent × End) → (taken : ℕ) → Read S → List StreamEvent × End
  after_read next zero (got event rest) = ([], End.closed)
  after_read next (suc left) (got event rest) =
      let (events, end) = next left rest in (wrap event ∷ events, end)
  after_read next taken (failed (Error.decode_failed e) rest) = next taken rest
  after_read next taken (failed e rest) = ([], End.error e)
  after_read next taken panic = ([], End.panicked)

  -- Both loops.
  unfoldable pub read_loop_with : (S → Read S) → (fuel taken : ℕ) → S → List StreamEvent × End
  unfolding after_read
  read_loop_with read zero taken s = ([], End.out_of_fuel)
  read_loop_with read (suc fuel) taken s = after_read (read_loop_with read fuel) taken (read s)

module _ {S : Type 0} (stream : ByteStream S) where
  unfoldable pub read_stream_b_loop : (fuel taken : ℕ) → S → List StreamEvent × End
  unfolding read_loop_with
  read_stream_b_loop fuel taken s =
      read_loop_with StreamEvent.reliable (read_frame stream) fuel taken s

  unfoldable pub read_stream_c_loop : (fuel taken : ℕ) → S → List StreamEvent × End
  unfolding read_loop_with
  read_stream_c_loop fuel taken s =
      read_loop_with StreamEvent.clipboard_meta (read_stream_c_frame stream) fuel taken s
