-- ===== src/Examples/LoopbackRuns.antt =====
-- The loopback fingerprints: two marks, a question, and the time running out.
use lan_mouse_pro.Common.{◌≤◌, ◌≡◌, arith, true, List, [], ◌∷◌, length}
use lan_mouse_pro.Loopback.{
  new_fingerprints, contains_fp, mark_local_write, LoopbackCall, loopback_calls,
}
use lan_mouse_pro.Loopback.Retention.{mark_local_write-contains, loopback_calls-bounded}

abbrev some_calls : List LoopbackCall
some_calls = LoopbackCall.mark 5 (8 ∷ []) ∷ LoopbackCall.ask 20 (9 ∷ []) ∷ []

mark_local_write-contains_example :
    (contains_fp 59
      (7 ∷ [])
      (loopback_calls some_calls (mark_local_write 0 (7 ∷ []) new_fingerprints))).1
    ≡ true
unfolding new_fingerprints
mark_local_write-contains_example =
    mark_local_write-contains 0 59 (7 ∷ []) some_calls new_fingerprints (omega arith, tt)
      (omega arith) (omega arith)

loopback_calls-bounded_example : length (loopback_calls some_calls new_fingerprints).items ≤ 128
unfolding new_fingerprints
loopback_calls-bounded_example =
    loopback_calls-bounded some_calls new_fingerprints (omega arith) (omega arith)
