-- ===== src/Tests/Streams.antt =====
-- A stream that is read in two goes.
use wirebone_cpp.Prelude.{ℕ, map, ◌≡◌, ◌++◌, ◌∷◌, [], true, List, codes, arith}
use wirebone_cpp.Http2.Drained.{deliver_all}
use wirebone_cpp.Http2.{Stream, new_stream, answered}
use wirebone_cpp.Http2.Delivery.{Event, reads, pushes, ends, deliver, pending, deliver_lem}

abbrev stream : Stream
stream = answered (codes "hello") true (new_stream 5)

abbrev run : List Event
run = reads 3 ∷ pushes (codes " map") ∷ reads 4 ∷ ends ∷ reads 100 ∷ []

deliver_lem_example : (deliver run stream).0 ++ pending (deliver run stream).1 ≡ codes "hello map"
deliver_lem_example = deliver_lem run stream (omega arith)

-- Enough reads after the push, the first of which takes two bytes.
abbrev further : List ℕ
further = 2 ∷ 1 ∷ 1 ∷ 1 ∷ 1 ∷ 1 ∷ 1 ∷ 1 ∷ 1 ∷ []

deliver_all_example :
    (deliver ((reads 3 ∷ pushes (codes " map") ∷ ends ∷ []) ++ map reads further) stream).0
    ≡ codes "hello map"
deliver_all_example =
    deliver_all (reads 3 ∷ pushes (codes " map") ∷ ends ∷ []) further stream (omega arith)
      (omega arith) (omega arith)
