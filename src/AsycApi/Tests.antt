-- ===== src/AsycApi/Tests.antt =====
-- The session of Network/asycApi at concrete events.
use boost_net_programing.Base.{some, ℕ, suc, ap, length, ◌≡◌, refl, true, List, [], ◌∷◌, ok, arith}
use boost_net_programing.AsycApi.Node.{copy_node}
use boost_net_programing.AsycApi.Writes
use boost_net_programing.AsycApi.Writes.{
  Writes, idle, asks, asks_all, completes, fails, write_all_callback,
}
use boost_net_programing.AsycApi.Writes.Garbled.{Keeps, run-idle-Keeps}
use boost_net_programing.AsycApi.Writes.Failure.{run-fails}
use boost_net_programing.AsycApi.LastNode
use boost_net_programing.AsycApi.LastNode.{nothing_sent}
use boost_net_programing.AsycApi.LastNode.Single.{Sends, run-single}
use boost_net_programing.AsycApi.LastNode.Overlap.{run-overlap}
use boost_net_programing.AsycApi.Reads
use boost_net_programing.AsycApi.Reads.{not_reading, reads_some, reads_all, brings}
use boost_net_programing.AsycApi.Reads.Bounds.{ReadsValid, run-not_reading-ReadsValid}

-- Freed memory that was overwritten with zeros.
abbrev zeros : List ℕ → List ℕ
zeros [] = []
zeros (x ∷ l) = 0 ∷ zeros l

length-zeros : (l : List ℕ) → length (zeros l) ≡ length l
length-zeros [] = refl
length-zeros (x ∷ l) = ap suc (length-zeros l)

-- Two messages, the first written in two parts.
abbrev traffic : List Writes.Event
traffic = asks (1 ∷ 2 ∷ 3 ∷ []) ∷ completes 2 ∷ asks (4 ∷ []) ∷ completes 5 ∷ []

run-idle-Keeps_example :
    Keeps zeros ((1 ∷ 2 ∷ 3 ∷ []) ∷ (4 ∷ []) ∷ []) (Writes.run zeros traffic idle)
run-idle-Keeps_example = run-idle-Keeps zeros length-zeros traffic (tt, (tt, (tt, (tt, tt))))

-- An operation of `WriteAllToSocket` under way.
abbrev writing : Writes
writing = record {
  send_queue = copy_node (1 ∷ 2 ∷ []) ∷ [];
  send_pending = true;
  ops = (write_all_callback, 1 ∷ 2 ∷ []) ∷ [];
  wire = [];
}

run-fails_example :
    Writes.run zeros (fails ∷ asks (7 ∷ []) ∷ completes 1 ∷ asks_all (8 ∷ []) ∷ []) writing
    ≡ ok (record writing {
      send_queue = copy_node (1 ∷ 2 ∷ []) ∷ copy_node (7 ∷ []) ∷ copy_node (8 ∷ []) ∷ [];
      ops = [];
    })
run-fails_example =
    run-fails zeros (asks (7 ∷ []) ∷ completes 1 ∷ asks_all (8 ∷ []) ∷ []) writing
      write_all_callback (1 ∷ 2 ∷ []) refl refl

run-not_reading-ReadsValid_example :
    ReadsValid
      (Reads.run (reads_some ∷ brings (8 ∷ 9 ∷ []) ∷ reads_all ∷ brings [] ∷ []) not_reading)
run-not_reading-ReadsValid_example =
    run-not_reading-ReadsValid (reads_some ∷ brings (8 ∷ 9 ∷ []) ∷ reads_all ∷ brings [] ∷ [])

run-single_example : Sends (1 ∷ 2 ∷ 3 ∷ []) (
    LastNode.run
      (LastNode.asks (1 ∷ 2 ∷ 3 ∷ []) ∷ LastNode.completes 2 ∷ LastNode.completes 5 ∷ [])
      nothing_sent)
run-single_example = run-single (1 ∷ 2 ∷ 3 ∷ []) (2 ∷ 5 ∷ [])

run-overlap_example :
    LastNode.run
      (LastNode.asks (1 ∷ 2 ∷ 3 ∷ []) ∷ LastNode.asks (4 ∷ 5 ∷ []) ∷ LastNode.completes 1 ∷ [])
      nothing_sent
    ≡ ok (record {
      nodes = copy_node (1 ∷ 2 ∷ 3 ∷ []) ∷ record (copy_node (4 ∷ 5 ∷ [])) { cur_len = 1 } ∷ [];
      send_node = some 1;
      ops = (1, 4 ∷ 5 ∷ []) ∷ (1, 5 ∷ []) ∷ [];
      wire = 1 ∷ [];
    })
run-overlap_example = run-overlap (1 ∷ 2 ∷ 3 ∷ []) (4 ∷ 5 ∷ []) 1 (omega arith) (omega arith)
