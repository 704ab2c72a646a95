-- ===== src/Containers/SinglePopPush/Tests.antt =====
-- `SinglePopPush` with a pop between the accesses of a push.
use boost_net_programing.Base.{ℕ, List, [], ◌∷◌}
use boost_net_programing.Containers.SinglePopPush.{Move, begins, goes_on, pops, new_queue, run}
use boost_net_programing.Containers.SinglePopPush.Holds.{Goes}
use boost_net_programing.Containers.SinglePopPush.Fifo.{run-new_queue-Holds}

abbrev turns : List (Move ℕ)
turns =
    begins 4
    ∷ goes_on
    ∷ goes_on
    ∷ pops
    ∷ goes_on
    ∷ pops
    ∷ goes_on
    ∷ pops
    ∷ pops
    ∷ pops
    ∷ begins 5
    ∷ pops
    ∷ goes_on
    ∷ []

run-new_queue-Holds_example : Goes (run turns new_queue)
run-new_queue-Holds_example = run-new_queue-Holds turns
