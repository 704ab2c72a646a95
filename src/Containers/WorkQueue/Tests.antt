-- ===== src/Containers/WorkQueue/Tests.antt =====
-- The `threadsafe_queue` of the thread pools with an owner, a thief and `Exit`.
use boost_net_programing.Base.{ℕ, false, List, [], ◌∷◌}
use boost_net_programing.Containers.WorkQueue.{
  Move, pushes, notifies, exits, waits, sleeps, retests, tries, pops, steals, new_queue, run,
}
use boost_net_programing.Containers.WorkQueue.Moves.{Goes, DoesAll}
use boost_net_programing.Containers.WorkQueue.Refine.{run-new_queue-DoesAll}

-- An owner that sleeps, three values, one stolen, one popped, then `Exit`.
abbrev moves : List (Move ℕ)
moves =
    waits
    ∷ sleeps
    ∷ pushes 5
    ∷ notifies
    ∷ pushes 6
    ∷ pushes 7
    ∷ steals
    ∷ retests
    ∷ pops
    ∷ pops
    ∷ exits
    ∷ steals
    ∷ tries
    ∷ []

run-new_queue-DoesAll_example : Goes (DoesAll moves [] []) (run moves (new_queue false))
run-new_queue-DoesAll_example = run-new_queue-DoesAll false moves
