-- ===== src/Containers/SafeQueue/Tests.antt =====
-- `threadsafe_queue` with a consumer that falls asleep.
use boost_net_programing.Base.{ℕ, ◌≡◌, List, [], ◌∷◌, ◌++◌}
use boost_net_programing.Containers.SafeQueue.{
  Move, pushes, tries, waits, retests, run, empty_queue,
}
use boost_net_programing.Containers.SafeQueue.Served.{Served, run-empty_queue-Served}

-- One consumer sleeps, another takes its value, and a second value wakes it.
abbrev moves : List (Move ℕ)
moves = waits ∷ pushes 5 ∷ tries ∷ retests ∷ pushes 6 ∷ retests ∷ pushes 7 ∷ []

run-empty_queue-Served_example :
    Served (run moves empty_queue)
    × ((run moves empty_queue).taken ++ (run moves empty_queue).data_queue ≡ 5 ∷ 6 ∷ 7 ∷ [])
run-empty_queue-Served_example = run-empty_queue-Served moves
