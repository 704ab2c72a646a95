-- ===== src/Containers/SafeStack/Tests.antt =====
-- `threadsafe_stack_waitable` with a consumer that falls asleep.
use mathlib.Core.List.{Perm}
use boost_net_programing.Base.{ℕ, List, [], ◌∷◌, ◌++◌}
use boost_net_programing.Containers.SafeStack.{
  Move, pushes, tries, waits, retests, run, empty_stack,
}
use boost_net_programing.Containers.SafeStack.Served.{Served, run-empty_stack-Served}

abbrev moves : List (Move ℕ)
moves = waits ∷ pushes 5 ∷ pushes 6 ∷ retests ∷ tries ∷ pushes 7 ∷ []

run-empty_stack-Served_example :
    Served (run moves empty_stack)
    × Perm ((run moves empty_stack).taken ++ (run moves empty_stack).items) (5 ∷ 6 ∷ 7 ∷ [])
run-empty_stack-Served_example = run-empty_stack-Served moves
