-- ===== src/Containers/LockFreeStack/Tests.antt =====
-- `lock_free_stack` with a node that a thread reads while another pops it.
use boost_net_programing.Base.{ℕ, false, true, List, [], ◌∷◌}
use boost_net_programing.Containers.LockFreeStack.{Move, pushes, pops, goes_on, new_stack, run}
use boost_net_programing.Containers.LockFreeStack.Steps.{Goes}
use boost_net_programing.Containers.LockFreeStack.Safety.{run-new_stack-Goes}
use boost_net_programing.Containers.LockFreeStack.Linear.{Linear, nothing, new_stack-Linear}

-- Thread 0 pushes 5 and 6; thread 1 loads the head and reads the link, thread 2 pops the node and has
-- to leave it to be deleted later, thread 1 fails and pops the other.
abbrev two_pops : List (Move ℕ)
two_pops =
    pushes 0 5 3
    ∷ goes_on 0 false
    ∷ pushes 0 6 4
    ∷ goes_on 0 true
    ∷ goes_on 0 false
    ∷ pops 1
    ∷ goes_on 1 false
    ∷ goes_on 1 false
    ∷ pops 2
    ∷ goes_on 2 false
    ∷ goes_on 2 false
    ∷ goes_on 2 false
    ∷ goes_on 2 false
    ∷ goes_on 2 false
    ∷ goes_on 2 false
    ∷ goes_on 2 false
    ∷ goes_on 1 false
    ∷ goes_on 1 false
    ∷ goes_on 1 false
    ∷ goes_on 1 false
    ∷ goes_on 1 false
    ∷ goes_on 1 false
    ∷ goes_on 1 false
    ∷ goes_on 1 false
    ∷ goes_on 1 false
    ∷ pushes 0 7 4
    ∷ []

run-new_stack-Goes_example : Goes (run two_pops new_stack)
run-new_stack-Goes_example = run-new_stack-Goes two_pops

new_stack-Linear_example : Linear two_pops new_stack nothing
new_stack-Linear_example = new_stack-Linear two_pops
