-- ===== src/Containers/CircularQue/Tests.antt =====
-- The theorems on circular queues at concrete inputs.
use boost_net_programing.Base.{ℕ, ◌≡◌, List, [], ◌∷◌, true, false, some, none}
use boost_net_programing.Containers.CircularQue.{CircularQue, returned, make}
use boost_net_programing.Containers.CircularQue.Fifo.{fifo_push, fifo_pop}
use boost_net_programing.Containers.CircularQue.Refine.{Holds}
use boost_net_programing.Containers.CircularQue.Runs.{
  Call, Answer, pushes, pops, pushed, popped, call_all, fifo_call, fifo_call_all, call_all-refines,
}

-- Round the end of an array of three cells.
abbrev calls : List (Call ℕ)
calls = pushes 5 ∷ pushes 6 ∷ pushes 7 ∷ pops ∷ pushes 8 ∷ pops ∷ pops ∷ pops ∷ []

abbrev answers : List (Answer ℕ)
answers =
    pushed true
    ∷ pushed true
    ∷ pushed false
    ∷ popped (some 5)
    ∷ pushed true
    ∷ popped (some 6)
    ∷ popped (some 8)
    ∷ popped none
    ∷ []

call_all-refines_example :
    (r : CircularQue ℕ) × (call_all calls (make 2) ≡ returned (r, answers)) × Holds r 2 []
unfolding fifo_call_all fifo_call fifo_push fifo_pop
call_all-refines_example = call_all-refines 2 calls
