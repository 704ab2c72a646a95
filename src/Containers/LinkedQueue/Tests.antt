-- ===== src/Containers/LinkedQueue/Tests.antt =====
-- `threadsafe_queue_ht` with one producer and one consumer.
use boost_net_programing.Base.{put, ℕ, ◌≡◌, refl, List, [], ◌∷◌, arith, ok}
use boost_net_programing.Containers.LinkedQueue.{
  LinkedQueue, saw_empty, nobody, new_queue, Move, pushes, notifies, waits, sleeps, retests, pops,
  wait_for_data, run,
}
use boost_net_programing.Containers.LinkedQueue.Chain.{Holds}
use boost_net_programing.Containers.LinkedQueue.Fifo.{Goes, run-new_queue-Goes}
use boost_net_programing.Containers.LinkedQueue.LostNotice.{Stuck, push-notify-Stuck}

-- A consumer that falls asleep, a push that wakes it, and one after it.
abbrev moves : List (Move ℕ)
moves = waits ∷ sleeps ∷ pushes 5 ∷ notifies ∷ retests ∷ pushes 6 ∷ pops ∷ []

run-new_queue-Goes_example : Goes (run moves new_queue) (5 ∷ 6 ∷ [])
run-new_queue-Goes_example = run-new_queue-Goes moves

abbrev about_to_wait : LinkedQueue ℕ
about_to_wait = wait_for_data new_queue nobody

about_to_wait-Holds : Holds about_to_wait []
unfolding wait_for_data new_queue put
about_to_wait-Holds = record { chain = refl; last = refl; below = omega arith; seen = λ e. cc }

about_to_wait_empty : about_to_wait.holder ≡ saw_empty
unfolding wait_for_data new_queue
about_to_wait_empty = refl

about_to_wait_asleep : about_to_wait.asleep ≡ 0
unfolding wait_for_data new_queue
about_to_wait_asleep = refl

about_to_wait_woken : about_to_wait.woken ≡ 0
unfolding wait_for_data new_queue
about_to_wait_woken = refl

about_to_wait_notices : about_to_wait.notices ≡ 0
unfolding wait_for_data new_queue
about_to_wait_notices = refl

push-notify-Stuck_example :
    (w' : LinkedQueue ℕ) × (run (pushes 7 ∷ notifies ∷ sleeps ∷ []) about_to_wait ≡ ok w')
    × Stuck w' 7
push-notify-Stuck_example =
    push-notify-Stuck 7 about_to_wait about_to_wait-Holds about_to_wait_empty about_to_wait_asleep
      about_to_wait_woken about_to_wait_notices
