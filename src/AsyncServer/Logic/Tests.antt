-- ===== src/AsyncServer/Logic/Tests.antt =====
-- Runs of the logic queue of Network/asyncServer, and the theorems at concrete inputs.
use boost_net_programing.Base.{◌≡◌, refl, true, List, [], ◌∷◌, ◌++◌}
use boost_net_programing.AsyncServer.Logic.{
  LogicNode, going_to_sleep, asleep, finished, Logic, registered, mutex_free, post, wake, notify,
  destroy, deal, drain, test_queue, work_at, work, Move, posts, notifies, destroys, works, step,
  run, start,
}
use boost_net_programing.AsyncServer.Logic.Wakeups.{sleeps_when_empty, stop_lost}
use boost_net_programing.AsyncServer.Logic.Order.{all_handed, known, first_come_first_served}

-- Names all that a run computes with.
logic_code : Unit {0}
unfolding registered mutex_free post wake notify destroy deal drain test_queue work_at work step run
logic_code = tt

abbrev hello : LogicNode
hello = record { msg_id = 1001; msg_data = 104 ∷ [] }

abbrev other : LogicNode
other = record { msg_id = 7; msg_data = [] }

-- Two posts, and the worker until it sleeps.
abbrev until_asleep : List Move
until_asleep =
    works
    ∷ works
    ∷ works
    ∷ posts other
    ∷ notifies
    ∷ posts hello
    ∷ works
    ∷ works
    ∷ works
    ∷ works
    ∷ works
    ∷ works
    ∷ works
    ∷ []

until_asleep_runs :
    ((run until_asleep start).place ≡ asleep)
    × ((run until_asleep start).dealt ≡ other ∷ hello ∷ [])
    × ((run until_asleep start).calls ≡ hello ∷ [])
unfolding logic_code
until_asleep_runs = (refl, refl, refl)

-- A stop that the worker sees: it deals with what is left and returns.
stop_seen :
    ((run (posts hello ∷ destroys ∷ works ∷ works ∷ []) start).place ≡ finished)
    × ((run (posts hello ∷ destroys ∷ works ∷ works ∷ []) start).calls ≡ hello ∷ [])
unfolding logic_code
stop_seen = (refl, refl)

sleeps_when_empty_example : (run until_asleep start).que ≡ []
unfolding logic_code
sleeps_when_empty_example = sleeps_when_empty until_asleep refl refl

abbrev deciding : Logic
deciding = record start { place = going_to_sleep }

stop_lost_example :
    ((run (destroys ∷ notifies ∷ works ∷ works ∷ notifies ∷ []) deciding).place ≡ asleep)
    × ((run (destroys ∷ notifies ∷ works ∷ []) deciding).stop ≡ true)
stop_lost_example = stop_lost deciding (works ∷ notifies ∷ []) refl refl (tt, (tt, tt))

first_come_first_served_example :
    ((run until_asleep start).dealt ++ (run until_asleep start).que ≡ all_handed until_asleep start)
    × ((run until_asleep start).calls ≡ known (run until_asleep start).dealt)
first_come_first_served_example = first_come_first_served until_asleep
