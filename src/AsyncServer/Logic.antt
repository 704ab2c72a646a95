-- ===== src/AsyncServer/Logic.antt =====
-- Network/asyncServer/inc/LogicSystem.h and src/LogicSystem.cpp: the queue between the network
-- threads and the logic thread. The `LogicNode`s are pointers, of which only the id is read here.
pub mod Wakeups
pub mod Order
mod Tests
use boost_net_programing.Base.{
  ℕ, ◌+◌, ◌-◌, Bool, true, false, List, [], ◌∷◌, ◌++◌, if◌then◌else◌, ◌==◌, length,
}

-- `LogicNode`, with the id and the data that it leads to.
pub record LogicNode : Type 0 where
  pub msg_id : ℕ
  pub msg_data : List ℕ

-- Where the worker stands in `DealMsg`: before it locks the mutex; holding it, before the test of
-- `wait`; behind a test that said to wait, before it sleeps; asleep; or returned.
pub data Place : Type 0 where
  unlocked testing going_to_sleep asleep finished : Place

-- `notices` are calls of `notify_one` that are still to be made, for the mutex is unlocked before
-- them. `dealt` holds the nodes popped, and `calls` those of them for which a callback ran.
pub record Logic : Type 0 where
  pub que : List LogicNode
  pub stop : Bool
  pub place : Place
  pub notices : ℕ
  pub dealt : List LogicNode
  pub calls : List LogicNode

-- `RegisterCallbacks`: MSG_HELLO_WORD is the one key.
unfoldable pub registered : ℕ → Bool
registered id = id == 1001

-- A network thread needs the mutex.
unfoldable pub mutex_free : Place → Bool
mutex_free testing = false
mutex_free going_to_sleep = false
mutex_free _ = true

-- `PostMsgToQue`, up to its call of `notify_one`.
unfoldable pub post : LogicNode → Logic → Logic
post n s =
    if mutex_free s.place
    then (record s {
      que = s.que ++ n ∷ [];
      notices = if length (s.que ++ n ∷ []) == 1 then s.notices + 1 else s.notices;
    })
    else s

unfoldable pub wake : Place → Place
wake asleep = unlocked
wake p = p

-- One `notify_one`, from `PostMsgToQue` or from the destructor.
unfoldable pub notify : Logic → Logic
unfolding wake
notify s =
    if s.notices == 0 then s else (record s { notices = s.notices - 1; place = wake s.place })

-- `~LogicSystem` up to its call of `notify_one`: it does not lock the mutex.
unfoldable pub destroy : Logic → Logic
destroy s = record s { stop = true; notices = s.notices + 1 }

-- A node at the front is popped, and its callback runs if there is one.
unfoldable pub deal : LogicNode → List LogicNode → Logic → Logic
unfolding registered
deal n q s = record s {
  que = q;
  dealt = s.dealt ++ n ∷ [];
  calls = if registered n.msg_id then s.calls ++ n ∷ [] else s.calls;
}

-- The loop behind `if (_b_stop)`.
unfoldable pub drain : List LogicNode → Logic → Logic
drain [] s = record s { que = []; place = finished }
drain (n ∷ q) s = drain q (deal n q s)

-- The round of the loop with the mutex held.
unfoldable pub test_queue : List LogicNode → Logic → Logic
test_queue [] s = if s.stop then drain [] s else (record s { place = going_to_sleep })
test_queue (n ∷ q) s = if s.stop then drain (n ∷ q) s else deal n q (record s { place = unlocked })

-- The worker's next move.
unfoldable pub work_at : Place → Logic → Logic
work_at unlocked s = record s { place = testing }
work_at testing s = test_queue s.que s
work_at going_to_sleep s = record s { place = asleep }
work_at _ s = s

unfoldable pub work : Logic → Logic
work s = work_at s.place s

-- `wakes` is a spurious wake-up, after which `wait` tests again.
pub data Move : Type 0 where
  posts : LogicNode → Move
  notifies destroys works wakes : Move

unfoldable pub step : Move → Logic → Logic
unfolding wake
step (posts n) s = post n s
step notifies s = notify s
step destroys s = destroy s
step works s = work s
step wakes s = record s { place = wake s.place }

unfoldable pub run : List Move → Logic → Logic
run [] s = s
run (m ∷ ms) s = run ms (step m s)

-- The constructor.
abbrev pub start : Logic
start = record { que = []; stop = false; place = unlocked; notices = 0; dealt = []; calls = [] }
