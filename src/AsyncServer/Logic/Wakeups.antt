-- ===== src/AsyncServer/Logic/Wakeups.antt =====
-- Which wake-ups of the logic thread in Network/asyncServer/src/LogicSystem.cpp can be lost.
use boost_net_programing.Base.{
  ℕ, ◌<◌, ◌≡◌, refl, Bool, true, false, List, [], ◌∷◌, if◌then◌else◌, length, arith, length-append,
  ap, All,
}
use boost_net_programing.AsyncServer.Logic.{
  LogicNode, Place, unlocked, testing, going_to_sleep, asleep, finished, Logic, mutex_free, post,
  wake, notify, destroy, deal, drain, test_queue, work_at, work, Move, posts, notifies, destroys,
  works, wakes, step, run, start,
}

-- The worker sleeps, or is about to, over a queue that is not empty, only while a notice is due.
abbrev NoticeDue : Place → ℕ → ℕ → Type 0
NoticeDue asleep waiting notices = 0 < waiting → 0 < notices
NoticeDue going_to_sleep waiting notices = waiting ≡ 0
NoticeDue _ waiting notices = Unit

abbrev Inv : Logic → Type 0
Inv s = NoticeDue s.place (length s.que) s.notices

post-Inv : (n : LogicNode) (s : Logic) → Inv s → Inv (post n s)
unfolding post mutex_free
post-Inv n s v = ground (arith, length-append s.que (n ∷ []))

notify-Inv : (s : Logic) → Inv s → Inv (notify s)
unfolding notify wake
notify-Inv s v = ground arith

-- A worker that has drained the queue has returned.
drain-finished : (q : List LogicNode) (s : Logic) → (drain q s).place ≡ finished
unfolding drain
drain-finished [] s = refl
drain-finished (n ∷ q) s = drain-finished q (deal n q s)

drained : (t : Logic) → t.place ≡ finished → Inv t
drained t e = ground arith

either : (b : Bool) (s t : Logic) → Inv s → Inv t → Inv (if b then s else t)
either true s t v w = v
either false s t v w = w

test_queue-Inv : (q : List LogicNode) (s : Logic) → s.que ≡ q → Inv (test_queue q s)
unfolding test_queue deal
test_queue-Inv [] s e = either s.stop _ _ (drained (drain [] s) (drain-finished [] s)) (ap length e)
test_queue-Inv (n ∷ q) s e =
    either s.stop _ _ (drained (drain (n ∷ q) s) (drain-finished (n ∷ q) s)) tt

work_at-Inv : (p : Place) (s : Logic) → s.place ≡ p → Inv s → Inv (work_at p s)
unfolding work_at
work_at-Inv unlocked s e v = tt
work_at-Inv testing s e v = test_queue-Inv s.que s refl
work_at-Inv going_to_sleep s e v = ground arith
work_at-Inv asleep s e v = v
work_at-Inv finished s e v = v

step-Inv : (m : Move) (s : Logic) → Inv s → Inv (step m s)
unfolding step work destroy wake
step-Inv (posts n) s v = post-Inv n s v
step-Inv notifies s v = notify-Inv s v
step-Inv destroys s v = ground arith
step-Inv works s v = work_at-Inv s.place s refl v
step-Inv wakes s v = ground arith

run-Inv : (ms : List Move) (s : Logic) → Inv s → Inv (run ms s)
unfolding run
run-Inv [] s v = v
run-Inv (m ∷ ms) s v = run-Inv ms (step m s) (step-Inv m s v)

-- In every interleaving of posts, notices, spurious wake-ups, the destructor and the worker: if the worker sleeps and
-- no call of `notify_one` is due, the queue is empty. No posted node waits for a lost wake-up.
pub sleeps_when_empty :
    (ms : List Move)
    → (run ms start).place ≡ asleep
    → (run ms start).notices ≡ 0
    → (run ms start).que ≡ []
sleeps_when_empty ms p n = ground (arith, run-Inv ms start tt)

-- A move of the worker or a notice.
abbrev pub Inner : Move → Type 0
Inner works = Unit
Inner notifies = Unit
Inner _ = ⊥

stuck :
    (ms : List Move) (s : Logic)
    → All Inner ms
    → s.place ≡ asleep
    → s.notices ≡ 0
    → (run ms s).place ≡ asleep
unfolding run step work work_at notify
stuck [] s h p n = p
stuck (works ∷ ms) s h p n = stuck ms (work s) h.1 (ground arith) (ground arith)
stuck (notifies ∷ ms) s h p n = stuck ms (notify s) h.1 (ground arith) (ground arith)
stuck (posts m ∷ ms) s h p n = absurd h.0
stuck (destroys ∷ ms) s h p n = absurd h.0
stuck (wakes ∷ ms) s h p n = absurd h.0

-- The destructor takes no lock: if it sets `_b_stop` and notifies while the worker has found
-- nothing to do and is about to sleep, and no other notice is due, the worker falls asleep with
-- `_b_stop` set, and stays asleep whatever turns it gets, as long as no further node is posted and
-- no spurious wake-up comes.
pub stop_lost :
    (s : Logic) (ms : List Move)
    → s.place ≡ going_to_sleep
    → s.notices ≡ 0
    → All Inner ms
    → ((run (destroys ∷ notifies ∷ works ∷ ms) s).place ≡ asleep)
      × ((run (destroys ∷ notifies ∷ works ∷ []) s).stop ≡ true)
unfolding run step destroy notify work work_at
stop_lost s ms p n h =
    (stuck ms (work (notify (destroy s))) h (ground arith) (ground arith), ground arith)
