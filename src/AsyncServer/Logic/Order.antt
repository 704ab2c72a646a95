-- ===== src/AsyncServer/Logic/Order.antt =====
-- The order in which the logic thread of Network/asyncServer/src/LogicSystem.cpp deals with nodes.
use boost_net_programing.Base.{
  ◌+◌, ◌-◌, ◌≡◌, refl, sym, ap, ◌∙◌, Bool, true, false, List, [], ◌∷◌, ◌++◌, if◌then◌else◌, ◌==◌,
  append-nil, append_assoc, length,
}
use boost_net_programing.AsyncServer.Logic.{
  LogicNode, Place, unlocked, testing, going_to_sleep, Logic, registered, mutex_free, post, wake,
  notify, destroy, deal, drain, test_queue, work_at, work, Move, posts, notifies, destroys, works,
  wakes, step, run, start,
}

-- The nodes that a move hands over: a post is made only where the mutex is free.
abbrev pub handed : Move → Logic → List LogicNode
handed (posts n) s = if mutex_free s.place then n ∷ [] else []
handed _ s = []

abbrev pub all_handed : List Move → Logic → List LogicNode
all_handed [] s = []
all_handed (m ∷ ms) s = handed m s ++ all_handed ms (step m s)

abbrev pub known : List LogicNode → List LogicNode
known [] = []
known (n ∷ q) = if registered n.msg_id then n ∷ known q else known q

known-snoc :
    (q : List LogicNode) (n : LogicNode)
    → known (q ++ n ∷ []) ≡ (if registered n.msg_id then known q ++ n ∷ [] else known q)
known-snoc [] n = refl
known-snoc (m ∷ q) n = split (registered m.msg_id) (registered n.msg_id) (known-snoc q n)
  where
    split :
        (b c : Bool)
        → known (q ++ n ∷ []) ≡ (if c then known q ++ n ∷ [] else known q)
        → (if b then m ∷ known (q ++ n ∷ []) else known (q ++ n ∷ [])) ≡ (
            if c
            then (if b then m ∷ known q else known q) ++ n ∷ []
            else (if b then m ∷ known q else known q))
    split true true e = ap (λ l. m ∷ l) e
    split true false e = ap (λ l. m ∷ l) e
    split false true e = e
    split false false e = e

-- What was seen of `s` and of `more`, and the callbacks that ran.
abbrev Ordered : Logic → List LogicNode → Logic → Type 0
Ordered s more t = (t.dealt ++ t.que ≡ (s.dealt ++ s.que) ++ more) × (t.calls ≡ known t.dealt)

deal-Ordered :
    (n : LogicNode) (q : List LogicNode) (s : Logic)
    → s.que ≡ n ∷ q
    → s.calls ≡ known s.dealt
    → Ordered s [] (deal n q s)
unfolding deal
deal-Ordered n q s e c = (
  append_assoc s.dealt (n ∷ []) q
      ∙ ap (λ l. s.dealt ++ l) (sym e)
      ∙ sym (append-nil (s.dealt ++ s.que)),
  ap (λ l. if registered n.msg_id then l ++ n ∷ [] else l) c ∙ sym (known-snoc s.dealt n),
)

dealt_que : (n : LogicNode) (q : List LogicNode) (s : Logic) → (deal n q s).que ≡ q
unfolding deal
dealt_que n q s = refl

either :
    (b : Bool) (t u s : Logic) → Ordered s [] t → Ordered s [] u → Ordered s [] (if b then t else u)
either true t u s h k = h
either false t u s h k = k

drain-Ordered :
    (q : List LogicNode) (s : Logic)
    → s.que ≡ q
    → s.calls ≡ known s.dealt
    → Ordered s [] (drain q s)
unfolding drain
drain-Ordered [] s e c = (ap (λ l. s.dealt ++ l) (sym e) ∙ sym (append-nil (s.dealt ++ s.que)), c)
drain-Ordered (n ∷ q) s e c =
    let (d, k) = deal-Ordered n q s e c in
    let (d', k') = drain-Ordered q (deal n q s) (dealt_que n q s) k in
    (d' ∙ ap (λ l. l ++ []) (d ∙ append-nil (s.dealt ++ s.que)), k')

test_queue-Ordered :
    (q : List LogicNode) (s : Logic)
    → s.que ≡ q
    → s.calls ≡ known s.dealt
    → Ordered s [] (test_queue q s)
unfolding test_queue
test_queue-Ordered [] s e c =
    either s.stop (drain [] s) (record s { place = going_to_sleep }) s (drain-Ordered [] s e c)
      (sym (append-nil (s.dealt ++ s.que)), c)
test_queue-Ordered (n ∷ q) s e c =
    either s.stop (drain (n ∷ q) s) (deal n q (record s { place = unlocked })) s
      (drain-Ordered (n ∷ q) s e c) (deal-Ordered n q (record s { place = unlocked }) e c)

work_at-Ordered : (p : Place) (s : Logic) → s.calls ≡ known s.dealt → Ordered s [] (work_at p s)
unfolding work_at
work_at-Ordered testing s c = test_queue-Ordered s.que s refl c
work_at-Ordered _ s c = (sym (append-nil (s.dealt ++ s.que)), c)

step-Ordered : (m : Move) (s : Logic) → s.calls ≡ known s.dealt → Ordered s (handed m s) (step m s)
unfolding step post notify destroy work
step-Ordered (posts n) s c = posted (mutex_free s.place)
  where
    posted :
        (b : Bool)
        → Ordered s (if b then n ∷ [] else []) (
            if b
            then (record s {
              que = s.que ++ n ∷ [];
              notices = if length (s.que ++ n ∷ []) == 1 then s.notices + 1 else s.notices;
            })
            else s)
    posted true = (sym (append_assoc s.dealt s.que (n ∷ [])), c)
    posted false = (sym (append-nil (s.dealt ++ s.que)), c)
step-Ordered notifies s c =
    either (s.notices == 0) s (record s { notices = s.notices - 1; place = wake s.place }) s
      (sym (append-nil (s.dealt ++ s.que)), c) (sym (append-nil (s.dealt ++ s.que)), c)
step-Ordered destroys s c = (sym (append-nil (s.dealt ++ s.que)), c)
step-Ordered works s c = work_at-Ordered s.place s c
step-Ordered wakes s c = (sym (append-nil (s.dealt ++ s.que)), c)

run-Ordered :
    (ms : List Move) (s : Logic) → s.calls ≡ known s.dealt → Ordered s (all_handed ms s) (run ms s)
unfolding run
run-Ordered [] s c = (sym (append-nil (s.dealt ++ s.que)), c)
run-Ordered (m ∷ ms) s c =
    let (d, k) = step-Ordered m s c in
    let (d', k') = run-Ordered ms (step m s) k in
    (
      d'
          ∙ ap (λ l. l ++ all_handed ms (step m s)) d
          ∙ append_assoc (s.dealt ++ s.que) (handed m s) (all_handed ms (step m s)),
      k',
    )

-- In every interleaving, the nodes dealt with and those that wait are the nodes posted, in the
-- order of the posts, and the callbacks that ran are those of the nodes dealt with that have one.
pub first_come_first_served :
    (ms : List Move)
    → ((run ms start).dealt ++ (run ms start).que ≡ all_handed ms start)
      × ((run ms start).calls ≡ known (run ms start).dealt)
first_come_first_served ms = run-Ordered ms start refl
