-- ===== src/Containers/LockFreeStack/Linear.antt =====
-- `lock_free_stack` of LockFreeStack.h as a stack that each push and each pop changes at once.
use boost_net_programing.Base.{
  ℕ, ◌+◌, Option, none, some, put, put_self, ap, ◌≡◌, refl, sym, subst, ◌∙◌, List, [], ◌∷◌, ok,
}
use boost_net_programing.Containers.LockFreeStack.{
  Node, idle, links, entered, at_place, begin_push, begin_pop, Stack, new_stack, Move, pushes, pops,
  goes_on, step,
}
use boost_net_programing.Containers.LockFreeStack.Count.{move_to_self}
use boost_net_programing.Containers.LockFreeStack.Holds.{View}
use boost_net_programing.Containers.LockFreeStack.Steps.{Holds}
use boost_net_programing.Containers.LockFreeStack.Atomic.{
  Hand, empty, brings, wants, cell, HandIs, Atomic, Turn, Shows, Follows,
}
use boost_net_programing.Containers.LockFreeStack.Safety.{step-Goes, new_stack-Holds}
use boost_net_programing.Containers.LockFreeStack.Turns.{
  go_on-Follows, pushes-Follows, pops-Follows,
}

module _ {A : Type 0} where
  step-Follows :
      (m : Move A) (w : Stack A) (v : View A) (s : Atomic A)
      → Holds w v
      → Shows w s
      → Follows m s (step m w)
  unfolding step
  step-Follows (pushes t x i) w v s h k =
      pushes-Follows t w v s h k x i (w.place t) (w.heap i) refl refl
  step-Follows (pops t) w v s h k = pops-Follows t w v s h k (w.place t) refl
  step-Follows (goes_on t weak) w v s h k = go_on-Follows t w v s h k weak (w.place t) refl

  -- A thread that is in no call begins the one that the move has, a push if there is memory for it.
  abbrev pub Begins : Move A → Stack A → Atomic A → Type 0
  Begins (pushes t x i) w s' = w.place t ≡ idle → w.heap i ≡ none → s'.hands t ≡ brings x
  Begins (pops t) w s' = w.place t ≡ idle → s'.hands t ≡ wants
  Begins (goes_on t weak) w s' = Unit

  brings_value :
      (heap : ℕ → Option (Node A)) (o : Hand A) (x : A) (i : ℕ) (n : Option ℕ)
      → HandIs heap o (links i)
      → heap i ≡ some (cell x n)
      → o ≡ brings x
  brings_value heap o x i n (x', n', a, b) e =
      let stored : some (cell x n) ≡ some (cell x' n') = sym e ∙ b in
      let same_value : x' ≡ x = cc in a ∙ ap brings same_value

  step-Begins :
      (m : Move A) (w w' : Stack A) (s' : Atomic A) → step m w ≡ ok w' → Shows w' s' → Begins m w s'
  unfolding step begin_push begin_pop at_place
  step-Begins (pushes t x i) w w' s' e k = λ p q.
      let c : Node A = cell x w.head in
      let now : Stack A = at_place t (links i) (record w { heap = put i (some c) w.heap }) in
      let begun : ok now ≡ ok w' =
        subst (λ d. ok (begin_push t x i idle d w) ≡ ok w') q
          (subst (λ y. ok (begin_push t x i y (w.heap i) w) ≡ ok w') p e) in
      let same_end : w' ≡ now = cc in
      let k' : Shows now s' = subst (λ y. Shows y s') same_end k in
      brings_value now.heap (s'.hands t) x i w.head
        (subst (λ y. HandIs now.heap (s'.hands t) y) (move_to_self t (links i) w.place)
          (k'.in_hand t))
        (put_self i (some c) w.heap)
  step-Begins (pops t) w w' s' e k = λ p.
      let now : Stack A = at_place t entered (record w { threads_in_pop = w.threads_in_pop + 1 }) in
      let begun : ok now ≡ ok w' = subst (λ y. ok (begin_pop t y w) ≡ ok w') p e in
      let same_end : w' ≡ now = cc in
      let k' : Shows now s' = subst (λ y. Shows y s') same_end k in
      subst (λ y. HandIs now.heap (s'.hands t) y) (move_to_self t entered w.place) (k'.in_hand t)
  step-Begins (goes_on t weak) w w' s' e k = tt

  -- Each move of the run goes through and is a turn of the list that is shown before it and after it.
  abbrev pub Linear : List (Move A) → Stack A → Atomic A → Type 0
  Linear [] w s = Shows w s
  Linear (m ∷ ms) w s =
      Shows w s
      × ((w' : Stack A) × (s' : Atomic A) × (step m w ≡ ok w')
          × Turn m s s'
          × Begins m w s'
          × Linear ms w' s')

  run-Linear :
      (ms : List (Move A)) (w : Stack A) (v : View A) (s : Atomic A)
      → Holds w v
      → Shows w s
      → Linear ms w s
  run-Linear [] w v s h k = k
  run-Linear (m ∷ ms) w v s h k =
      let (w', v', e, h') = step-Goes m w v h in
      let (u, s', f, k', r) = step-Follows m w v s h k in
      let both : ok u ≡ ok w' = sym f ∙ e in
      let same_end : u ≡ w' = cc in
      let k'' = subst (λ y. Shows y s') same_end k' in
      (k, (w', s', e, r, step-Begins m w w' s' e k'', run-Linear ms w' v' s' h' k''))

  abbrev pub nothing : Atomic A
  nothing = record { stack = []; hands = λ t. empty; out = [] }

  -- Whatever threads push and pop, however their accesses follow on each other, and whatever weak
  -- exchanges fail, every move goes through, and is a turn of its thread on a list, which starts empty
  -- and before and after each move has the values of the nodes from the head on: a thread in no call
  -- begins the call that the move has, with its value (a push if there is memory for it); a call of
  -- push puts its value at the front at once before it returns, and a call of pop takes the front value
  -- off at once and returns it, or finds the list empty. The values returned are those taken off by the
  -- threads that return them, in the order of the returns.
  pub new_stack-Linear : (ms : List (Move A)) → Linear ms new_stack nothing
  unfolding new_stack
  new_stack-Linear ms =
      run-Linear ms new_stack _ nothing new_stack-Holds
        (record { spine = refl; in_hand = λ u. refl; out_is = refl })
