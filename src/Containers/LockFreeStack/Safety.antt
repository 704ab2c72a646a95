-- ===== src/Containers/LockFreeStack/Safety.antt =====
-- No thread of LockFreeStack.h reads a node that was deleted.
use boost_net_programing.Base.{
  ℕ, ◌+◌, ◌-◌, ◌≤◌, inl, ◌≡◌, ◌≢◌, refl, subst, Bool, Option, none, some, List, [], ◌∷◌, arith,
  Result, ok,
}
use boost_net_programing.Containers.LockFreeStack.{
  Node, Place, idle, links, entered, at_head, read_next, owns, alone, emptied, deletes, walks,
  splices, swaps, leaves, Stack, new_stack, begin_push, begin_pop, deref, go_on, delete_nodes, Move,
  pushes, pops, goes_on, step, run,
}
use boost_net_programing.Containers.LockFreeStack.Count.{count, in_pop, in_pop_bound}
use boost_net_programing.Containers.LockFreeStack.Holds.{View}
use boost_net_programing.Containers.LockFreeStack.Steps.{Holds, Goes}
use boost_net_programing.Containers.LockFreeStack.PushPop.{
  Has-at, Tight-at, node_at, only_moved, begin_push-Goes, link_head-Goes, load_head-Goes, read-Goes,
  take_head-Goes, test_alone-Goes,
}
use boost_net_programing.Containers.LockFreeStack.Deletes.{
  exchange-Goes, leave_alone-Goes, delete_head-Goes, delete_node-Goes,
}
use boost_net_programing.Containers.LockFreeStack.Reclaim.{
  walk-Goes, splice-Goes, chain_pending_nodes-Goes,
}

module _ {A : Type 0} (t : ℕ) (w : Stack A) (v : View A) (h : Holds w v) where
  -- A node that somebody has is there.
  deref-Goes :
      (i : ℕ) (f : Node A → Result (Stack A))
      → v.own i ≢ 0
      → ((n : Node A) → w.heap i ≡ some n → Goes (f n))
      → Goes (deref (w.heap i) f)
  unfolding deref
  deref-Goes i f d g = let (n, e) = node_at t w v h i d in rw e (g n e)

  go_on-Goes : (weak : Bool) (p : Place) → w.place t ≡ p → Goes (go_on t weak p w)
  unfolding go_on delete_nodes in_pop
  go_on-Goes weak idle e = (w, v, refl, h)
  go_on-Goes weak (links i) e =
      let (o, m, u) = Has-at t w v h (links i) e in
      deref-Goes i _ (λ z. omega (arith, o, z)) (λ n f. link_head-Goes t w v h weak i n e f)
  go_on-Goes weak entered e = load_head-Goes t w v h w.head refl e
  go_on-Goes weak (at_head i) e =
      deref-Goes i _ (Has-at t w v h (at_head i) e) (λ n f. read-Goes t w v h i n e f)
  go_on-Goes weak (read_next i n) e = take_head-Goes t w v h weak i n e
  go_on-Goes weak (owns i) e =
      let (o, m) = Has-at t w v h (owns i) e in
      deref-Goes i _ (λ z. omega (arith, o, z)) (λ n f. test_alone-Goes t w v h i n e f)
  go_on-Goes weak (alone i) e = exchange-Goes t w v h i e
  go_on-Goes weak (emptied i o) e = leave_alone-Goes t w v h i o e
  go_on-Goes weak (deletes i none) e =
      let ((o, m, u), l, s) = Has-at t w v h (deletes i none) e in
      deref-Goes i _ (λ z. omega (arith, o, z)) (λ n f. delete_head-Goes t w v h i e)
  go_on-Goes weak (deletes i (some a)) e =
      let (m, l, s) = Has-at t w v h (deletes i (some a)) e in
      deref-Goes a _ (λ z. omega (arith, (l a refl).0, z))
        (λ n f. delete_node-Goes t w v h i a n e f)
  go_on-Goes weak (walks i a b) e =
      let (m, l, o) = Has-at t w v h (walks i a b) e in
      deref-Goes b _ (λ z. omega (arith, o, z)) (λ n f. walk-Goes t w v h i a b n n.next e f refl)
  go_on-Goes weak (splices x a b) e =
      let (m, (c, o, z)) = Has-at t w v h (splices x a b) e in
      deref-Goes b _ (λ z. omega (arith, o, z))
        (λ n f. splice-Goes t w v h x a b n (splices x a b) e (inl refl) f)
  go_on-Goes weak (swaps x a b) e =
      let (m, (c, o, z)) = Has-at t w v h (swaps x a b) e in
      deref-Goes b _ (λ z. omega (arith, o, z))
        (λ n f. chain_pending_nodes-Goes t w v h weak x a b n e f)
  go_on-Goes weak leaves e =
      let b =
        subst (λ q. in_pop q ≤ w.threads_in_pop) e
          (in_pop_bound w.place w.threads_in_pop t h.counts) in
      only_moved t w v h idle (w.threads_in_pop - 1) (λ j r. absurd r) refl
        (Tight-at t w v h leaves e) (rw e (omega (arith, b)))

  pushes-Goes :
      (x : A) (i : ℕ) (p : Place) (c : Option (Node A))
      → w.place t ≡ p
      → w.heap i ≡ c
      → Goes (ok (begin_push t x i p c w))
  unfolding begin_push
  pushes-Goes x i idle none e f = begin_push-Goes t w v h x i e f
  pushes-Goes x i idle (some n) e f = (w, v, refl, h)
  pushes-Goes x i (links _) c e f = (w, v, refl, h)
  pushes-Goes x i entered c e f = (w, v, refl, h)
  pushes-Goes x i (at_head _) c e f = (w, v, refl, h)
  pushes-Goes x i (read_next _ _) c e f = (w, v, refl, h)
  pushes-Goes x i (owns _) c e f = (w, v, refl, h)
  pushes-Goes x i (alone _) c e f = (w, v, refl, h)
  pushes-Goes x i (emptied _ _) c e f = (w, v, refl, h)
  pushes-Goes x i (deletes _ _) c e f = (w, v, refl, h)
  pushes-Goes x i (walks _ _ _) c e f = (w, v, refl, h)
  pushes-Goes x i (splices _ _ _) c e f = (w, v, refl, h)
  pushes-Goes x i (swaps _ _ _) c e f = (w, v, refl, h)
  pushes-Goes x i leaves c e f = (w, v, refl, h)

  pops-Goes : (p : Place) → w.place t ≡ p → Goes (ok (begin_pop t p w))
  unfolding begin_pop in_pop
  pops-Goes idle e =
      only_moved t w v h entered (w.threads_in_pop + 1) (λ j r. absurd r) refl
        (Tight-at t w v h idle e) (rw e (omega arith))
  pops-Goes (links _) e = (w, v, refl, h)
  pops-Goes entered e = (w, v, refl, h)
  pops-Goes (at_head _) e = (w, v, refl, h)
  pops-Goes (read_next _ _) e = (w, v, refl, h)
  pops-Goes (owns _) e = (w, v, refl, h)
  pops-Goes (alone _) e = (w, v, refl, h)
  pops-Goes (emptied _ _) e = (w, v, refl, h)
  pops-Goes (deletes _ _) e = (w, v, refl, h)
  pops-Goes (walks _ _ _) e = (w, v, refl, h)
  pops-Goes (splices _ _ _) e = (w, v, refl, h)
  pops-Goes (swaps _ _ _) e = (w, v, refl, h)
  pops-Goes leaves e = (w, v, refl, h)

module _ {A : Type 0} where
  pub step-Goes : (m : Move A) (w : Stack A) (v : View A) → Holds w v → Goes (step m w)
  unfolding step
  step-Goes (pushes t x i) w v h = pushes-Goes t w v h x i (w.place t) (w.heap i) refl refl
  step-Goes (pops t) w v h = pops-Goes t w v h (w.place t) refl
  step-Goes (goes_on t weak) w v h = go_on-Goes t w v h weak (w.place t) refl

  run-Goes : (ms : List (Move A)) (w : Stack A) (v : View A) → Holds w v → Goes (run ms w)
  unfolding run
  run-Goes [] w v h = (w, v, refl, h)
  run-Goes (m ∷ ms) w v h = let (w', v', e, h') = step-Goes m w v h in rw e (run-Goes ms w' v' h')

  pub new_stack-Holds :
      Holds {A = A} new_stack (record { heap = λ i. none; own = λ i. 0; nx = λ i. none })
  unfolding new_stack in_pop count
  new_stack-Holds = record {
    heap_is = refl;
    shape = record {
      graph = record {
        closed = λ i k e. refl;
        inj = λ i j k e f. absurd (cc);
        blank = λ i e. refl;
      };
      node = λ i n. absurd (n refl);
      gone = λ i e. refl;
      head_first = λ k e. absurd (cc);
      pending_first = λ k e. absurd (cc);
      stack_links = λ i c e f. absurd (cc);
      pending_links = λ i c e f. absurd (cc);
    };
    has = λ u. refl;
    tight = λ u i c n e f. absurd (cc);
    counts = (0, λ u l. refl, refl);
  }

  -- Whatever threads push and pop, however their accesses follow on each other, whatever memory that
  -- was given back is given out again, and whenever a weak exchange fails: no node is read, written or
  -- deleted after it was deleted, and no null pointer is dereferenced; every node on the stack and on
  -- the list of nodes to be deleted is there, and `threads_in_pop` is the number of threads in `pop`.
  pub run-new_stack-Goes : (ms : List (Move A)) → Goes (run ms new_stack)
  run-new_stack-Goes ms = run-Goes ms new_stack _ new_stack-Holds
