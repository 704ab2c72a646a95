-- ===== src/Containers/LockFreeStack/Turns.antt =====
-- The accesses of LockFreeStack.h that leave the list, and all of them together.
use boost_net_programing.Base.{
  ℕ, ◌+◌, ◌-◌, inl, inr, ◌≡◌, ◌≢◌, refl, Bool, ◌&&◌, not, Bool-cases, ◌==◌, Option, none, some,
  arith, put, Result, ok,
}
use boost_net_programing.Containers.LockFreeStack.{
  Node, After, delete_head, leave, Place, idle, links, entered, at_head, read_next, owns, alone,
  emptied, deletes, walks, splices, swaps, leaves, Stack, at_place, same, after, begin_push,
  begin_pop, Move, pushes, pops, goes_on, deref, leave_alone, delete_nodes, walk,
  chain_pending_nodes, go_on,
}
use boost_net_programing.Containers.LockFreeStack.Graph.{upd}
use boost_net_programing.Containers.LockFreeStack.Holds.{View}
use boost_net_programing.Containers.LockFreeStack.Steps.{Holds}
use boost_net_programing.Containers.LockFreeStack.PushPop.{Has-at, node_at}
use boost_net_programing.Containers.LockFreeStack.Atomic.{
  Atomic, wants, waits, asks, HandIs, Shows, Follows, Writes, shown, unseen,
}
use boost_net_programing.Containers.LockFreeStack.Lifo.{
  upd_self, upd_ne, hand_at, no_write, put_hand, put_list, begin_push-Follows, link_head-Follows,
  load_head-Follows, take_head-Follows, test_alone-Follows,
}

module _ {A : Type 0} (t : ℕ) (w : Stack A) (v : View A) (s : Atomic A) (h : Holds w v)
    (k : Shows w s) where
  deref-Follows :
      (m : Move A) (i : ℕ) (f : Node A → Result (Stack A))
      → v.own i ≢ 0
      → ((n : Node A) → w.heap i ≡ some n → Follows m s (f n))
      → Follows m s (deref (w.heap i) f)
  unfolding deref
  deref-Follows m i f d g = let (n, e) = node_at t w v h i d in rw e (g n e)

  -- An access of a thread without a value in its hand, which writes at most a node of its own.
  hidden :
      (m : Move A) (p p' : Place) (w' : Stack A)
      → w.place t ≡ p
      → (HandIs w.heap (s.hands t) p → HandIs w'.heap (s.hands t) p')
      → w'.place ≡ w.place
      → Writes t v w.heap w'.heap
      → w'.head ≡ w.head
      → w'.taken ≡ w.taken
      → Follows m s (ok (at_place t p' w'))
  hidden m p p' w' e f a b c d = unseen m t w w' v s h k p' a b c d (f (hand_at t w v s h k p e))

  leave_alone-Follows :
      (weak : Bool) (i : ℕ) (o : Option ℕ)
      → w.place t ≡ emptied i o
      → Follows (goes_on t weak) s (ok (leave_alone t i o w))
  unfolding leave_alone
  leave_alone-Follows weak i none e =
      hidden (goes_on t weak) (emptied i none) (deletes i none)
        (record w { threads_in_pop = w.threads_in_pop - 1 }) e (λ m. m) refl (no_write t w v s h k)
        refl refl
  leave_alone-Follows weak i (some a) e = elim (Bool-cases (w.threads_in_pop == 1)) [
    | inl y ↦ rw y (
        hidden (goes_on t weak) (emptied i (some a)) (deletes i (some a))
          (record w { threads_in_pop = w.threads_in_pop - 1 }) e (λ m. m) refl
          (no_write t w v s h k) refl refl)
    | inr y ↦ rw y (
        hidden (goes_on t weak) (emptied i (some a)) (walks i a a)
          (record w { threads_in_pop = w.threads_in_pop - 1 }) e (λ m. m) refl
          (no_write t w v s h k) refl refl)
  ]

  walk-Follows :
      (weak : Bool) (i a b : ℕ) (o : Option ℕ)
      → w.place t ≡ walks i a b
      → Follows (goes_on t weak) s (ok (walk t i a b o w))
  unfolding walk
  walk-Follows weak i a b none e =
      hidden (goes_on t weak) (walks i a b) (splices (delete_head i) a b) w e (λ m. m) refl
        (no_write t w v s h k) refl refl
  walk-Follows weak i a b (some j) e =
      hidden (goes_on t weak) (walks i a b) (walks i a j) w e (λ m. m) refl (no_write t w v s h k)
        refl refl

  after-Follows :
      (weak : Bool) (x : After) (a b : ℕ)
      → w.place t ≡ swaps x a b
      → Follows (goes_on t weak) s (ok (at_place t (after x) (record w { to_be_deleted = some a })))
  unfolding after
  after-Follows weak (delete_head i) a b e =
      hidden (goes_on t weak) (swaps (delete_head i) a b) (deletes i none)
        (record w { to_be_deleted = some a }) e (λ m. m) refl (no_write t w v s h k) refl refl
  after-Follows weak leave a b e =
      hidden (goes_on t weak) (swaps leave a b) leaves (record w { to_be_deleted = some a }) e
        (λ m. m) refl (no_write t w v s h k) refl refl

  chain_pending_nodes-Follows :
      (weak : Bool) (x : After) (a b : ℕ) (n : Node A)
      → w.place t ≡ swaps x a b
      → Follows (goes_on t weak) s (ok (chain_pending_nodes t weak x a b n w))
  unfolding chain_pending_nodes
  chain_pending_nodes-Follows weak x a b n e =
      elim (Bool-cases (same w.to_be_deleted n.next && not weak)) [
        | inl y ↦ rw y (after-Follows weak x a b e)
        | inr y ↦ rw y (
            hidden (goes_on t weak) (swaps x a b) (swaps x a b)
              (record w { heap = put b (some (record n { next = w.to_be_deleted })) w.heap }) e
              (λ m. m) refl
              (put_list t w v s h k b (some (record n { next = w.to_be_deleted }))
                ((Has-at t w v h (swaps x a b) e).1.1))
              refl refl)
      ]

  pub go_on-Follows :
      (weak : Bool) (p : Place) → w.place t ≡ p → Follows (goes_on t weak) s (go_on t weak p w)
  unfolding go_on delete_nodes
  go_on-Follows weak idle e = (w, s, refl, k, waits (goes_on t weak) s)
  go_on-Follows weak (links i) e =
      let o = (Has-at t w v h (links i) e).0 in
      deref-Follows (goes_on t weak) i _ (λ z. omega (arith, o, z))
        (λ n f. link_head-Follows t w v s h k weak i n e f)
  go_on-Follows weak entered e = load_head-Follows t w v s h k weak w.head refl e
  go_on-Follows weak (at_head i) e =
      deref-Follows (goes_on t weak) i _ (Has-at t w v h (at_head i) e) (λ n f.
        hidden (goes_on t weak) (at_head i) (read_next i n.next) w e (λ m. m) refl
          (no_write t w v s h k) refl refl)
  go_on-Follows weak (read_next i n) e = take_head-Follows t w v s h k weak i n e
  go_on-Follows weak (owns i) e =
      let o = (Has-at t w v h (owns i) e).0 in
      deref-Follows (goes_on t weak) i _ (λ z. omega (arith, o, z))
        (λ n f. test_alone-Follows t w v s h k weak i n e f)
  go_on-Follows weak (alone i) e =
      hidden (goes_on t weak) (alone i) (emptied i w.to_be_deleted)
        (record w { to_be_deleted = none }) e (λ m. m) refl (no_write t w v s h k) refl refl
  go_on-Follows weak (emptied i o) e = leave_alone-Follows weak i o e
  go_on-Follows weak (deletes i none) e =
      let o = (Has-at t w v h (deletes i none) e).0.0 in
      deref-Follows (goes_on t weak) i _ (λ z. omega (arith, o, z))
        (λ n f.
          hidden (goes_on t weak) (deletes i none) idle (record w { heap = put i none w.heap }) e
            (λ m. m) refl (put_hand t w v s h k i none o) refl refl)
  go_on-Follows weak (deletes i (some a)) e =
      let o = ((Has-at t w v h (deletes i (some a)) e).1 a refl).0 in
      deref-Follows (goes_on t weak) a _ (λ z. omega (arith, o, z))
        (λ n f.
          hidden (goes_on t weak) (deletes i (some a)) (deletes i n.next)
            (record w { heap = put a none w.heap }) e (λ m. m) refl (put_list t w v s h k a none o)
            refl refl)
  go_on-Follows weak (walks i a b) e =
      let o = (Has-at t w v h (walks i a b) e).2 in
      deref-Follows (goes_on t weak) b _ (λ z. omega (arith, o, z))
        (λ n f. walk-Follows weak i a b n.next e)
  go_on-Follows weak (splices x a b) e =
      let o = (Has-at t w v h (splices x a b) e).1.1 in
      deref-Follows (goes_on t weak) b _ (λ z. omega (arith, o, z))
        (λ n f.
          hidden (goes_on t weak) (splices x a b) (swaps x a b)
            (record w { heap = put b (some (record n { next = w.to_be_deleted })) w.heap }) e
            (λ m. m) refl (put_list t w v s h k b (some (record n { next = w.to_be_deleted })) o)
            refl refl)
  go_on-Follows weak (swaps x a b) e =
      let o = (Has-at t w v h (swaps x a b) e).1.1 in
      deref-Follows (goes_on t weak) b _ (λ z. omega (arith, o, z))
        (λ n f. chain_pending_nodes-Follows weak x a b n e)
  go_on-Follows weak leaves e =
      hidden (goes_on t weak) leaves idle (record w { threads_in_pop = w.threads_in_pop - 1 }) e
        (λ m. m) refl (no_write t w v s h k) refl refl

  pub pushes-Follows :
      (x : A) (i : ℕ) (p : Place) (c : Option (Node A))
      → w.place t ≡ p
      → w.heap i ≡ c
      → Follows (pushes t x i) s (ok (begin_push t x i p c w))
  unfolding begin_push
  pushes-Follows x i idle none e f = begin_push-Follows t w v s h k x i e f
  pushes-Follows x i idle (some n) e f = (w, s, refl, k, waits (pushes t x i) s)
  pushes-Follows x i (links _) c e f = (w, s, refl, k, waits (pushes t x i) s)
  pushes-Follows x i entered c e f = (w, s, refl, k, waits (pushes t x i) s)
  pushes-Follows x i (at_head _) c e f = (w, s, refl, k, waits (pushes t x i) s)
  pushes-Follows x i (read_next _ _) c e f = (w, s, refl, k, waits (pushes t x i) s)
  pushes-Follows x i (owns _) c e f = (w, s, refl, k, waits (pushes t x i) s)
  pushes-Follows x i (alone _) c e f = (w, s, refl, k, waits (pushes t x i) s)
  pushes-Follows x i (emptied _ _) c e f = (w, s, refl, k, waits (pushes t x i) s)
  pushes-Follows x i (deletes _ _) c e f = (w, s, refl, k, waits (pushes t x i) s)
  pushes-Follows x i (walks _ _ _) c e f = (w, s, refl, k, waits (pushes t x i) s)
  pushes-Follows x i (splices _ _ _) c e f = (w, s, refl, k, waits (pushes t x i) s)
  pushes-Follows x i (swaps _ _ _) c e f = (w, s, refl, k, waits (pushes t x i) s)
  pushes-Follows x i leaves c e f = (w, s, refl, k, waits (pushes t x i) s)

  pub pops-Follows : (p : Place) → w.place t ≡ p → Follows (pops t) s (ok (begin_pop t p w))
  unfolding begin_pop
  pops-Follows idle e =
      shown (pops t) t w (record w { threads_in_pop = w.threads_in_pop + 1 }) v s h k entered refl
        (no_write t w v s h k) (record s { hands = upd t wants s.hands }) (upd_ne t wants s.hands)
        k.spine (upd_self t wants s.hands) k.out_is (asks s t (hand_at t w v s h k idle e))
  pops-Follows (links _) e = (w, s, refl, k, waits (pops t) s)
  pops-Follows entered e = (w, s, refl, k, waits (pops t) s)
  pops-Follows (at_head _) e = (w, s, refl, k, waits (pops t) s)
  pops-Follows (read_next _ _) e = (w, s, refl, k, waits (pops t) s)
  pops-Follows (owns _) e = (w, s, refl, k, waits (pops t) s)
  pops-Follows (alone _) e = (w, s, refl, k, waits (pops t) s)
  pops-Follows (emptied _ _) e = (w, s, refl, k, waits (pops t) s)
  pops-Follows (deletes _ _) e = (w, s, refl, k, waits (pops t) s)
  pops-Follows (walks _ _ _) e = (w, s, refl, k, waits (pops t) s)
  pops-Follows (splices _ _ _) e = (w, s, refl, k, waits (pops t) s)
  pops-Follows (swaps _ _ _) e = (w, s, refl, k, waits (pops t) s)
  pops-Follows leaves e = (w, s, refl, k, waits (pops t) s)
