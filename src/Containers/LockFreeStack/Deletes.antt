-- ===== src/Containers/LockFreeStack/Deletes.antt =====
-- `try_reclaim` of LockFreeStack.h up to the end of `delete_nodes`, access by access.
use boost_net_programing.Base.{
  ℕ, ◌-◌, ◌≤◌, ◌≡◌, refl, sym, ap, subst, ◌∙◌, Bool-cases, inl, inr, Option, none, some, ◌==◌,
  eq_of_==, arith, put, ok,
}
use boost_net_programing.Containers.LockFreeStack.{
  Node, After, delete_head, leave, Place, idle, alone, emptied, deletes, walks, Stack, move_to,
  at_place, leave_alone,
}
use boost_net_programing.Containers.LockFreeStack.Count.{in_pop, in_pop_bound}
use boost_net_programing.Containers.LockFreeStack.Graph.{list, upd, retag}
use boost_net_programing.Containers.LockFreeStack.Holds.{View, Reads, Unread, Mine, AfterIs}
use boost_net_programing.Containers.LockFreeStack.Views.{exchange_view, free_view}
use boost_net_programing.Containers.LockFreeStack.Pending.{
  exchange_view-Shape, exchange_view-Frame, free_view-Shape, free_view-Frame,
}
use boost_net_programing.Containers.LockFreeStack.Steps.{
  Holds, Goes, moved, alone-Unread, Unread-move_to,
}
use boost_net_programing.Containers.LockFreeStack.PushPop.{Has-at, Tight-at, heap_at, only_moved}

module _ {A : Type 0} (t : ℕ) (w : Stack A) (v : View A) (h : Holds w v) where
  -- The thread keeps the node in its hand.
  pub still_Mine :
      (p : Place) (i : ℕ) → (Reads p i → ⊥) → Mine v w.place t i → Mine v (move_to t p w.place) t i
  still_Mine p i n (o, l, u) = (o, l, Unread-move_to t p w.place i n u)

  pub still-AfterIs :
      (p : Place) (a : After)
      → ((i : ℕ) → Reads p i → ⊥)
      → AfterIs v w.place t a
      → AfterIs v (move_to t p w.place) t a
  still-AfterIs p (delete_head i) n m = still_Mine p i (n i) m
  still-AfterIs p leave n m = m

  pub exchange-Goes :
      (i : ℕ)
      → w.place t ≡ alone i
      → Goes (ok (at_place t (emptied i w.to_be_deleted) (record w { to_be_deleted = none })))
  unfolding in_pop retag
  exchange-Goes i e =
      let (o, l, u) = Has-at t w v h (alone i) e in
      let k = Tight-at t w v h (alone i) e in
      let s = h.shape in
      let p = emptied i w.to_be_deleted in
      moved t p w (record w { to_be_deleted = none }) v (exchange_view v t) h refl h.heap_is
        (exchange_view-Shape v s t w.place) (exchange_view-Frame v s t w.place) (λ j r. absurd r)
        (
          (grind arith, l, Unread-move_to t p w.place i (λ r. r) u),
          λ j z. let (x, y) = s.pending_first j z in (grind arith, y),
        )
        (λ j c r q g. elim (Bool-cases (v.own j == 2)) [
          | inl b ↦ s.pending_links j c (eq_of_== (v.own j) 2 b) g
          | inr b ↦ k j c r (grind (arith, b)) g
        ])
        (rw e refl)

  pub leave_alone-Goes :
      (i : ℕ) (o : Option ℕ) → w.place t ≡ emptied i o → Goes (ok (leave_alone t i o w))
  unfolding leave_alone in_pop
  leave_alone-Goes i none e =
      let (m, f) = Has-at t w v h (emptied i none) e in
      let p = deletes i none in
      let b = in_pop_bound w.place w.threads_in_pop t h.counts in
      only_moved t w v h p (w.threads_in_pop - 1) (λ j r. absurd r)
        (still_Mine p i (λ r. r) m, f, λ k j z. absurd (cc)) (Tight-at t w v h (emptied i none) e)
        (let c = subst (λ q. in_pop q ≤ w.threads_in_pop) e b in rw e (omega (arith, c)))
  leave_alone-Goes i (some a) e =
      let (m, f) = Has-at t w v h (emptied i (some a)) e in
      let k = Tight-at t w v h (emptied i (some a)) e in
      let b = in_pop_bound w.place w.threads_in_pop t h.counts in
      let c = subst (λ q. in_pop q ≤ w.threads_in_pop) e b in
      elim (Bool-cases (w.threads_in_pop == 1)) [
        | inl x ↦
            let p = deletes i (some a) in
            rw x (
              only_moved t w v h p (w.threads_in_pop - 1) (λ j r. absurd r)
                (
                  still_Mine p i (λ r. r) m,
                  f,
                  λ z j y q.
                      Unread-move_to t p w.place j (λ r. r)
                        (alone-Unread w v t j h (eq_of_== w.threads_in_pop 1 x ∙ sym (rw e refl))
                          (subst (λ q. Reads q j → ⊥) (sym e) (λ r. r))),
                )
                k (rw e (omega (arith, c))))
        | inr x ↦
            let p = walks i a a in
            rw x (
              only_moved t w v h p (w.threads_in_pop - 1) (λ j r. absurd r)
                (still_Mine p i (λ r. r) m, f, (f a refl).0) k (rw e (omega (arith, c))))
      ]

  pub delete_head-Goes :
      (i : ℕ)
      → w.place t ≡ deletes i none
      → Goes (ok (at_place t idle (record w { heap = put i none w.heap })))
  unfolding in_pop upd put
  delete_head-Goes i e =
      let ((o, l, u), m, r) = Has-at t w v h (deletes i none) e in
      let k = Tight-at t w v h (deletes i none) e in
      moved t idle w (record w { heap = put i none w.heap }) v (free_view v i) h refl
        (ap (λ g. put i none g) h.heap_is)
        (free_view-Shape v h.shape t w.place i (omega (arith, o)) l.1)
        (free_view-Frame v h.shape t w.place i (omega (arith, o)) (λ x. x.1 o) u) (λ j r. absurd r)
        refl (λ j d r q g. grind (arith, k j d r, o)) (rw e refl)

  pub delete_node-Goes :
      (i a : ℕ) (n : Node A)
      → w.place t ≡ deletes i (some a)
      → w.heap a ≡ some n
      → Goes (ok (at_place t (deletes i n.next) (record w { heap = put a none w.heap })))
  unfolding in_pop upd put
  delete_node-Goes i a n e f =
      let ((o, l, u), m, s) = Has-at t w v h (deletes i (some a)) e in
      let k = Tight-at t w v h (deletes i (some a)) e in
      let (x, y) = m a refl in
      let p = deletes i n.next in
      let g = h.shape.graph in
      let nxt = k a n (λ z. cc) x (heap_at t w v h a ∙ f) in
      let unread : (j : ℕ) → v.own j ≡ list t → Unread w.place j = λ j b. s a j refl b in
      moved t p w (record w { heap = put a none w.heap }) v (free_view v a) h refl
        (ap (λ g. put a none g) h.heap_is)
        (free_view-Shape v h.shape t w.place a (omega (arith, x)) y)
        (free_view-Frame v h.shape t w.place a (omega (arith, x)) (λ z. z.2 x) (unread a x))
        (λ j r. absurd r)
        (
          (
            grind arith,
            (grind arith, λ j z. grind (arith, l.1 j)),
            Unread-move_to t p w.place i (λ r. r) u,
          ),
          (λ j z. (grind (arith, g.closed a j, y a), λ b c. grind (arith, g.inj a b j))),
          λ b j z q. Unread-move_to t p w.place j (λ r. r) (unread j (grind arith)),
        )
        (λ j d r q z. grind (arith, k j d r)) (rw e refl)
