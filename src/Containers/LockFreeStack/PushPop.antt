-- ===== src/Containers/LockFreeStack/PushPop.antt =====
-- `push` and `pop` of LockFreeStack.h up to `try_reclaim`, access by access.
use boost_net_programing.Base.{
  ℕ, ◌+◌, ◌≡◌, ◌≢◌, refl, sym, ap, subst, ◌∙◌, Bool, true, false, ◌&&◌, not, Bool-cases, inl, inr,
  ◌⊎◌, Option, none, some, ◌++◌, ◌==◌, eq_of_==, arith, put, ok,
}
use boost_net_programing.Containers.LockFreeStack.{
  Node, leave, Place, idle, links, entered, at_head, read_next, owns, alone, splices, leaves, Stack,
  move_to, at_place, same, begin_push, link_head, load_head, take_head, test_alone, got,
}
use boost_net_programing.Containers.LockFreeStack.Count.{in_pop}
use boost_net_programing.Containers.LockFreeStack.Graph.{stack_list, upd}
use boost_net_programing.Containers.LockFreeStack.Holds.{View, Reads, Has, Tight}
use boost_net_programing.Containers.LockFreeStack.Views.{
  new_view, write_view, take_view, push_view, pend_view,
}
use boost_net_programing.Containers.LockFreeStack.Shapes.{
  same-Frame, free-Lone, new_view-Shape, new_view-Frame, write_view-Shape, write_view-Frame,
  take_view-Shape, take_view-Frame, push_view-Shape, push_view-Frame,
}
use boost_net_programing.Containers.LockFreeStack.Pending.{pend_view-Shape, pend_view-Frame}
use boost_net_programing.Containers.LockFreeStack.Steps.{
  Holds, Goes, moved, free-Unread, alone-Unread, Unread-move_to,
}

pub same_eq : (a b : Option ℕ) → same a b ≡ true → a ≡ b
unfolding same
same_eq none none e = refl
same_eq none (some j) e = absurd (cc)
same_eq (some i) none e = absurd (cc)
same_eq (some i) (some j) e = ap some (eq_of_== i j e)

pub and_left : (a b : Bool) → a && b ≡ true → a ≡ true
and_left true b e = refl
and_left false b e = e

module _ {A : Type 0} (t : ℕ) (w : Stack A) (v : View A) (h : Holds w v) where
  pub Has-at : (q : Place) → w.place t ≡ q → Has v w.place t q
  Has-at q e = subst (λ p. Has v w.place t p) e (h.has t)

  pub Tight-at : (q : Place) → w.place t ≡ q → Tight v t q
  Tight-at q e = subst (λ p. Tight v t p) e (h.tight t)

  pub heap_at : (i : ℕ) → v.heap i ≡ w.heap i
  heap_at i = ap (λ g. g i) h.heap_is

  -- A node that somebody has.
  pub node_at : (i : ℕ) → v.own i ≢ 0 → (c : Node A) × (w.heap i ≡ some c)
  node_at i n = let (c, e) = h.shape.node i n in (c, sym (heap_at i) ∙ e)

  -- The owners and links stay, and so does the heap.
  pub only_moved :
      (p : Place) (n : ℕ)
      → ((i : ℕ) → Reads p i → (v.own i ≡ stack_list) ⊎ Reads (w.place t) i)
      → Has v (move_to t p w.place) t p
      → Tight v t p
      → n + in_pop (w.place t) ≡ w.threads_in_pop + in_pop p
      → Goes (ok (at_place t p (record w { threads_in_pop = n })))
  only_moved p n r m k c =
      moved t p w (record w { threads_in_pop = n }) v v h refl h.heap_is h.shape
        (same-Frame v h.shape t w.place) r m k c

  pub begin_push-Goes :
      (x : A) (i : ℕ)
      → w.place t ≡ idle
      → w.heap i ≡ none
      → Goes (ok (begin_push t x i idle none w))
  unfolding begin_push in_pop upd put
  begin_push-Goes x i e f =
      let c : Node A = record { data_of = some x; next = w.head } in
      let there = heap_at i ∙ f in
      let free = h.shape.gone i there in
      let k = Tight-at idle e in
      moved t (links i) w (record w { heap = put i (some c) w.heap }) v (new_view v t i c) h refl
        (ap (λ g. put i (some c) g) h.heap_is) (new_view-Shape v h.shape t w.place i c there)
        (new_view-Frame v h.shape t w.place i c there) (λ j r. absurd r)
        (
          grind arith,
          free-Lone v h.shape t w.place i free,
          Unread-move_to t (links i) w.place i (λ r. r) (free-Unread w v i h free),
        )
        (λ j d n o z. k j d n (grind arith) (grind arith)) (rw e (omega arith))

  pub link_head-Goes :
      (weak : Bool) (i : ℕ) (n : Node A)
      → w.place t ≡ links i
      → w.heap i ≡ some n
      → Goes (ok (link_head t weak i n w))
  unfolding link_head in_pop upd put
  link_head-Goes weak i n e f =
      let (o, l, u) = Has-at (links i) e in
      let k = Tight-at (links i) e in
      let z = heap_at i ∙ f in
      elim (Bool-cases (same w.head n.next && not weak)) [
        | inl b ↦
            let d = same_eq w.head n.next (and_left _ _ b) in
            rw b (
              moved t idle w (record w { head = some i }) v (push_view v w.head i) h refl h.heap_is
                (push_view-Shape v h.shape t w.place i o l (λ c g. grind (arith, d)))
                (push_view-Frame v h.shape t w.place i o u) (λ j r. absurd r) refl
                (λ j c m q g. grind (arith, k j c m)) (rw e (omega arith)))
        | inr b ↦
            let c : Node A = record n { next = w.head } in
            rw b (
              moved t (links i) w (record w { heap = put i (some c) w.heap }) v (write_view v i c) h
                refl (ap (λ g. put i (some c) g) h.heap_is)
                (write_view-Shape v h.shape t w.place i c (omega (arith, o)))
                (write_view-Frame v h.shape t w.place i c (omega (arith, o)) (λ x. x.1 o))
                (λ j r. absurd r) (o, l, Unread-move_to t (links i) w.place i (λ r. r) u)
                (λ j d m q g. k j d m q (grind arith)) (rw e (omega arith)))
      ]

  pub load_head-Goes :
      (o : Option ℕ) → w.head ≡ o → w.place t ≡ entered → Goes (ok (load_head t o w))
  unfolding load_head in_pop
  load_head-Goes none f e =
      only_moved leaves w.threads_in_pop (λ j r. absurd r) refl (Tight-at entered e) (rw e refl)
  load_head-Goes (some i) f e =
      let (o, b) = h.shape.head_first i f in
      only_moved (at_head i) w.threads_in_pop (λ j r. inl (sym (ap v.own r) ∙ o))
        (λ z. omega (arith, o, z)) (Tight-at entered e) (rw e refl)

  pub read-Goes :
      (i : ℕ) (n : Node A)
      → w.place t ≡ at_head i
      → w.heap i ≡ some n
      → Goes (ok (at_place t (read_next i n.next) w))
  unfolding in_pop
  read-Goes i n e f =
      only_moved (read_next i n.next) w.threads_in_pop
        (λ j r. inr (subst (λ q. Reads q j) (sym e) r))
        (Has-at (at_head i) e, λ c o g. grind (arith, heap_at i, f, g)) (Tight-at (at_head i) e)
        (rw e refl)

  pub take_head-Goes :
      (weak : Bool) (i : ℕ) (n : Option ℕ)
      → w.place t ≡ read_next i n
      → Goes (ok (take_head t weak i n w))
  unfolding take_head in_pop upd
  take_head-Goes weak i n e =
      let (o, m) = Has-at (read_next i n) e in
      let k = Tight-at (read_next i n) e in
      elim (Bool-cases (same w.head (some i) && not weak)) [
        | inl b ↦
            let d = same_eq w.head (some i) (and_left _ _ b) in
            let (x, y) = h.shape.head_first i d in
            let (c, g) = h.shape.node i o in
            let nxt = sym (h.shape.stack_links i c x g) ∙ m c x g in
            rw b (
              moved t (owns i) w (record w { head = n }) v (take_view v t i) h refl h.heap_is
                (take_view-Shape v h.shape t w.place i n d nxt)
                (take_view-Frame v h.shape t w.place i d) (λ j r. absurd r)
                (grind arith, (grind arith, λ j q. grind (arith, y j)))
                (λ j c r q g. grind (arith, k j c r)) (rw e refl))
        | inr b ↦ rw b (only_moved entered w.threads_in_pop (λ j r. absurd r) refl k (rw e refl))
      ]

  pub test_alone-Goes :
      (i : ℕ) (n : Node A) → w.place t ≡ owns i → w.heap i ≡ some n → Goes (ok (test_alone t i n w))
  unfolding test_alone in_pop upd put
  test_alone-Goes i n e f =
      let (o, l) = Has-at (owns i) e in
      let k = Tight-at (owns i) e in
      let c : Node A = record n { data_of = none } in
      let w' : Stack A = record w {
        heap = put i (some c) w.heap;
        taken = w.taken ++ got n.data_of;
      } in
      elim (Bool-cases (w.threads_in_pop == 1)) [
        | inl b ↦
            let only =
              alone-Unread w v t i h (eq_of_== w.threads_in_pop 1 b ∙ sym (rw e refl))
                (subst (λ q. Reads q i → ⊥) (sym e) (λ r. r)) in
            rw b (
              moved t (alone i) w w' v (write_view v i c) h refl
                (ap (λ g. put i (some c) g) h.heap_is)
                (write_view-Shape v h.shape t w.place i c (omega (arith, o)))
                (write_view-Frame v h.shape t w.place i c (omega (arith, o)) (λ x. x.1 o))
                (λ j r. absurd r) (o, l, Unread-move_to t (alone i) w.place i (λ r. r) only)
                (λ j d m q g. k j d m q (grind arith)) (rw e refl))
        | inr b ↦ rw b (
            moved t (splices leave i i) w w' v (pend_view v t i c) h refl
              (ap (λ g. put i (some c) g) h.heap_is) (pend_view-Shape v h.shape t w.place i c o l)
              (pend_view-Frame v h.shape t w.place i c o) (λ j r. absurd r)
              (refl, (λ j q. (grind arith, λ y z. grind (arith, l.1 y)), grind arith, l.0))
              (λ j d m q g. k j d (λ y. absurd (cc)) (grind arith) (grind arith)) (rw e refl))
      ]
