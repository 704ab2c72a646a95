-- ===== src/Containers/LockFreeStack/Pending.antt =====
-- The list of nodes to be deleted of LockFreeStack.h: how nodes come to it and go from it.
use boost_net_programing.Base.{
  ℕ, ◌≤◌, ◌≡◌, ◌≢◌, refl, Bool-cases, inl, inr, Option, none, some, ◌==◌, arith, put,
}
use boost_net_programing.Containers.LockFreeStack.{Node, Place}
use boost_net_programing.Containers.LockFreeStack.Graph.{
  First, Lone, hand, list, stack_list, pending_list, upd, retag, retag-Graph, own-Graph, cut-Graph,
  link-Graph, First-agree,
}
use boost_net_programing.Containers.LockFreeStack.Views.{
  pend_view, exchange_view, chain_view, free_view,
}
use boost_net_programing.Containers.LockFreeStack.Holds.{View, Unread, Foreign, Frame}
use boost_net_programing.Containers.LockFreeStack.Shapes.{Shape}

module _ {A : Type 0} (v : View A) {head tbd : Option ℕ} (s : Shape v head tbd) (t : ℕ)
    (place : ℕ → Place) where
  pub pend_view-Shape :
      (h : ℕ) (c : Node A) → v.own h ≡ hand t → Lone v.nx h → Shape (pend_view v t h c) head tbd
  unfolding put upd
  pend_view-Shape h c e l = record {
    graph = own-Graph v.own v.nx h (list t) l s.graph;
    node = λ j n. elim (Bool-cases (j == h)) [
      | inl b ↦ (c, grind arith)
      | inr b ↦ let (d, g) = s.node j (grind arith) in (d, rw b g)
    ];
    gone = λ j f. grind arith;
    head_first =
        First-agree v.own _ v.nx v.nx stack_list head (λ k a. grind arith) (λ j k a b. b)
          s.head_first;
    pending_first =
        First-agree v.own _ v.nx v.nx pending_list tbd (λ k a. grind arith) (λ j k a b. b)
          s.pending_first;
    stack_links = λ j b o f. grind arith;
    pending_links = λ j b o f. grind arith;
  }

  pub pend_view-Frame :
      (h : ℕ) (c : Node A) → v.own h ≡ hand t → Frame t place v (pend_view v t h c)
  unfolding put upd
  pend_view-Frame h c e = record {
    keeps = λ j f. grind arith;
    adds = λ j f. grind arith;
    cells = λ j f. grind arith;
    targets = λ j f. grind arith;
    freed = λ j n b. grind arith;
    stacked = λ j b. grind arith;
  }

  pub exchange_view-Shape : Shape (exchange_view v t) head none
  unfolding retag
  exchange_view-Shape = record {
    graph = retag-Graph v.own v.nx pending_list (list t) (λ z. omega arith) s.graph;
    node = λ j n. s.node j (grind arith);
    gone = λ j f. grind arith;
    head_first =
        First-agree v.own _ v.nx v.nx stack_list head (λ k a. grind arith) (λ j k a b. b)
          s.head_first;
    pending_first = λ k e. absurd (cc);
    stack_links = λ j b o f. grind arith;
    pending_links = λ j b o f. grind arith;
  }

  pub exchange_view-Frame : Frame t place v (exchange_view v t)
  unfolding retag
  exchange_view-Frame = record {
    keeps = λ j f. grind arith;
    adds = λ j f. grind arith;
    cells = λ j f. grind arith;
    targets = λ j f. grind arith;
    freed = λ j n b. grind arith;
    stacked = λ j b. grind arith;
  }

  pub chain_view-Shape :
      (f l : ℕ)
      → First v.own v.nx (list t) (some f)
      → v.own l ≡ list t
      → v.nx l ≡ none
      → ((i : ℕ) (c : Node A) → i ≢ l → v.own i ≡ list t → v.heap i ≡ some c → c.next ≡ v.nx i)
      → ((c : Node A) → v.heap l ≡ some c → c.next ≡ tbd)
      → Shape (chain_view v t tbd l) head (some f)
  unfolding retag upd
  chain_view-Shape f l a e z m n =
      let own : ℕ → ℕ = retag (list t) pending_list v.own in
      let first =
        First-agree v.own own v.nx v.nx pending_list tbd (λ k a. grind arith) (λ j k a b. b)
          s.pending_first in
      let (x, y) = a f refl in
      record {
        graph =
            link-Graph own v.nx l pending_list tbd (grind arith) (λ z. omega arith) first
              (retag-Graph v.own v.nx (list t) pending_list (λ z. omega arith) s.graph);
        node = λ j n. s.node j (grind arith);
        gone = λ j f. grind arith;
        head_first =
            First-agree v.own _ v.nx _ stack_list head (λ k x. grind arith)
              (λ j k x y. elim (Bool-cases (j == l)) [
                | inl b ↦ grind (arith, b, s.pending_first k)
                | inr b ↦ grind (arith, b)
              ])
              s.head_first;
        pending_first = λ k b. (
          grind arith,
          λ i q. elim (Bool-cases (i == l)) [
            | inl c ↦ grind (arith, c, s.pending_first k)
            | inr c ↦ grind (arith, c, y i)
          ],
        );
        stack_links = λ j x o y. grind arith;
        pending_links = λ j c o q. elim (Bool-cases (j == l)) [
          | inl b ↦ grind (arith, b, n c)
          | inr b ↦ grind (arith, b, m j c)
        ];
      }

  pub chain_view-Frame : (l : ℕ) → v.own l ≡ list t → Frame t place v (chain_view v t tbd l)
  unfolding retag upd
  chain_view-Frame l e = record {
    keeps = λ j f. grind arith;
    adds = λ j f. grind arith;
    cells = λ j f. grind arith;
    targets = λ j f. grind arith;
    freed = λ j n b. grind arith;
    stacked = λ j b. grind arith;
  }

  pub free_view-Shape :
      (h : ℕ) → 3 ≤ v.own h → ((i : ℕ) → v.nx i ≢ some h) → Shape (free_view v h) head tbd
  unfolding put upd
  free_view-Shape h e b = record {
    graph =
        own-Graph v.own (upd h none v.nx) h 0 (grind arith, λ j z. grind (arith, b j))
          (cut-Graph v.own v.nx h s.graph);
    node = λ j m. let (d, g) = s.node j (grind arith) in (d, grind arith);
    gone = λ j f. grind arith;
    head_first =
        First-agree v.own _ v.nx _ stack_list head (λ k x. grind arith) (λ j k x y. grind arith)
          s.head_first;
    pending_first =
        First-agree v.own _ v.nx _ pending_list tbd (λ k x. grind arith) (λ j k x y. grind arith)
          s.pending_first;
    stack_links = λ j x o y. grind arith;
    pending_links = λ j x o y. grind arith;
  }

  pub free_view-Frame :
      (h : ℕ)
      → 3 ≤ v.own h
      → (Foreign t (v.own h) → ⊥)
      → Unread place h
      → Frame t place v (free_view v h)
  unfolding put upd
  free_view-Frame h e n u = record {
    keeps = λ j f. grind arith;
    adds = λ j f. grind arith;
    cells = λ j f. grind arith;
    targets = λ j f. grind arith;
    freed = λ j n b. grind arith;
    stacked = λ j b. grind arith;
  }
