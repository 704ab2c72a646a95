-- ===== src/Containers/LockFreeStack/Shapes.antt =====
-- How the accesses of LockFreeStack.h change who has the nodes.
use boost_net_programing.Base.{
  ℕ, ◌≤◌, ◌≡◌, ◌≢◌, refl, Bool-cases, inl, inr, Option, none, some, ◌==◌, arith, put,
}
use boost_net_programing.Containers.LockFreeStack.{Node, Place}
use boost_net_programing.Containers.LockFreeStack.Graph.{
  Graph, First, Lone, hand, stack_list, pending_list, upd, own-Graph, cut-Graph, link-Graph,
  First-agree,
}
use boost_net_programing.Containers.LockFreeStack.Views.{new_view, write_view, take_view, push_view}
use boost_net_programing.Containers.LockFreeStack.Holds.{View, Matches, Unread, Foreign, Frame}

module _ {A : Type 0} where
  pub record Shape (v : View A) (head tbd : Option ℕ) : Type 0 where
    pub graph : Graph v.own v.nx
    pub node : (i : ℕ) → v.own i ≢ 0 → (c : Node A) × (v.heap i ≡ some c)
    pub gone : (i : ℕ) → v.heap i ≡ none → v.own i ≡ 0
    pub head_first : First v.own v.nx stack_list head
    pub pending_first : First v.own v.nx pending_list tbd
    pub stack_links : Matches v stack_list
    pub pending_links : Matches v pending_list

  module _ (v : View A) {head tbd : Option ℕ} (s : Shape v head tbd) (t : ℕ)
      (place : ℕ → Place) where
    pub same-Frame : Frame t place v v
    same-Frame = record {
      keeps = λ i f. refl;
      adds = λ i f. refl;
      cells = λ i f. refl;
      targets = λ i f. refl;
      freed = λ i n z. absurd (n z);
      stacked = λ i e. inl (e, refl);
    }

    pub free-Lone : (i : ℕ) → v.own i ≡ 0 → Lone v.nx i
    free-Lone i e = (s.graph.blank i e, λ j z. grind arith)

    pub new_view-Shape : (i : ℕ) (c : Node A) → v.heap i ≡ none → Shape (new_view v t i c) head tbd
    unfolding put upd
    new_view-Shape i c e =
        let z = s.gone i e in
        record {
          graph = own-Graph v.own v.nx i (hand t) (free-Lone i z) s.graph;
          node = λ j n. elim (Bool-cases (j == i)) [
            | inl b ↦ (c, grind arith)
            | inr b ↦ let (d, g) = s.node j (grind arith) in (d, rw b g)
          ];
          gone = λ j f. grind arith;
          head_first =
              First-agree v.own _ v.nx v.nx stack_list head (λ k a. grind arith) (λ j k a b. b)
                s.head_first;
          pending_first =
              First-agree v.own _ v.nx v.nx pending_list tbd (λ k a. grind arith) (λ j k a b. b)
                s.pending_first;
          stack_links = λ j b o f. grind arith;
          pending_links = λ j b o f. grind arith;
        }

    pub new_view-Frame : (i : ℕ) (c : Node A) → v.heap i ≡ none → Frame t place v (new_view v t i c)
    unfolding put upd
    new_view-Frame i c e =
        let z = s.gone i e in
        record {
          keeps = λ j f. grind arith;
          adds = λ j f. grind arith;
          cells = λ j f. grind arith;
          targets = λ j f. grind arith;
          freed = λ j n b. grind arith;
          stacked = λ j b. grind arith;
        }

    pub write_view-Shape : (i : ℕ) (c : Node A) → 3 ≤ v.own i → Shape (write_view v i c) head tbd
    unfolding put
    write_view-Shape i c e = record {
      graph = s.graph;
      node = λ j n. elim (Bool-cases (j == i)) [
        | inl b ↦ (c, grind arith)
        | inr b ↦ let (d, g) = s.node j (grind arith) in (d, rw b g)
      ];
      gone = λ j f. grind arith;
      head_first = s.head_first;
      pending_first = s.pending_first;
      stack_links = λ j b o f. grind arith;
      pending_links = λ j b o f. grind arith;
    }

    pub write_view-Frame :
        (i : ℕ) (c : Node A)
        → 3 ≤ v.own i
        → (Foreign t (v.own i) → ⊥)
        → Frame t place v (write_view v i c)
    unfolding put
    write_view-Frame i c e n = record {
      keeps = λ j f. grind arith;
      adds = λ j f. grind arith;
      cells = λ j f. grind arith;
      targets = λ j f. grind arith;
      freed = λ j n b. grind arith;
      stacked = λ j b. grind arith;
    }

    pub take_view-Shape :
        (h : ℕ) (n : Option ℕ) → head ≡ some h → v.nx h ≡ n → Shape (take_view v t h) n tbd
    unfolding upd
    take_view-Shape h n e f =
        let (a, b) = s.head_first h e in
        record {
          graph =
              own-Graph v.own (upd h none v.nx) h (hand t) (grind arith, λ j z. grind (arith, b j))
                (cut-Graph v.own v.nx h s.graph);
          node = λ j m. s.node j (grind arith);
          gone = λ j f. grind arith;
          head_first = λ k y.
              (grind (arith, b h, s.graph.closed h k), λ i z. grind (arith, s.graph.inj i h k));
          pending_first =
              First-agree v.own _ v.nx _ pending_list tbd (λ k x. grind arith)
                (λ j k x y. grind arith) s.pending_first;
          stack_links = λ j x o y. grind arith;
          pending_links = λ j x o y. grind arith;
        }

    pub take_view-Frame : (h : ℕ) → head ≡ some h → Frame t place v (take_view v t h)
    unfolding upd
    take_view-Frame h e =
        let (a, b) = s.head_first h e in
        record {
          keeps = λ j f. grind arith;
          adds = λ j f. grind arith;
          cells = λ j f. grind arith;
          targets = λ j f. grind arith;
          freed = λ j n b. grind arith;
          stacked = λ j b. grind arith;
        }

    pub push_view-Shape :
        (h : ℕ)
        → v.own h ≡ hand t
        → Lone v.nx h
        → ((c : Node A) → v.heap h ≡ some c → c.next ≡ head)
        → Shape (push_view v head h) (some h) tbd
    unfolding upd
    push_view-Shape h e l m =
        let first =
          First-agree v.own (upd h stack_list v.own) v.nx v.nx stack_list head (λ k a. grind arith)
            (λ j k a b. b) s.head_first in
        record {
          graph =
              link-Graph (upd h stack_list v.own) v.nx h stack_list head (grind arith)
                (λ z. omega arith) first (own-Graph v.own v.nx h stack_list l s.graph);
          node = λ j n. s.node j (grind arith);
          gone = λ j f. grind arith;
          head_first = λ k y. (grind arith, λ i z. grind arith);
          pending_first =
              First-agree v.own _ v.nx _ pending_list tbd (λ k x. grind arith)
                (λ j k x y. grind arith) s.pending_first;
          stack_links = λ j x o y. grind arith;
          pending_links = λ j x o y. grind arith;
        }

    pub push_view-Frame :
        (h : ℕ) → v.own h ≡ hand t → Unread place h → Frame t place v (push_view v head h)
    unfolding upd
    push_view-Frame h e u = record {
      keeps = λ j f. grind arith;
      adds = λ j f. grind arith;
      cells = λ j f. grind arith;
      targets = λ j f. grind arith;
      freed = λ j n b. grind arith;
      stacked = λ j b. grind arith;
    }
