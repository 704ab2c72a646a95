-- ===== src/Containers/LockFreeStack/Lifo.antt =====
-- The accesses of LockFreeStack.h as turns on a list.
use boost_net_programing.Base.{
  ℕ, inl, inr, ◌≡◌, ◌≢◌, refl, ap, subst, ◌∙◌, Bool, ◌&&◌, not, Bool-cases, ◌==◌, Option, none,
  some, List, [], ◌∷◌, ◌++◌, arith, put, put_self, ok,
}
use boost_net_programing.Containers.LockFreeStack.{
  Node, leave, Place, idle, links, entered, at_head, read_next, owns, alone, splices, leaves, Stack,
  at_place, pushes, goes_on, same, got, begin_push, link_head, load_head, take_head, test_alone,
}
use boost_net_programing.Containers.LockFreeStack.Graph.{hand, list, upd}
use boost_net_programing.Containers.LockFreeStack.Holds.{View}
use boost_net_programing.Containers.LockFreeStack.Steps.{Holds}
use boost_net_programing.Containers.LockFreeStack.PushPop.{Has-at, heap_at, same_eq, and_left}
use boost_net_programing.Containers.LockFreeStack.Atomic.{
  Hand, empty, brings, holds, Atomic, begins, misses, puts, takes, gives, cell, Spine, HandIs,
  Shows, Follows, Writes, kept-Spine, shown, unseen,
}

module _ {A : Type 0} where
  pub upd_self : (t : ℕ) (x : Hand A) (f : ℕ → Hand A) → upd t x f t ≡ x
  unfolding upd
  upd_self t x f = ground arith

  pub upd_ne : (t : ℕ) (x : Hand A) (f : ℕ → Hand A) (u : ℕ) → u ≢ t → upd t x f u ≡ f u
  unfolding upd
  upd_ne t x f u d = ground arith

module _ {A : Type 0} (t : ℕ) (w : Stack A) (v : View A) (s : Atomic A) (h : Holds w v)
    (k : Shows w s) where
  pub hand_at : (p : Place) → w.place t ≡ p → HandIs w.heap (s.hands t) p
  hand_at p e = subst (λ q. HandIs w.heap (s.hands t) q) e (k.in_hand t)

  pub no_write : Writes t v w.heap w.heap
  no_write j a b c = refl

  pub put_hand :
      (i : ℕ) (c : Option (Node A)) → v.own i ≡ hand t → Writes t v w.heap (put i c w.heap)
  unfolding put
  put_hand i c e j a b d = grind arith

  pub put_list :
      (i : ℕ) (c : Option (Node A)) → v.own i ≡ list t → Writes t v w.heap (put i c w.heap)
  unfolding put
  put_list i c e j a b d = grind arith

  put_free : (i : ℕ) (c : Option (Node A)) → v.own i ≡ 0 → Writes t v w.heap (put i c w.heap)
  unfolding put
  put_free i c e j a b d = grind arith

  pub begin_push-Follows :
      (x : A) (i : ℕ)
      → w.place t ≡ idle
      → w.heap i ≡ none
      → Follows (pushes t x i) s (ok (begin_push t x i idle none w))
  unfolding begin_push
  begin_push-Follows x i e f =
      let w' : Stack A = record w { heap = put i (some (cell x w.head)) w.heap } in
      let same = put_free i (some (cell x w.head)) (h.shape.gone i (heap_at t w v h i ∙ f)) in
      shown (pushes t x i) t w w' v s h k (links i) refl same
        (record s { hands = upd t (brings x) s.hands }) (upd_ne t (brings x) s.hands)
        (kept-Spine (pushes t x i) t w w' v s h k (links i) refl same)
        (x, w.head, upd_self t (brings x) s.hands, put_self i (some (cell x w.head)) w.heap)
        k.out_is (begins s t x i (hand_at idle e))

  pub link_head-Follows :
      (weak : Bool) (i : ℕ) (n : Node A)
      → w.place t ≡ links i
      → w.heap i ≡ some n
      → Follows (goes_on t weak) s (ok (link_head t weak i n w))
  unfolding link_head
  link_head-Follows weak i n e f =
      let (x, m, a, b) = hand_at (links i) e in
      let data_is : n ≡ cell x m = grind arith in
      let o = (Has-at t w v h (links i) e).0 in
      elim (Bool-cases (same w.head n.next && not weak)) [
        | inl y ↦
            let d = same_eq w.head n.next (and_left _ _ y) ∙ ap (λ c. c.next) data_is in
            rw y (
              shown (goes_on t weak) t w (record w { head = some i }) v s h k idle refl no_write
                (record s { stack = x ∷ s.stack; hands = upd t empty s.hands })
                (upd_ne t empty s.hands)
                (i, m, refl, b, subst (λ p. Spine w.heap p s.stack) d k.spine)
                (upd_self t empty s.hands) k.out_is (puts s t weak x a))
        | inr y ↦
            let c : Node A = record n { next = w.head } in
            let relink : Node A → Node A = λ d. record d { next = w.head } in
            let r : c ≡ cell x w.head = ap relink data_is in
            rw y (
              unseen (goes_on t weak) t w (record w { heap = put i (some c) w.heap }) v s h k
                (links i) refl (put_hand i (some c) o) refl refl
                (x, w.head, a, put_self i (some c) w.heap ∙ ap some r))
      ]

  nothing_there : (q : List A) → w.head ≡ none → Spine w.heap w.head q → q ≡ []
  nothing_there [] d c = refl
  nothing_there (x ∷ q) d (i, n, a, b, c) = absurd (cc)

  pub load_head-Follows :
      (weak : Bool) (o : Option ℕ)
      → w.head ≡ o
      → w.place t ≡ entered
      → Follows (goes_on t weak) s (ok (load_head t o w))
  unfolding load_head
  load_head-Follows weak none d e =
      shown (goes_on t weak) t w w v s h k leaves refl no_write
        (record s { hands = upd t empty s.hands }) (upd_ne t empty s.hands) k.spine
        (upd_self t empty s.hands) k.out_is
        (misses s t weak (hand_at entered e) (nothing_there s.stack d k.spine))
  load_head-Follows weak (some i) d e =
      unseen (goes_on t weak) t w w v s h k (at_head i) refl no_write refl refl (hand_at entered e)

  take_first :
      (weak : Bool) (i : ℕ) (n : Option ℕ) (q : List A)
      → w.place t ≡ read_next i n
      → w.head ≡ some i
      → s.stack ≡ q
      → Spine w.heap w.head q
      → Follows (goes_on t weak) s (ok (at_place t (owns i) (record w { head = n })))
  take_first weak i n [] e d z c = absurd (cc)
  take_first weak i n (x ∷ q) e d z (j, m, a, b, c) =
      let same_node : j ≡ i = grind arith in
      let there : w.heap i ≡ some (cell x m) =
        subst (λ y. w.heap y ≡ some (cell x m)) same_node b in
      let next_is : m ≡ n =
        (Has-at t w v h (read_next i n) e).1 (cell x m) ((h.shape.head_first i d).0)
          (heap_at t w v h i ∙ there) in
      shown (goes_on t weak) t w (record w { head = n }) v s h k (owns i) refl no_write
        (record s { stack = q; hands = upd t (holds x) s.hands }) (upd_ne t (holds x) s.hands)
        (subst (λ y. Spine w.heap y q) next_is c) (x, m, upd_self t (holds x) s.hands, there)
        k.out_is (takes s t weak x q (hand_at (read_next i n) e) z)

  pub take_head-Follows :
      (weak : Bool) (i : ℕ) (n : Option ℕ)
      → w.place t ≡ read_next i n
      → Follows (goes_on t weak) s (ok (take_head t weak i n w))
  unfolding take_head
  take_head-Follows weak i n e = elim (Bool-cases (same w.head (some i) && not weak)) [
    | inl y ↦
        rw y (take_first weak i n s.stack e (same_eq w.head (some i) (and_left _ _ y)) refl k.spine)
    | inr y ↦ rw y (
        unseen (goes_on t weak) t w w v s h k entered refl no_write refl refl
          (hand_at (read_next i n) e))
  ]

  pub test_alone-Follows :
      (weak : Bool) (i : ℕ) (n : Node A)
      → w.place t ≡ owns i
      → w.heap i ≡ some n
      → Follows (goes_on t weak) s (ok (test_alone t i n w))
  unfolding test_alone
  test_alone-Follows weak i n e f =
      let (x, m, a, b) = hand_at (owns i) e in
      let data_is : n.data_of ≡ some x = grind arith in
      let c : Node A = record n { data_of = none } in
      let w' : Stack A = record w {
        heap = put i (some c) w.heap;
        taken = w.taken ++ got n.data_of;
      } in
      let same = put_hand i (some c) (Has-at t w v h (owns i) e).0 in
      let s' : Atomic A = record s { hands = upd t empty s.hands; out = s.out ++ x ∷ [] } in
      let out : s.out ++ x ∷ [] ≡ w.taken ++ got n.data_of = rw (k.out_is, data_is) refl in
      elim (Bool-cases (w.threads_in_pop == 1)) [
        | inl y ↦ rw y (
            shown (goes_on t weak) t w w' v s h k (alone i) refl same s' (upd_ne t empty s.hands)
              (kept-Spine (goes_on t weak) t w w' v s h k (alone i) refl same)
              (upd_self t empty s.hands) out (gives s t weak x a))
        | inr y ↦ rw y (
            shown (goes_on t weak) t w w' v s h k (splices leave i i) refl same s'
              (upd_ne t empty s.hands)
              (kept-Spine (goes_on t weak) t w w' v s h k (alone i) refl same)
              (upd_self t empty s.hands) out (gives s t weak x a))
      ]
