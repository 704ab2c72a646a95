-- ===== src/Containers/LockFreeStack/Atomic.antt =====
-- The stack that LockFreeStack.h stands for: a list, what each thread has in its hand, and what was
-- popped.
use boost_net_programing.Base.{
  ℕ, ◌≡◌, ◌≢◌, refl, sym, ap, subst, ◌∙◌, Bool-cases, inl, inr, Bool, Option, none, some, List, [],
  ◌∷◌, ◌++◌, ◌==◌, eq_of_==, ne_of_==, arith, Result, ok,
}
use boost_net_programing.Containers.LockFreeStack.{
  Node, Place, idle, links, entered, at_head, read_next, owns, alone, emptied, deletes, walks,
  splices, swaps, leaves, Stack, move_to, at_place, Move, pushes, pops, goes_on,
}
use boost_net_programing.Containers.LockFreeStack.Count.{move_to_self, move_to_ne}
use boost_net_programing.Containers.LockFreeStack.Graph.{hand, list, stack_list, upd}
use boost_net_programing.Containers.LockFreeStack.Holds.{View, Has}
use boost_net_programing.Containers.LockFreeStack.Steps.{Holds}

-- What the call of a thread has to do still: nothing, to push a value, to pop one, or to return the
-- one that it took off.
pub data Hand {ℓ} (A : Type ℓ) : Type ℓ where
  empty : Hand A
  brings : A → Hand A
  wants : Hand A
  holds : A → Hand A

pub record Atomic {ℓ} (A : Type ℓ) : Type ℓ where
  pub stack : List A
  pub hands : ℕ → Hand A
  pub out : List A

-- What a move of a thread does to the list: nothing; a call of `push` or `pop` begins; or a step of
-- the thread pushes its value, takes the first value off, finds the list empty, or returns what it
-- took off.
pub data Turn {A : Type 0} : Move A → Atomic A → Atomic A → Type 0 where
  waits : (m : Move A) (s : Atomic A) → Turn m s s
  begins :
      (s : Atomic A) (t : ℕ) (x : A) (i : ℕ)
      → s.hands t ≡ empty
      → Turn (pushes t x i) s (record s { hands = upd t (brings x) s.hands })
  asks :
      (s : Atomic A) (t : ℕ)
      → s.hands t ≡ empty
      → Turn (pops t) s (record s { hands = upd t wants s.hands })
  puts :
      (s : Atomic A) (t : ℕ) (weak : Bool) (x : A)
      → s.hands t ≡ brings x
      → Turn (goes_on t weak) s (record s { stack = x ∷ s.stack; hands = upd t empty s.hands })
  takes :
      (s : Atomic A) (t : ℕ) (weak : Bool) (x : A) (q : List A)
      → s.hands t ≡ wants
      → s.stack ≡ x ∷ q
      → Turn (goes_on t weak) s (record s { stack = q; hands = upd t (holds x) s.hands })
  misses :
      (s : Atomic A) (t : ℕ) (weak : Bool)
      → s.hands t ≡ wants
      → s.stack ≡ []
      → Turn (goes_on t weak) s (record s { hands = upd t empty s.hands })
  gives :
      (s : Atomic A) (t : ℕ) (weak : Bool) (x : A)
      → s.hands t ≡ holds x
      → Turn (goes_on t weak) s (record s { hands = upd t empty s.hands; out = s.out ++ x ∷ [] })

module _ {A : Type 0} where
  abbrev pub cell : A → Option ℕ → Node A
  cell x n = record { data_of = some x; next = n }

  -- The values of the nodes from a pointer to the null at the end.
  abbrev pub Spine : (ℕ → Option (Node A)) → Option ℕ → List A → Type 0
  Spine heap o [] = o ≡ none
  Spine heap o (x ∷ q) =
      (i : ℕ) × (n : Option ℕ) × (o ≡ some i) × (heap i ≡ some (cell x n)) × Spine heap n q

  abbrev pub HandIs : (ℕ → Option (Node A)) → Hand A → Place → Type 0
  HandIs heap o (links i) = (x : A) × (n : Option ℕ) × (o ≡ brings x) × (heap i ≡ some (cell x n))
  HandIs heap o (owns i) = (x : A) × (n : Option ℕ) × (o ≡ holds x) × (heap i ≡ some (cell x n))
  HandIs heap o idle = o ≡ empty
  HandIs heap o entered = o ≡ wants
  HandIs heap o (at_head _) = o ≡ wants
  HandIs heap o (read_next _ _) = o ≡ wants
  HandIs heap o (alone _) = o ≡ empty
  HandIs heap o (emptied _ _) = o ≡ empty
  HandIs heap o (deletes _ _) = o ≡ empty
  HandIs heap o (walks _ _ _) = o ≡ empty
  HandIs heap o (splices _ _ _) = o ≡ empty
  HandIs heap o (swaps _ _ _) = o ≡ empty
  HandIs heap o leaves = o ≡ empty

  pub record Shows (w : Stack A) (s : Atomic A) : Type 0 where
    pub spine : Spine w.heap w.head s.stack
    pub in_hand : (u : ℕ) → HandIs w.heap (s.hands u) (w.place u)
    pub out_is : s.out ≡ w.taken

  abbrev pub Follows : Move A → Atomic A → Result (Stack A) → Type 0
  Follows m s r = (w : Stack A) × (s' : Atomic A) × (r ≡ ok w) × Shows w s' × Turn m s s'

  -- Only nodes of the thread `t`, and free ones, are written.
  abbrev pub Writes : ℕ → View A → (ℕ → Option (Node A)) → (ℕ → Option (Node A)) → Type 0
  Writes t v heap heap' =
      (j : ℕ) → v.own j ≢ 0 → v.own j ≢ hand t → v.own j ≢ list t → heap' j ≡ heap j

  module _ (m : Move A) (t : ℕ) (w w' : Stack A) (v : View A) (s : Atomic A) (h : Holds w v)
      (k : Shows w s) (p : Place) (e : w'.place ≡ w.place) (same : Writes t v w.heap w'.heap) where
    Spine-agree :
        (q : List A) (o : Option ℕ)
        → ((i : ℕ) → o ≡ some i → v.own i ≡ stack_list)
        → Spine w.heap o q
        → Spine w'.heap o q
    Spine-agree [] o f c = c
    Spine-agree (x ∷ q) o f (i, n, a, b, c) =
        let own = f i a in
        let there = ap (λ g. g i) h.heap_is ∙ b in
        (
          i,
          n,
          a,
          same i (λ z. omega (arith, own, z)) (λ z. omega (arith, own, z))
                (λ z. omega (arith, own, z))
              ∙ b,
          Spine-agree q n
              (λ j y.
                sym
                  (h.shape.graph.closed i j (sym (h.shape.stack_links i (cell x n) own there) ∙ y))
                ∙ own)
              c,
        )

    pub kept-Spine : Spine w'.heap w.head s.stack
    kept-Spine = Spine-agree s.stack w.head (λ i y. (h.shape.head_first i y).0) k.spine

    kept-HandIs :
        (u : ℕ) (q : Place) (o : Hand A)
        → u ≢ t
        → Has v w.place u q
        → HandIs w.heap o q
        → HandIs w'.heap o q
    kept-HandIs u (links i) o d y (x, n, a, b) =
        let z = y.0 in
        (
          x,
          n,
          a,
          same i (λ y. omega (arith, z, y)) (λ y. omega (arith, z, y, d)) (λ y. omega (arith, z, y))
              ∙ b,
        )
    kept-HandIs u (owns i) o d y (x, n, a, b) =
        let z = y.0 in
        (
          x,
          n,
          a,
          same i (λ y. omega (arith, z, y)) (λ y. omega (arith, z, y, d)) (λ y. omega (arith, z, y))
              ∙ b,
        )
    kept-HandIs u idle o d y a = a
    kept-HandIs u entered o d y a = a
    kept-HandIs u (at_head _) o d y a = a
    kept-HandIs u (read_next _ _) o d y a = a
    kept-HandIs u (alone _) o d y a = a
    kept-HandIs u (emptied _ _) o d y a = a
    kept-HandIs u (deletes _ _) o d y a = a
    kept-HandIs u (walks _ _ _) o d y a = a
    kept-HandIs u (splices _ _ _) o d y a = a
    kept-HandIs u (swaps _ _ _) o d y a = a
    kept-HandIs u leaves o d y a = a

    -- A thread goes on to `p`.
    pub shown :
        (s' : Atomic A)
        → ((u : ℕ) → u ≢ t → s'.hands u ≡ s.hands u)
        → Spine w'.heap w'.head s'.stack
        → HandIs w'.heap (s'.hands t) p
        → s'.out ≡ w'.taken
        → Turn m s s'
        → Follows m s (ok (at_place t p w'))
    unfolding at_place
    shown s' hs c y o r =
        let place = move_to t p w.place in
        let hands : (u : ℕ) → HandIs w'.heap (s'.hands u) (place u) = λ u.
          elim (Bool-cases (u == t)) [
            | inl b ↦
                subst (λ y. HandIs w'.heap (s'.hands y) (place y)) (sym (eq_of_== u t b))
                  (subst (λ q. HandIs w'.heap (s'.hands t) q) (sym (move_to_self t p w.place)) y)
            | inr b ↦
                let d = ne_of_== u t b in
                subst (λ q. HandIs w'.heap (s'.hands u) q) (sym (move_to_ne t u p w.place d))
                  (subst (λ g. HandIs w'.heap g (w.place u)) (sym (hs u d))
                    (kept-HandIs u (w.place u) (s.hands u) d (h.has u) (k.in_hand u)))
          ] in
        (
          at_place t p w',
          s',
          refl,
          record {
            spine = c;
            in_hand =
                subst (λ f. (u : ℕ) → HandIs w'.heap (s'.hands u) (f u))
                  (ap (λ q. move_to t p q) (sym e)) hands;
            out_is = o;
          },
          r,
        )

    -- An access that changes neither the stack nor a hand.
    pub unseen :
        w'.head ≡ w.head
        → w'.taken ≡ w.taken
        → HandIs w'.heap (s.hands t) p
        → Follows m s (ok (at_place t p w'))
    unseen a b y =
        shown s (λ u d. refl) (subst (λ o. Spine w'.heap o s.stack) (sym a) kept-Spine) y
          (k.out_is ∙ sym b) (waits m s)
