-- ===== src/Containers/LockFreeStack/Steps.antt =====
-- The invariant of LockFreeStack.h, and a step of one thread.
use boost_net_programing.Base.{
  ℕ, ◌+◌, ◌≡◌, ◌≢◌, refl, sym, ap, subst, Bool-cases, inl, inr, ◌⊎◌, Option, ◌==◌, eq_of_==,
  ne_of_==, arith, Result, ok,
}
use boost_net_programing.Containers.LockFreeStack.{
  Place, idle, links, entered, at_head, read_next, owns, alone, emptied, deletes, walks, splices,
  swaps, leaves, Stack, move_to, at_place,
}
use boost_net_programing.Containers.LockFreeStack.Count.{
  Counts, Counts-move_to, Counts-alone, in_pop, move_to_self, move_to_ne,
}
use boost_net_programing.Containers.LockFreeStack.Graph.{stack_list}
use boost_net_programing.Containers.LockFreeStack.Holds.{
  View, Reads, Unread, Frame, Has, Tight, kept-Has, kept-Tight,
}
use boost_net_programing.Containers.LockFreeStack.Shapes.{Shape}

Reads-in_pop : (q : Place) (i : ℕ) → Reads q i → in_pop q ≡ 1
unfolding in_pop
Reads-in_pop (at_head k) i r = refl
Reads-in_pop (read_next k n) i r = refl
Reads-in_pop idle i r = absurd r
Reads-in_pop (links _) i r = absurd r
Reads-in_pop entered i r = absurd r
Reads-in_pop (owns _) i r = absurd r
Reads-in_pop (alone _) i r = absurd r
Reads-in_pop (emptied _ _) i r = absurd r
Reads-in_pop (deletes _ _) i r = absurd r
Reads-in_pop (walks _ _ _) i r = absurd r
Reads-in_pop (splices _ _ _) i r = absurd r
Reads-in_pop (swaps _ _ _) i r = absurd r
Reads-in_pop leaves i r = absurd r

-- A thread that goes on to a place where it does not read.
pub Unread-move_to :
    (t : ℕ) (p : Place) (place : ℕ → Place) (i : ℕ)
    → (Reads p i → ⊥)
    → Unread place i
    → Unread (move_to t p place) i
Unread-move_to t p place i n s u r = elim (Bool-cases (u == t)) [
  | inl b ↦ n (
      subst (λ q. Reads q i) (move_to_self t p place)
        (subst (λ y. Reads (move_to t p place y) i) (eq_of_== u t b) r))
  | inr b ↦ s u (subst (λ q. Reads q i) (move_to_ne t u p place (ne_of_== u t b)) r)
]

module _ {A : Type 0} where
  abbrev pub view : Stack A → (ℕ → ℕ) → (ℕ → Option ℕ) → View A
  view w own nx = record { heap = w.heap; own = own; nx = nx }

  -- The lists are as they should be, each thread has what it needs where it stands, and
  -- `threads_in_pop` is the number of the threads in `pop`.
  pub record Holds (w : Stack A) (v : View A) : Type 0 where
    pub heap_is : v.heap ≡ w.heap
    pub shape : Shape v w.head w.to_be_deleted
    pub has : (u : ℕ) → Has v w.place u (w.place u)
    pub tight : (u : ℕ) → Tight v u (w.place u)
    pub counts : Counts w.place w.threads_in_pop

  abbrev pub Goes : Result (Stack A) → Type 0
  Goes r = (w : Stack A) × (v : View A) × (r ≡ ok w) × Holds w v

  -- A thread goes on to `p`.
  pub moved :
      (t : ℕ) (p : Place) (w w' : Stack A) (v v' : View A)
      → Holds w v
      → w'.place ≡ w.place
      → v'.heap ≡ w'.heap
      → Shape v' w'.head w'.to_be_deleted
      → Frame t w.place v v'
      → ((i : ℕ) → Reads p i → (v.own i ≡ stack_list) ⊎ Reads (w.place t) i)
      → Has v' (move_to t p w.place) t p
      → Tight v' t p
      → w'.threads_in_pop + in_pop (w.place t) ≡ w.threads_in_pop + in_pop p
      → Goes (ok (at_place t p w'))
  unfolding at_place
  moved t p w w' v v' h e hp s f r m k c =
      let place = move_to t p w.place in
      let same : move_to t p w'.place ≡ place = ap (λ q. move_to t p q) e in
      let has : (u : ℕ) → Has v' place u (place u) = λ u. elim (Bool-cases (u == t)) [
        | inl b ↦
            let z = eq_of_== u t b in
            subst (λ y. Has v' place y (place y)) (sym z)
              (subst (λ q. Has v' place t q) (sym (move_to_self t p w.place)) m)
        | inr b ↦
            let z = ne_of_== u t b in
            subst (λ q. Has v' place u q) (sym (move_to_ne t u p w.place z))
              (kept-Has t u p w.place v v' z f s.graph r (w.place u) refl (h.has u))
      ] in
      let tight : (u : ℕ) → Tight v' u (place u) = λ u. elim (Bool-cases (u == t)) [
        | inl b ↦
            let z = eq_of_== u t b in
            subst (λ y. Tight v' y (place y)) (sym z)
              (subst (λ q. Tight v' t q) (sym (move_to_self t p w.place)) k)
        | inr b ↦
            let z = ne_of_== u t b in
            subst (λ q. Tight v' u q) (sym (move_to_ne t u p w.place z))
              (kept-Tight t u p w.place v v' z f s.graph r (w.place u) (h.tight u))
      ] in
      (
        at_place t p w',
        v',
        refl,
        record {
          heap_is = hp;
          shape = s;
          has = subst (λ f. (u : ℕ) → Has v' f u (f u)) (sym same) has;
          tight = subst (λ f. (u : ℕ) → Tight v' u (f u)) (sym same) tight;
          counts =
              subst (λ f. Counts f w'.threads_in_pop) (sym same)
                (Counts-move_to w.place w.threads_in_pop w'.threads_in_pop t p h.counts c);
        },
      )

  -- What a thread reads is not free, and the thread is counted.
  Reads-Has :
      (v : View A) (place : ℕ → Place) (u i : ℕ) (q : Place)
      → Has v place u q
      → Reads q i
      → v.own i ≢ 0
  Reads-Has v place u i (at_head k) h r = subst (λ j. v.own j ≢ 0) r h
  Reads-Has v place u i (read_next k n) (h, g) r = subst (λ j. v.own j ≢ 0) r h
  Reads-Has v place u i idle h r = absurd r
  Reads-Has v place u i (links _) h r = absurd r
  Reads-Has v place u i entered h r = absurd r
  Reads-Has v place u i (owns _) h r = absurd r
  Reads-Has v place u i (alone _) h r = absurd r
  Reads-Has v place u i (emptied _ _) h r = absurd r
  Reads-Has v place u i (deletes _ _) h r = absurd r
  Reads-Has v place u i (walks _ _ _) h r = absurd r
  Reads-Has v place u i (splices _ _ _) h r = absurd r
  Reads-Has v place u i (swaps _ _ _) h r = absurd r
  Reads-Has v place u i leaves h r = absurd r

  pub free-Unread : (w : Stack A) (v : View A) (i : ℕ) → Holds w v → v.own i ≡ 0 → Unread w.place i
  free-Unread w v i h e u r = Reads-Has v w.place u i (w.place u) (h.has u) r e

  -- If `t` is alone in `pop`, and does not read, no thread does.
  pub alone-Unread :
      (w : Stack A) (v : View A) (t i : ℕ)
      → Holds w v
      → w.threads_in_pop ≡ in_pop (w.place t)
      → (Reads (w.place t) i → ⊥)
      → Unread w.place i
  alone-Unread w v t i h e n u r = elim (Bool-cases (u == t)) [
    | inl b ↦ n (subst (λ y. Reads (w.place y) i) (eq_of_== u t b) r)
    | inr b ↦ omega (
      arith,
      Reads-in_pop (w.place u) i r,
      Counts-alone w.place w.threads_in_pop t u h.counts e (ne_of_== u t b),
    )
  ]
