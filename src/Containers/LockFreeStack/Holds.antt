-- ===== src/Containers/LockFreeStack/Holds.antt =====
-- What the threads of LockFreeStack.h may rely on: the nodes that each has, and those that it reads
-- while another may have them.
use boost_net_programing.Base.{
  ℕ, ◌≤◌, ◌≡◌, ◌≢◌, refl, sym, subst, ◌∙◌, Bool-cases, inl, inr, ◌⊎◌, Option, none, some, ◌==◌,
  eq_of_==, ne_of_==, arith,
}
use boost_net_programing.Containers.LockFreeStack.{
  Node, After, delete_head, leave, Place, idle, links, entered, at_head, read_next, owns, alone,
  emptied, deletes, walks, splices, swaps, leaves, move_to,
}
use boost_net_programing.Containers.LockFreeStack.Count.{move_to_self, move_to_ne}
use boost_net_programing.Containers.LockFreeStack.Graph.{Graph, First, Lone, hand, list, stack_list}

-- The node that a thread in `pop` has loaded as the head and may read.
abbrev pub Reads : Place → ℕ → Type 0
Reads (at_head h) i = h ≡ i
Reads (read_next h n) i = h ≡ i
Reads idle i = ⊥
Reads (links _) i = ⊥
Reads entered i = ⊥
Reads (owns _) i = ⊥
Reads (alone _) i = ⊥
Reads (emptied _ _) i = ⊥
Reads (deletes _ _) i = ⊥
Reads (walks _ _ _) i = ⊥
Reads (splices _ _ _) i = ⊥
Reads (swaps _ _ _) i = ⊥
Reads leaves i = ⊥

abbrev pub Unread : (ℕ → Place) → ℕ → Type 0
Unread place i = (u : ℕ) → Reads (place u) i → ⊥

-- The node whose link is not that of the list yet.
abbrev pub exempt : Place → Option ℕ
exempt (splices a f l) = some l
exempt (swaps a f l) = some l
exempt idle = none
exempt (links _) = none
exempt entered = none
exempt (at_head _) = none
exempt (read_next _ _) = none
exempt (owns _) = none
exempt (alone _) = none
exempt (emptied _ _) = none
exempt (deletes _ _) = none
exempt (walks _ _ _) = none
exempt leaves = none

-- The heap with the owner of each node and the links of the lists.
pub record View (A : Type 0) : Type 0 where
  pub heap : ℕ → Option (Node A)
  pub own : ℕ → ℕ
  pub nx : ℕ → Option ℕ

-- An owner that is another thread than `t`.
abbrev pub Foreign : ℕ → ℕ → Type 0
Foreign t o = (3 ≤ o) × (o ≢ hand t) × (o ≢ list t)

module _ {A : Type 0} where
  -- The nodes of `p` hold the links of the graph.
  abbrev pub Matches : View A → ℕ → Type 0
  Matches v p = (i : ℕ) (c : Node A) → v.own i ≡ p → v.heap i ≡ some c → c.next ≡ v.nx i

  abbrev pub Tight : View A → ℕ → Place → Type 0
  Tight v t p =
      (i : ℕ) (c : Node A)
      → exempt p ≢ some i
      → v.own i ≡ list t
      → v.heap i ≡ some c
      → c.next ≡ v.nx i

  -- The node in hand, alone, that no other thread reads.
  abbrev pub Mine : View A → (ℕ → Place) → ℕ → ℕ → Type 0
  Mine v place t h = (v.own h ≡ hand t) × (Lone v.nx h) × Unread place h

  abbrev pub Front : View A → ℕ → Option ℕ → Type 0
  Front v t o = First v.own v.nx (list t) o

  abbrev pub AfterIs : View A → (ℕ → Place) → ℕ → After → Type 0
  AfterIs v place t (delete_head h) = Mine v place t h
  AfterIs v place t leave = t ≡ t

  abbrev pub Chained : View A → ℕ → ℕ → ℕ → Type 0
  Chained v t f l = Front v t (some f) × (v.own l ≡ list t) × (v.nx l ≡ none)

  abbrev pub Has : View A → (ℕ → Place) → ℕ → Place → Type 0
  Has v place t idle = t ≡ t
  Has v place t entered = t ≡ t
  Has v place t leaves = t ≡ t
  Has v place t (links i) = Mine v place t i
  Has v place t (at_head h) = v.own h ≢ 0
  Has v place t (read_next h n) =
      (v.own h ≢ 0) × ((c : Node A) → v.own h ≡ stack_list → v.heap h ≡ some c → c.next ≡ n)
  Has v place t (owns h) = (v.own h ≡ hand t) × (Lone v.nx h)
  Has v place t (alone h) = Mine v place t h
  Has v place t (emptied h l) = Mine v place t h × Front v t l
  Has v place t (deletes h l) =
      Mine v place t h × Front v t l × ((k i : ℕ) → l ≡ some k → v.own i ≡ list t → Unread place i)
  Has v place t (walks h f l) = Mine v place t h × Front v t (some f) × (v.own l ≡ list t)
  Has v place t (splices a f l) = AfterIs v place t a × Chained v t f l
  Has v place t (swaps a f l) = AfterIs v place t a × Chained v t f l

  -- What a step of the thread `t` leaves to the others.
  pub record Frame (t : ℕ) (place : ℕ → Place) (v v' : View A) : Type 0 where
    pub keeps : (i : ℕ) → Foreign t (v.own i) → v'.own i ≡ v.own i
    pub adds : (i : ℕ) → Foreign t (v'.own i) → v'.own i ≡ v.own i
    pub cells : (i : ℕ) → Foreign t (v.own i) → v'.heap i ≡ v.heap i
    pub targets : (i : ℕ) → Foreign t (v.own i) → v'.nx i ≡ v.nx i
    pub freed : (i : ℕ) → v.own i ≢ 0 → v'.own i ≡ 0 → Unread place i
    pub stacked :
        (i : ℕ)
        → v'.own i ≡ stack_list
        → ((v.own i ≡ stack_list) × (v'.heap i ≡ v.heap i)) ⊎ Unread place i

  -- Another thread has what it had, when `t` goes on to `p`.
  module _ (t u : ℕ) (p : Place) (place : ℕ → Place) (v v' : View A) (d : u ≢ t)
      (f : Frame t place v v') (g : Graph v'.own v'.nx)
      (r : (i : ℕ) → Reads p i → (v.own i ≡ stack_list) ⊎ Reads (place t) i) where
    Foreign-hand : (o : ℕ) → o ≡ hand u → Foreign t o
    Foreign-hand o e = (omega (arith, e), λ z. omega (arith, e, d), λ z. omega (arith, e, d))

    Foreign-list : (o : ℕ) → o ≡ list u → Foreign t o
    Foreign-list o e = (omega (arith, e), λ z. omega (arith, e, d), λ z. omega (arith, e, d))

    kept-Unread : (i : ℕ) → v.own i ≢ stack_list → Unread place i → Unread (move_to t p place) i
    kept-Unread i n s x = elim (Bool-cases (x == t)) [
      | inl e ↦
          subst (λ y. Reads (move_to t p place y) i → ⊥) (sym (eq_of_== x t e))
            (λ z. elim (r i (subst (λ q. Reads q i) (move_to_self t p place) z)) [
              | inl a ↦ n a
              | inr a ↦ s t a
            ])
      | inr e ↦ λ z. s x (subst (λ q. Reads q i) (move_to_ne t x p place (ne_of_== x t e)) z)
    ]

    kept_target : (i k : ℕ) → Foreign t (v.own k) → v'.nx i ≡ some k → v.nx i ≡ some k
    kept_target i k n e =
        let same = g.closed i k e in
        let there = same ∙ f.keeps k n in
        let here = f.adds i (subst (λ o. Foreign t o) (sym there) n) in
        sym (f.targets i (subst (λ o. Foreign t o) (sym (sym here ∙ there)) n)) ∙ e

    kept-Lone : (h : ℕ) → Foreign t (v.own h) → Lone v.nx h → Lone v'.nx h
    kept-Lone h n (a, b) = (f.targets h n ∙ a, λ i e. b i (kept_target i h n e))

    kept-Mine : (h : ℕ) → Mine v place u h → Mine v' (move_to t p place) u h
    kept-Mine h (e, l, s) =
        let n = Foreign-hand (v.own h) e in
        (f.keeps h n ∙ e, kept-Lone h n l, kept-Unread h (λ z. omega (arith, e, z)) s)

    kept-Front : (o : Option ℕ) → Front v u o → Front v' u o
    kept-Front o h k e =
        let (a, b) = h k e in
        let n = Foreign-list (v.own k) a in (f.keeps k n ∙ a, λ i z. b i (kept_target i k n z))

    kept-Chained : (a l : ℕ) → Chained v u a l → Chained v' u a l
    kept-Chained a l (h, e, z) =
        let n = Foreign-list (v.own l) e in
        (kept-Front (some a) h, f.keeps l n ∙ e, f.targets l n ∙ z)

    kept-AfterIs : (a : After) → AfterIs v place u a → AfterIs v' (move_to t p place) u a
    kept-AfterIs (delete_head h) m = kept-Mine h m
    kept-AfterIs leave m = m

    kept_own : (h : ℕ) → Reads (place u) h → v.own h ≢ 0 → v'.own h ≢ 0
    kept_own h b n z = f.freed h n z u b

    pub kept-Tight : (q : Place) → Tight v u q → Tight v' u q
    kept-Tight q h i c n e b =
        let same = f.adds i (Foreign-list (v'.own i) e) in
        let o = sym same ∙ e in
        let w = Foreign-list (v.own i) o in h i c n o (sym (f.cells i w) ∙ b) ∙ sym (f.targets i w)

    pub kept-Has : (q : Place) → place u ≡ q → Has v place u q → Has v' (move_to t p place) u q
    kept-Has idle b h = h
    kept-Has entered b h = h
    kept-Has leaves b h = h
    kept-Has (links i) b h = kept-Mine i h
    kept-Has (at_head k) b h = kept_own k (subst (λ q. Reads q k) (sym b) refl) h
    kept-Has (read_next k n) b (a, h) = (
      kept_own k (subst (λ q. Reads q k) (sym b) refl) a,
      λ c e z. elim (f.stacked k e) [
        | inl x ↦ h c x.0 (sym x.1 ∙ z)
        | inr x ↦ absurd (x u (subst (λ q. Reads q k) (sym b) refl))
      ],
    )
    kept-Has (owns k) b (e, l) =
        let n = Foreign-hand (v.own k) e in (f.keeps k n ∙ e, kept-Lone k n l)
    kept-Has (alone k) b h = kept-Mine k h
    kept-Has (emptied k o) b (m, l) = (kept-Mine k m, kept-Front o l)
    kept-Has (deletes k o) b (m, l, s) = (
      kept-Mine k m,
      kept-Front o l,
      λ j i e z.
          let same = f.adds i (Foreign-list (v'.own i) z) in
          kept-Unread i (λ y. omega (arith, same, z, y)) (s j i e (sym same ∙ z)),
    )
    kept-Has (walks k a l) b (m, h, e) =
        (kept-Mine k m, kept-Front (some a) h, f.keeps l (Foreign-list (v.own l) e) ∙ e)
    kept-Has (splices x a l) b (m, c) = (kept-AfterIs x m, kept-Chained a l c)
    kept-Has (swaps x a l) b (m, c) = (kept-AfterIs x m, kept-Chained a l c)
