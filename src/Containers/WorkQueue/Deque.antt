-- ===== src/Containers/WorkQueue/Deque.antt =====
-- The nodes of the `threadsafe_queue` of the thread pools, in day22-ThreadPool's ThreadSafeQue.h, from
-- the head to the tail and back.
use boost_net_programing.Base.{
  ℕ, ◌<◌, ◌≤◌, ◌≡◌, ◌≢◌, refl, sym, ap, subst, ◌∙◌, true, Bool-cases, inl, inr, ◌⊎◌, Option, none,
  some, List, [], ◌∷◌, ◌++◌, ◌==◌, ne_of_==, eq_of_==, put, put_self, put_ne, arith,
}
use boost_net_programing.Containers.Chains.{Chain, Chain-agree, Chain-snoc}
use boost_net_programing.Containers.WorkQueue.{Node, waited, saw_data, WorkQueue, prev_of}

module _ {A : Type 0} where
  -- The node at `i` has the value and points at `n`, which points back.
  abbrev pub Links : (ℕ → Option (Node A)) → ℕ → A → ℕ → Type 0
  Links heap i x n =
      (p : Option ℕ) × (heap i ≡ some (record { data_of = some x; next = some n; prev = p }))
      × (prev_of (heap n) ≡ some i)

  -- The list from `head` to `tail` holds the values, the tail is a node, and a thread that is to pop
  -- has seen that there is one.
  pub record Holds (w : WorkQueue A) (q : List A) : Type 0 where
    pub chain : Chain (Links w.heap) w.head w.tail q
    pub last : (n : Node A) × (w.heap w.tail ≡ some n)
    pub below : w.tail < w.fresh
    pub seen : w.holder ≡ saw_data → w.head ≢ w.tail
    pub told : w.holder ≡ waited → (w.head ≢ w.tail) ⊎ (w.bstop ≡ true)

  -- Another heap with the same nodes before `t`, and the same link back from it.
  Links-agree :
      (heap heap' : ℕ → Option (Node A)) (t : ℕ)
      → ((i : ℕ) → i < t → heap' i ≡ heap i)
      → prev_of (heap' t) ≡ prev_of (heap t)
      → (i : ℕ) (x : A) (n : ℕ) → i < n
      → n ≤ t
      → Links heap i x n
      → Links heap' i x n
  Links-agree heap heap' t a b i x n l k (p, e, f) = elim (Bool-cases (n == t)) [
    | inl z ↦
        let y = eq_of_== n t z in
        (p, a i (omega arith) ∙ e, subst (λ m. prev_of (heap' m) ≡ prev_of (heap m)) (sym y) b ∙ f)
    | inr z ↦ (p, a i (omega arith) ∙ e, ap prev_of (a n (omega (arith, ne_of_== n t z))) ∙ f)
  ]

  pub Chain-agree_up :
      (heap heap' : ℕ → Option (Node A)) (h t : ℕ) (q : List A)
      → ((i : ℕ) → i < t → heap' i ≡ heap i)
      → prev_of (heap' t) ≡ prev_of (heap t)
      → Chain (Links heap) h t q
      → Chain (Links heap') h t q
  Chain-agree_up heap heap' h t q a b c =
      Chain-agree (Links heap) (Links heap') h t q
        (λ i x n d l k. Links-agree heap heap' t a b i x n l k) c

  pub push-Chain :
      (w : WorkQueue A) (q : List A) (x : A) (n : Node A)
      → Holds w q
      → w.heap w.tail ≡ some n
      → Chain
          (Links (
            put w.tail (some (record n { data_of = some x; next = some w.fresh })) (
              put w.fresh
                (some (record { data_of = none; next = none; prev = some w.tail }))
                w.heap)))
          w.head
          w.fresh
          (q ++ x ∷ [])
  unfolding prev_of
  push-Chain w q x n v e =
      let fresh_node : Option (Node A) =
        some (record { data_of = none; next = none; prev = some w.tail }) in
      let full : Option (Node A) = some (record n { data_of = some x; next = some w.fresh }) in
      let mid = put w.fresh fresh_node w.heap in
      let new = put w.tail full mid in
      let old : (i : ℕ) → i < w.tail → new i ≡ w.heap i = λ i l.
        put_ne w.tail i full mid (λ z. omega arith)
        ∙ put_ne w.fresh i fresh_node w.heap (λ z. omega (arith, v.below)) in
      let back : prev_of (new w.tail) ≡ prev_of (w.heap w.tail) =
        rw (put_self w.tail full mid, e) refl in
      Chain-snoc (Links w.heap) (Links new) w.head w.tail w.fresh q x
        (λ i y m b l k. Links-agree w.heap new w.tail old back i y m l k)
        (
          n.prev,
          put_self w.tail full mid,
          ap prev_of (
              put_ne w.tail w.fresh full mid (λ z. omega (arith, v.below))
              ∙ put_self w.fresh fresh_node w.heap),
        )
        v.below v.chain

  pub pop-Chain :
      (heap : ℕ → Option (Node A)) (h n t : ℕ) (q : List A)
      → h < n
      → Chain (Links heap) n t q
      → Chain (Links (put h none heap)) n t q
  pop-Chain heap h n t q l c =
      Chain-agree (Links heap) (Links (put h none heap)) n t q
        (λ i x m b k r (p, e, f). (
          p,
          put_ne h i none heap (λ z. omega arith) ∙ e,
          ap prev_of (put_ne h m none heap (λ z. omega arith)) ∙ f,
        ))
        c

  pub steal-Chain :
      (heap : ℕ → Option (Node A)) (h i t : ℕ) (q : List A) (n : Node A)
      → i < t
      → heap i ≡ some n
      → Chain (Links heap) h i q
      → Chain (Links (put i (some (record n { next = none })) (put t none heap))) h i q
  unfolding prev_of
  steal-Chain heap h i t q n l e c =
      let cut : Option (Node A) = some (record n { next = none }) in
      let mid = put t none heap in
      Chain-agree_up heap (put i cut mid) h i q
        (λ j k. put_ne i j cut mid (λ z. omega arith) ∙ put_ne t j none heap (λ z. omega arith))
        (rw (put_self i cut mid, e) refl) c
