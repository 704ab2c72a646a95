-- ===== src/Containers/SinglePopPush/Holds.antt =====
-- What the queue of singlepushpop.h is between two accesses.
use boost_net_programing.Base.{
  ℕ, ◌<◌, ◌≤◌, ◌≡◌, ◌≢◌, ◌∙◌, Option, none, some, List, [], ◌∷◌, ◌++◌, Result, ok, arith,
}
use boost_net_programing.Containers.Chains.{Chain, Chain-le, Chain-agree}
use boost_net_programing.Containers.SinglePopPush.{
  Node, Pushing, made, loaded, filled, linked, Popping, at_head, not_empty, moved_on, SinglePopPush,
  blank,
}

module _ {A : Type 0} where
  abbrev pub cell : A → Option ℕ → Node A
  cell x n = record { data_of = some x; next = n }

  abbrev pub Links : (ℕ → Option (Node A)) → ℕ → A → ℕ → Type 0
  Links heap i x n = heap i ≡ some (cell x (some n))

  -- The value of a push that is under way.
  abbrev pub in_flight : Pushing A → List A
  in_flight Pushing.out = []
  in_flight (made x p) = x ∷ []
  in_flight (loaded x p t) = x ∷ []
  in_flight (filled x p t) = x ∷ []
  in_flight (linked x p) = x ∷ []

  -- The new node of a push that is under way.
  abbrev pub NewNode : (ℕ → Option (Node A)) → ℕ → ℕ → ℕ → Type 0
  NewNode heap tail fresh p = (heap p ≡ some blank) × (tail < p) × (p < fresh)

  abbrev pub TailIs : (ℕ → Option (Node A)) → ℕ → ℕ → Pushing A → Type 0
  TailIs heap tail fresh Pushing.out = heap tail ≡ some blank
  TailIs heap tail fresh (made x p) = (heap tail ≡ some blank) × NewNode heap tail fresh p
  TailIs heap tail fresh (loaded x p t) =
      (t ≡ tail) × (heap tail ≡ some blank) × NewNode heap tail fresh p
  TailIs heap tail fresh (filled x p t) =
      (t ≡ tail) × (heap tail ≡ some (cell x none)) × NewNode heap tail fresh p
  TailIs heap tail fresh (linked x p) =
      (heap tail ≡ some (cell x (some p))) × NewNode heap tail fresh p

  -- The value of a pop that has moved the head on.
  abbrev pub HeadIs : (ℕ → Option (Node A)) → ℕ → ℕ → List A → Popping → Type 0
  HeadIs heap head tail hand Popping.out = hand ≡ []
  HeadIs heap head tail hand (at_head h) = (h ≡ head) × (hand ≡ [])
  HeadIs heap head tail hand (not_empty h) = (h ≡ head) × (head ≢ tail) × (hand ≡ [])
  HeadIs heap head tail hand (moved_on h) =
      (x : A) × (n : Option ℕ) × (heap h ≡ some (cell x n)) × (h < head) × (hand ≡ x ∷ [])

  -- `q` are the values from the head to the tail.
  pub record Holds (w : SinglePopPush A) (q hand : List A) : Type 0 where
    pub chain : Chain (Links w.heap) w.head w.tail q
    pub below : w.tail < w.fresh
    pub tail_is : TailIs w.heap w.tail w.fresh w.pushing
    pub head_is : HeadIs w.heap w.head w.tail hand w.popping
    pub total : ((w.taken ++ hand) ++ q) ++ in_flight w.pushing ≡ w.pushed

  abbrev pub Goes : Result (SinglePopPush A) → Type 0
  Goes r = (w : SinglePopPush A) × (q : List A) × (hand : List A) × (r ≡ ok w) × Holds w q hand

  pub HeadIs-agree :
      (heap heap' : ℕ → Option (Node A)) (head tail tail' : ℕ) (hand : List A) (o : Popping)
      → ((i : ℕ) → i < head → heap' i ≡ heap i)
      → (head ≢ tail → head ≢ tail')
      → HeadIs heap head tail hand o
      → HeadIs heap' head tail' hand o
  HeadIs-agree heap heap' head tail tail' hand Popping.out a d h = h
  HeadIs-agree heap heap' head tail tail' hand (at_head k) a d h = h
  HeadIs-agree heap heap' head tail tail' hand (not_empty k) a d (e, f, g) = (e, d f, g)
  HeadIs-agree heap heap' head tail tail' hand (moved_on k) a d (x, n, e, l, g) =
      (x, n, a k l ∙ e, l, g)

  pub TailIs-agree :
      (heap heap' : ℕ → Option (Node A)) (tail fresh : ℕ) (o : Pushing A)
      → ((i : ℕ) → tail ≤ i → heap' i ≡ heap i)
      → TailIs heap tail fresh o
      → TailIs heap' tail fresh o
  TailIs-agree heap heap' tail fresh Pushing.out a t = a tail (omega arith) ∙ t
  TailIs-agree heap heap' tail fresh (made x p) a (b, (np, l, m)) =
      (a tail (omega arith) ∙ b, (a p (omega arith) ∙ np, l, m))
  TailIs-agree heap heap' tail fresh (loaded x p t) a (e, b, (np, l, m)) =
      (e, a tail (omega arith) ∙ b, (a p (omega arith) ∙ np, l, m))
  TailIs-agree heap heap' tail fresh (filled x p t) a (e, b, (np, l, m)) =
      (e, a tail (omega arith) ∙ b, (a p (omega arith) ∙ np, l, m))
  TailIs-agree heap heap' tail fresh (linked x p) a (b, (np, l, m)) =
      (a tail (omega arith) ∙ b, (a p (omega arith) ∙ np, l, m))

  -- A write behind the list leaves the list, and what the other thread holds.
  module _ (w : SinglePopPush A) (q hand : List A) (v : Holds w q hand)
      (heap' : ℕ → Option (Node A)) (same : (i : ℕ) → i < w.tail → heap' i ≡ w.heap i) where
    pub kept-Chain : Chain (Links heap') w.head w.tail q
    kept-Chain =
        Chain-agree (Links w.heap) (Links heap') w.head w.tail q
          (λ i x n b l k e. same i (omega arith) ∙ e) v.chain

    pub kept-HeadIs : HeadIs heap' w.head w.tail hand w.popping
    kept-HeadIs =
        HeadIs-agree w.heap heap' w.head w.tail w.tail hand w.popping
          (λ i l. same i (omega (arith, Chain-le (Links w.heap) w.head w.tail q v.chain))) (λ d. d)
          v.head_is
