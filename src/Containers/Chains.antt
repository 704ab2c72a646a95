-- ===== src/Containers/Chains.antt =====
-- The linked lists of the queues: from a head to a tail, by indices that grow.
use boost_net_programing.Base.{ℕ, ◌<◌, ◌≤◌, ◌≡◌, refl, sym, ap, subst, List, [], ◌∷◌, ◌++◌, arith}

module _ {A : Type 0} where
  -- From `h` on the nodes hold the values, each linked to the next, and the last link is to `t`. A
  -- link says that a node has a value and points at another.
  abbrev pub Chain : (ℕ → A → ℕ → Type 0) → ℕ → ℕ → List A → Type 0
  Chain Link h t [] = h ≡ t
  Chain Link h t (x ∷ q) = (n : ℕ) × Link h x n × (h < n) × Chain Link n t q

  pub Chain-le : (Link : ℕ → A → ℕ → Type 0) (h t : ℕ) (q : List A) → Chain Link h t q → h ≤ t
  Chain-le Link h t [] e = omega arith
  Chain-le Link h t (x ∷ q) (n, e, l, c) = omega (arith, Chain-le Link n t q c)

  pub Chain-agree :
      (Link Link' : ℕ → A → ℕ → Type 0) (h t : ℕ) (q : List A)
      → ((i : ℕ) (x : A) (n : ℕ) → h ≤ i → i < n → n ≤ t → Link i x n → Link' i x n)
      → Chain Link h t q
      → Chain Link' h t q
  Chain-agree Link Link' h t [] a e = e
  Chain-agree Link Link' h t (x ∷ q) a (n, e, l, c) = (
    n,
    a h x n (omega arith) l (Chain-le Link n t q c) e,
    l,
    Chain-agree Link Link' n t q (λ i y m b d f. a i y m (omega arith) d f) c,
  )

  pub Chain-snoc :
      (Link Link' : ℕ → A → ℕ → Type 0) (h t f : ℕ) (q : List A) (x : A)
      → ((i : ℕ) (x : A) (n : ℕ) → h ≤ i → i < n → n ≤ t → Link i x n → Link' i x n)
      → Link' t x f
      → t < f
      → Chain Link h t q
      → Chain Link' h f (q ++ x ∷ [])
  Chain-snoc Link Link' h t f [] x a p l e =
      (f, subst (λ i. Link' i x f) (sym e) p, omega arith, refl)
  Chain-snoc Link Link' h t f (y ∷ q) x a p l (n, e, k, c) = (
    n,
    a h y n (omega arith) k (Chain-le Link n t q c) e,
    k,
    Chain-snoc Link Link' n t f q x (λ i y m b d f. a i y m (omega arith) d f) p l c,
  )

  -- The last link of a list that is not empty.
  abbrev pub Unsnoc : (ℕ → A → ℕ → Type 0) → ℕ → ℕ → List A → Type 0
  Unsnoc Link h t q =
      (r : List A) × (y : A) × (i : ℕ) × (q ≡ r ++ y ∷ []) × Chain Link h i r × Link i y t × (i < t)

  pub Chain-Unsnoc :
      (Link : ℕ → A → ℕ → Type 0) (h t : ℕ) (x : A) (q : List A)
      → Chain Link h t (x ∷ q)
      → Unsnoc Link h t (x ∷ q)
  Chain-Unsnoc Link h t x [] (n, e, l, c) =
      ([], x, h, refl, refl, subst (λ k. Link h x k) c e, omega arith)
  Chain-Unsnoc Link h t x (y ∷ q) (n, e, l, c) =
      let (r, z, i, p, d, f, k) = Chain-Unsnoc Link n t y q c in
      (x ∷ r, z, i, ap (λ s. x ∷ s) p, (n, e, l, d), f, k)
