-- ===== src/Algorithms/Find/Ends.antt =====
-- The threads of `parallel_find` in Concurrent/day21-ParallenAlgorithm return, whatever the others do.
use boost_net_programing.Base.{
  ℕ, zero, suc, ◌+◌, ◌-◌, ◌*◌, ◌≤◌, ◌<◌, ◌≡◌, refl, subst, ltb, ltb→lt, ltb→le, Bool-cases, inl,
  inr, Bool, Option, none, some, List, [], ◌∷◌, if◌then◌else◌, ◌==◌, length, length-append, All,
  arith,
}
use boost_net_programing.Algorithms.Blocks.{blocks}
use boost_net_programing.Algorithms.Blocks.Cover.{concat, concat-blocks}
use boost_net_programing.Algorithms.Turns.{turns}
use boost_net_programing.Algorithms.Find.{
  Finder, loads, compares, stores, ended, Shared, set_value, advance, advance_at, search_all,
  finders, parallel_find, unset, answer,
}
use boost_net_programing.Algorithms.Find.Found.{IsEnded, Answers, parallel_find-Answers}

module _ {A : Type 0} where
  -- At most so many steps are left to a thread.
  abbrev pub left : Finder A → ℕ
  left (loads i b) = 2 * length b + 1
  left (compares i x b) = 2 * length b + 2
  left stores = 1
  left ended = 0

  abbrev pub left_at : ℕ → List (Finder A) → ℕ
  left_at i [] = 0
  left_at zero (t ∷ ts) = left t
  left_at (suc i) (t ∷ ts) = left_at i ts

  none_left : (ts : List (Finder A)) → ((i : ℕ) → left_at i ts ≤ 0) → All IsEnded ts
  none_left [] h = tt
  none_left (loads i b ∷ ts) h = absurd (omega (arith, h 0))
  none_left (compares i x b ∷ ts) h = absurd (omega (arith, h 0))
  none_left (stores ∷ ts) h = absurd (omega (arith, h 0))
  none_left (ended ∷ ts) h = (tt, none_left ts (λ i. h (suc i)))

  left_at-finders :
      (i k : ℕ) (bs : List (List A)) → left_at i (finders k bs) ≤ 2 * length (concat bs) + 1
  unfolding finders
  left_at-finders i k [] = omega arith
  left_at-finders zero k (b ∷ bs) = omega (arith, length-append b (concat bs))
  left_at-finders (suc i) k (b ∷ bs) =
      omega (arith, length-append b (concat bs), left_at-finders i (k + length b) bs)

  left_at-parallel_find :
      (i hardware : ℕ) (xs : List A) → left_at i (parallel_find hardware xs) ≤ 2 * length xs + 1
  unfolding parallel_find
  left_at-parallel_find i hardware [] = omega arith
  left_at-parallel_find i hardware (x ∷ xs) =
      subst (λ l. left_at i (finders 0 (blocks hardware (x ∷ xs))) ≤ 2 * length l + 1)
        (concat-blocks hardware (x ∷ xs)) (left_at-finders i 0 (blocks hardware (x ∷ xs)))

  left_at_past : (i : ℕ) (ts : List (Finder A)) → length ts ≤ i → left_at i ts ≡ 0
  left_at_past i [] h = refl
  left_at_past zero (t ∷ ts) h = absurd (omega arith)
  left_at_past (suc i) (t ∷ ts) h = left_at_past i ts (omega arith)

  left_at-le :
      (ts : List (Finder A)) (m : ℕ) (ns : List ℕ)
      → ((i : ℕ) → left_at i ts ≤ m)
      → ((i : ℕ) → i < length ts → m ≤ turns i ns)
      → (i : ℕ) → left_at i ts ≤ turns i ns
  left_at-le ts m ns l h i = elim (Bool-cases (ltb i (length ts))) [
    | inl e ↦ omega (arith, l i, h i (ltb→lt i (length ts) e))
    | inr e ↦ omega (arith, left_at_past i ts (ltb→le i (length ts) e))
  ]

left-set_value :
    (A : Type 0) (p : Option ℕ) (i : ℕ) (sh : Shared) → left (set_value {A = A} p i sh).0 ≤ 1
unfolding set_value
left-set_value A none i sh = omega arith
left-set_value A (some j) i sh = omega arith

module _ {A : Type 0} (match : A → Bool) where
  left-advance : (t : Finder A) (sh : Shared) → left (advance match t sh).0 ≤ left t - 1
  unfolding advance
  left-advance (loads i []) sh = omega arith
  left-advance (loads i (x ∷ b)) sh = ground arith
  left-advance (compares i x b) sh = ground (arith, left-set_value A sh.result i sh)
  left-advance stores sh = omega arith
  left-advance ended sh = omega arith

  left_at-advance_at :
      (i n : ℕ) (ts : List (Finder A)) (sh : Shared)
      → left_at i (advance_at match n ts sh).0 ≤ left_at i ts - (if n == i then 1 else 0)
  unfolding advance_at
  left_at-advance_at i n [] sh = omega arith
  left_at-advance_at zero zero (t ∷ ts) sh = left-advance t sh
  left_at-advance_at (suc i) zero (t ∷ ts) sh = ground arith
  left_at-advance_at zero (suc n) (t ∷ ts) sh = ground arith
  left_at-advance_at (suc i) (suc n) (t ∷ ts) sh = ground (arith, left_at-advance_at i n ts sh)

  search_all-IsEnded :
      (ns : List ℕ) (ts : List (Finder A)) (sh : Shared)
      → ((i : ℕ) → left_at i ts ≤ turns i ns)
      → All IsEnded (search_all match ns ts sh).0
  unfolding search_all
  search_all-IsEnded [] ts sh h = none_left ts h
  search_all-IsEnded (n ∷ ns) ts sh h =
      search_all-IsEnded ns (advance_at match n ts sh).0 (advance_at match n ts sh).1
        (λ i. omega (arith, left_at-advance_at i n ts sh, h i))

  -- When each thread has had two turns for each element of the range and one more, all of them have
  -- returned, whatever the order of the turns, and the answer is the place of an element that matches,
  -- or `last` if none does.
  pub parallel_find-ends :
      (hardware : ℕ) (xs : List A) (ns : List ℕ)
      → ((i : ℕ) → i < length (parallel_find hardware xs) → 2 * length xs + 1 ≤ turns i ns)
      → All IsEnded (search_all match ns (parallel_find hardware xs) unset).0
        × Answers match xs (answer (search_all match ns (parallel_find hardware xs) unset).1)
  parallel_find-ends hardware xs ns h =
      let e = search_all-IsEnded ns (parallel_find hardware xs) unset (
        left_at-le (parallel_find hardware xs) (2 * length xs + 1) ns
          (λ i. left_at-parallel_find i hardware xs) h) in
      (e, parallel_find-Answers match hardware xs ns e)
