-- ===== src/Algorithms/ForEach/Ends.antt =====
-- The loops of Concurrent/day21-ParallenAlgorithm/day21-ParallenAlgorithm/parallen_for_each.h come to
-- an end when each thread has had turns enough.
use mathlib.Core.List.{Perm}
use boost_net_programing.Base.{
  ℕ, zero, suc, ◌-◌, ◌≤◌, ◌<◌, ◌≡◌, refl, subst, Option, none, some, List, [], ◌∷◌, if◌then◌else◌,
  ◌==◌, ltb, ltb→lt, ltb→le, Bool-cases, Option-cases, inl, inr, length, length-append, arith,
}
use boost_net_programing.Algorithms.Blocks.{blocks}
use boost_net_programing.Algorithms.Blocks.Cover.{concat, concat-blocks}
use boost_net_programing.Algorithms.Turns.{turns}
use boost_net_programing.Algorithms.ForEach.{Walk, next_of, visit, walk, parallel_for_each}
use boost_net_programing.Algorithms.ForEach.Once.{Joined, parallel_for_each-perm}

module _ {ℓ} {A : Type ℓ} where
  abbrev size_at : ℕ → List (List A) → ℕ
  size_at i [] = 0
  size_at zero (b ∷ ts) = length b
  size_at (suc i) (b ∷ ts) = size_at i ts

  none_sized : (ts : List (List A)) → ((i : ℕ) → size_at i ts ≤ 0) → concat ts ≡ []
  none_sized [] h = refl
  none_sized ([] ∷ ts) h = none_sized ts (λ i. h (suc i))
  none_sized ((x ∷ b) ∷ ts) h = absurd (omega (arith, h 0))

  size_at_past : (i : ℕ) (ts : List (List A)) → length ts ≤ i → size_at i ts ≡ 0
  size_at_past i [] h = refl
  size_at_past zero (t ∷ ts) h = absurd (omega arith)
  size_at_past (suc i) (t ∷ ts) h = size_at_past i ts (omega arith)

  size_at-concat : (i : ℕ) (ts : List (List A)) → size_at i ts ≤ length (concat ts)
  size_at-concat i [] = omega arith
  size_at-concat zero (b ∷ ts) = omega (arith, length-append b (concat ts))
  size_at-concat (suc i) (b ∷ ts) = omega (arith, length-append b (concat ts), size_at-concat i ts)

  abbrev after : Option (A × List (List A)) → List (List A) → List (List A)
  after none ts = ts
  after (some r) ts = r.1

  size_at-after :
      (i n : ℕ) (ts : List (List A))
      → size_at i (after (next_of n ts) ts) ≤ size_at i ts - (if n == i then 1 else 0)
  unfolding next_of
  size_at-after i n [] = omega arith
  size_at-after zero zero ([] ∷ ts) = omega arith
  size_at-after zero zero ((x ∷ b) ∷ ts) = omega arith
  size_at-after (suc i) zero ([] ∷ ts) = ground arith
  size_at-after (suc i) zero ((x ∷ b) ∷ ts) = ground arith
  size_at-after zero (suc n) (b ∷ ts) = elim (Option-cases (next_of n ts)) [
    | inl e ↦ rw e (ground arith)
    | inr (r, e) ↦ rw e (ground arith)
  ]
  size_at-after (suc i) (suc n) (b ∷ ts) =
      let h = size_at-after i n ts in
      elim (Option-cases (next_of n ts)) [
        | inl e ↦ rw e (
            ground (
              arith,
              subst (λ r. size_at i (after r ts) ≤ size_at i ts - (if n == i then 1 else 0)) e h,
            ))
        | inr (r, e) ↦ rw e (
            ground (
              arith,
              subst (λ r. size_at i (after r ts) ≤ size_at i ts - (if n == i then 1 else 0)) e h,
            ))
      ]

  size_at-visit :
      (i n : ℕ) (r : Option (A × List (List A))) (w : Walk A)
      → size_at i (after r w.todo) ≤ size_at i w.todo - (if n == i then 1 else 0)
      → size_at i (visit r w).todo ≤ size_at i w.todo - (if n == i then 1 else 0)
  unfolding visit
  size_at-visit i n none w h = h
  size_at-visit i n (some r) w h = h

  walk-Joined :
      (ns : List ℕ) (w : Walk A) → ((i : ℕ) → size_at i w.todo ≤ turns i ns) → Joined (walk ns w)
  unfolding walk
  walk-Joined [] w h = none_sized w.todo h
  walk-Joined (n ∷ ns) w h =
      walk-Joined ns (visit (next_of n w.todo) w)
        (λ i. omega (arith, size_at-visit i n (next_of n w.todo) w (size_at-after i n w.todo), h i))

  size_at-parallel_for_each :
      (i hardware : ℕ) (xs : List A) → size_at i (parallel_for_each hardware xs).todo ≤ length xs
  unfolding parallel_for_each
  size_at-parallel_for_each i hardware [] = omega arith
  size_at-parallel_for_each i hardware (x ∷ xs) =
      subst (λ l. size_at i (blocks hardware (x ∷ xs)) ≤ length l) (concat-blocks hardware (x ∷ xs))
        (size_at-concat i (blocks hardware (x ∷ xs)))

  -- When each thread has had a turn for each element of the range, all of them are joined, whatever
  -- the order of the turns, and `parallel_for_each` has called the function once on each element.
  pub parallel_for_each-ends :
      (hardware : ℕ) (xs : List A) (ns : List ℕ)
      → ((i : ℕ) → i < length (parallel_for_each hardware xs).todo → length xs ≤ turns i ns)
      → Joined (walk ns (parallel_for_each hardware xs))
        × Perm (walk ns (parallel_for_each hardware xs)).visited xs
  parallel_for_each-ends hardware xs ns h =
      let w = parallel_for_each hardware xs in
      let j = walk-Joined ns w (λ i. elim (Bool-cases (ltb i (length w.todo))) [
        | inl e ↦
            omega (arith, size_at-parallel_for_each i hardware xs, h i (ltb→lt i (length w.todo) e))
        | inr e ↦ omega (arith, size_at_past i w.todo (ltb→le i (length w.todo) e))
      ]) in
      (j, parallel_for_each-perm hardware xs ns j)
