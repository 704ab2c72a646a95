-- ===== src/Algorithms/ForEach/Once.antt =====
-- The loops of Concurrent/day21-ParallenAlgorithm/day21-ParallenAlgorithm/parallen_for_each.h call the
-- function once on each element.
use mathlib.Core.List.{Perm, perm_middle}
use mathlib.Core.List.Perm
use boost_net_programing.Base.{
  ℕ, zero, suc, ◌/◌, ◌≤◌, ◌<◌, ◌≡◌, refl, sym, ap, ap₂, subst, ◌∙◌, Option, none, some, List, [],
  ◌∷◌, ◌++◌, ltb, ltb→le, length, take, drop, take-append-drop, length-take, length-drop,
  append_assoc, append-nil, arith, Bool-cases, inl, inr,
}
use boost_net_programing.Algorithms.Blocks.Cover.{concat, concat-blocks}
use boost_net_programing.Algorithms.ForEach.{
  Walk, then_option, next_of, visit, walk, parallel_for_each, halves, async_for_each,
}

module _ {ℓ} {A : Type ℓ} where
  -- What the threads have done and have to do is, in some order, the range.
  abbrev Splits : Walk A → List A → Type ℓ
  Splits w xs = Perm (w.visited ++ concat w.todo) xs

  -- What the choice of a next element leaves.
  abbrev Popped : Option (A × List (List A)) → List (List A) → Type ℓ
  Popped none ts = Unit
  Popped (some (x, ts')) ts = Perm (x ∷ concat ts') (concat ts)

  under :
      (b : List A) (r : Option (A × List (List A))) (ts : List (List A))
      → Popped r ts
      → Popped (then_option r (λ r. some (r.0, b ∷ r.1))) (b ∷ ts)
  under b none ts p = tt
  under b (some (x, ts')) ts p =
      Perm.trans (Perm.symm (perm_middle b (concat ts'))) (Perm.append_left b p)

  next_of-Popped : (i : ℕ) (ts : List (List A)) → Popped (next_of i ts) ts
  unfolding next_of
  next_of-Popped i [] = tt
  next_of-Popped zero ([] ∷ ts) = tt
  next_of-Popped zero ((x ∷ b) ∷ ts) = Perm.rfl
  next_of-Popped (suc i) (b ∷ ts) = under b (next_of i ts) ts (next_of-Popped i ts)

  visit-Splits :
      (r : Option (A × List (List A))) (w : Walk A) (xs : List A)
      → Popped r w.todo
      → Splits w xs
      → Splits (visit r w) xs
  unfolding visit
  visit-Splits none w xs p s = s
  visit-Splits (some (x, ts)) w xs p s =
      rw (append_assoc w.visited (x ∷ []) (concat ts)) (Perm.trans (Perm.append_left w.visited p) s)

  walk-Splits : (is : List ℕ) (w : Walk A) (xs : List A) → Splits w xs → Splits (walk is w) xs
  unfolding walk
  walk-Splits [] w xs s = s
  walk-Splits (i ∷ is) w xs s =
      walk-Splits is (visit (next_of i w.todo) w) xs
        (visit-Splits (next_of i w.todo) w xs (next_of-Popped i w.todo) s)

  -- No thread has anything left.
  abbrev pub Joined : Walk A → Type ℓ
  Joined w = concat w.todo ≡ []

  joined-perm :
      (is : List ℕ) (w : Walk A) (xs : List A)
      → Joined (walk is w)
      → Splits w xs
      → Perm (walk is w).visited xs
  joined-perm is w xs e s =
      subst (λ l. Perm l xs) (ap (λ l. (walk is w).visited ++ l) e ∙ append-nil (walk is w).visited)
        (walk-Splits is w xs s)

  -- In every interleaving of its threads: when all of them are joined, `parallel_for_each` has called
  -- the function once on each element, in some order.
  pub parallel_for_each-perm :
      (hardware : ℕ) (xs : List A) (is : List ℕ)
      → Joined (walk is (parallel_for_each hardware xs))
      → Perm (walk is (parallel_for_each hardware xs)).visited xs
  unfolding parallel_for_each
  parallel_for_each-perm hardware [] is j =
      joined-perm is (parallel_for_each hardware []) [] j Perm.rfl
  parallel_for_each-perm hardware (x ∷ xs) is j =
      joined-perm is (parallel_for_each hardware (x ∷ xs)) (x ∷ xs) j
        (rw (concat-blocks hardware (x ∷ xs)) Perm.rfl)

  concat-append : (bs cs : List (List A)) → concat (bs ++ cs) ≡ concat bs ++ concat cs
  concat-append [] cs = refl
  concat-append (b ∷ bs) cs =
      ap (λ l. b ++ l) (concat-append bs cs) ∙ sym (append_assoc b (concat bs) (concat cs))

  -- The fuel is enough, and the parts cover the range.
  halves-concat :
      (fuel : ℕ) (xs : List A)
      → 0 < fuel
      → length xs ≤ fuel
      → (bs : List (List A)) × (halves fuel xs ≡ some bs) × (concat bs ≡ xs)
  unfolding halves
  halves-concat zero xs pos h = absurd (omega arith)
  halves-concat (suc fuel) xs pos h = elim (Bool-cases (ltb (length xs) 50)) [
    | inl e ↦ (xs ∷ [], rw e refl, append-nil xs)
    | inr e ↦
        let big : 50 ≤ length xs = ltb→le (length xs) 50 e in
        let (l, p, pe) =
          halves-concat fuel (take (length xs / 2) xs) (omega arith)
            (omega (arith, length-take (length xs / 2) xs)) in
        let (r, q, qe) =
          halves-concat fuel (drop (length xs / 2) xs) (omega arith)
            (omega (arith, length-drop (length xs / 2) xs)) in
        (
          l ++ r,
          rw (e, p, q) refl,
          concat-append l r ∙ ap₂ ◌++◌ pe qe ∙ take-append-drop (length xs / 2) xs,
        )
  ]

  -- `async_for_each` ends its halving, and in every interleaving of its tasks, when all of them are
  -- done, the function was called once on each element, in some order.
  pub async_for_each-perm :
      (xs : List A)
      → (w : Walk A) × (async_for_each xs ≡ some w)
        × ((is : List ℕ) → Joined (walk is w) → Perm (walk is w).visited xs)
  unfolding async_for_each
  async_for_each-perm [] =
      let w : Walk A = record { todo = []; visited = [] } in
      (w, refl, λ is j. joined-perm is w [] j Perm.rfl)
  async_for_each-perm (x ∷ xs) =
      let (bs, e, c) = halves-concat (length (x ∷ xs)) (x ∷ xs) (omega arith) (omega arith) in
      let w : Walk A = record { todo = bs; visited = [] } in
      (w, rw e refl, λ is j. joined-perm is w (x ∷ xs) j (rw c Perm.rfl))
