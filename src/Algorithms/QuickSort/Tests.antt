-- ===== src/Algorithms/QuickSort/Tests.antt =====
-- The list sort on numbers, with a partition that keeps the order of the elements.
use mathlib.Core.List.{Perm, perm_middle}
use mathlib.Core.List.Perm
use boost_net_programing.Base.{
  ℕ, ◌+◌, ◌≡◌, Bool, true, false, Bool-cases, inl, inr, some, List, [], ◌∷◌, ◌++◌, if◌then◌else◌,
  ltb, All, length, arith,
}
use boost_net_programing.Algorithms.QuickSort.{Order, Partition, sequential_quick_sort}
use boost_net_programing.Algorithms.QuickSort.Sorts.{IsSorted, sequential_quick_sort-IsSorted}

module _ {ℓ} {A : Type ℓ} where
  -- The elements with the answer `c`.
  abbrev only : Bool → (A → Bool) → List A → List A
  only c p [] = []
  only true p (x ∷ l) = if p x then x ∷ only true p l else only true p l
  only false p (x ∷ l) = if p x then only false p l else x ∷ only false p l

  only_pass : (p : A → Bool) (l : List A) → All (λ a. p a ≡ true) (only true p l)
  only_pass p [] = tt
  only_pass p (x ∷ l) = elim (Bool-cases (p x)) [
    | inl e ↦ rw e (e, only_pass p l)
    | inr e ↦ rw e (only_pass p l)
  ]

  only_fail : (p : A → Bool) (l : List A) → All (λ a. p a ≡ false) (only false p l)
  only_fail p [] = tt
  only_fail p (x ∷ l) = elim (Bool-cases (p x)) [
    | inl e ↦ rw e (only_fail p l)
    | inr e ↦ rw e (e, only_fail p l)
  ]

  only-perm : (p : A → Bool) (l : List A) → Perm (only true p l ++ only false p l) l
  only-perm p [] = Perm.rfl
  only-perm p (x ∷ l) = elim (Bool-cases (p x)) [
    | inl e ↦ rw e (Perm.cons x (only-perm p l))
    | inr e ↦
        rw e
          (Perm.trans (perm_middle (only true p l) (only false p l)) (Perm.cons x (only-perm p l)))
  ]

  only-length :
      (p : A → Bool) (l : List A) → length (only true p l) + length (only false p l) ≡ length l
  only-length p [] = omega arith
  only-length p (x ∷ l) = elim (Bool-cases (p x)) [
    | inl e ↦ rw e (omega (arith, only-length p l))
    | inr e ↦ rw e (omega (arith, only-length p l))
  ]

  only_keep :
      (p q : A → Bool) (c : Bool) (l : List A)
      → All (λ a. q a ≡ c) l
      → All (λ a. q a ≡ c) (only true p l) × All (λ a. q a ≡ c) (only false p l)
  only_keep p q c [] h = (tt, tt)
  only_keep p q c (x ∷ l) h = elim (Bool-cases (p x)) [
    | inl e ↦ let r = only_keep p q c l h.1 in rw e ((h.0, r.0), r.1)
    | inr e ↦ let r = only_keep p q c l h.1 in rw e (r.0, (h.0, r.1))
  ]

lt_asymm : (a b : ℕ) → ltb a b ≡ true → ltb b a ≡ false
lt_asymm a b h = ground arith

ge_trans : (a b c : ℕ) → ltb a b ≡ false → ltb b c ≡ false → ltb a c ≡ false
ge_trans a b c h k = ground arith

abbrev numbers : Order ℕ
numbers = record { lt = ltb; lt_asymm = lt_asymm; ge_trans = ge_trans }

abbrev stable : Partition ℕ
stable = record {
  parts = λ p l. (only true p l, only false p l);
  parts_pass = only_pass;
  parts_fail = only_fail;
  parts-perm = only-perm;
  parts-length = only-length;
  parts_keep = only_keep;
}

sequential_quick_sort-IsSorted_example :
    (r : List ℕ) × (sequential_quick_sort numbers stable 3 (5 ∷ 2 ∷ 5 ∷ []) ≡ some r)
    × IsSorted numbers r
    × Perm r (5 ∷ 2 ∷ 5 ∷ [])
sequential_quick_sort-IsSorted_example =
    sequential_quick_sort-IsSorted numbers stable (5 ∷ 2 ∷ 5 ∷ [])
