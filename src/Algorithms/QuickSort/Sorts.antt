-- ===== src/Algorithms/QuickSort/Sorts.antt =====
-- The list sort of Concurrent/day19-parallensort/parallen_sort.h sorts.
use mathlib.Core.List.{Perm, perm_middle}
use mathlib.Core.List.Perm
use boost_net_programing.Base.{
  ℕ, zero, suc, ◌+◌, ◌≤◌, ◌≡◌, refl, Bool, true, false, some, List, [], ◌∷◌, ◌++◌, All, All-append,
  All-map, length, arith,
}
use boost_net_programing.Algorithms.QuickSort.{Order, Partition, sequential_quick_sort}

module _ {ℓ} {A : Type ℓ} (o : Order A) where
  -- No later element is less than an earlier one.
  abbrev pub IsSorted : List A → Type 0
  IsSorted [] = Unit
  IsSorted (x ∷ xs) = All (λ y. o.lt y x ≡ false) xs × IsSorted xs

  -- The lower part, the pivot, the higher part.
  IsSorted-around :
      (x : A) (low high : List A)
      → IsSorted low
      → IsSorted high
      → All (λ a. o.lt a x ≡ true) low
      → All (λ a. o.lt a x ≡ false) high
      → IsSorted (low ++ x ∷ high)
  IsSorted-around x [] high sl sh l h = (h, sh)
  IsSorted-around x (a ∷ low) high sl sh l h =
      let below : o.lt x a ≡ false = o.lt_asymm a x l.0 in
      (
        All-append (λ y. o.lt y a ≡ false) low (x ∷ high) sl.0
            (
              below,
              All-map (λ y. o.lt y x ≡ false) (λ y. o.lt y a ≡ false)
                  (λ y g. o.ge_trans y x a g below) high h,
            ),
        IsSorted-around x low high sl.1 sh l.1 h,
      )

  module _ (std : Partition A) where
    -- What a call returns.
    record Sorts (fuel : ℕ) (xs : List A) : Type ℓ where
      result : List A
      returns : sequential_quick_sort o std fuel xs ≡ some result
      sorted : IsSorted result
      perm : Perm result xs
      keeps : (q : A → Bool) (c : Bool) → All (λ a. q a ≡ c) xs → All (λ a. q a ≡ c) result

    sorts : (fuel : ℕ) (xs : List A) → length xs ≤ fuel → Sorts fuel xs
    unfolding sequential_quick_sort
    sorts fuel [] h = record {
      result = [];
      returns = refl;
      sorted = tt;
      perm = Perm.rfl;
      keeps = λ q c a. tt;
    }
    sorts zero (x ∷ xs) h = absurd (omega arith)
    sorts (suc fuel) (x ∷ xs) h =
        let p = λ (t : A). o.lt t x in
        let d = std.parts p xs in
        let len : length d.0 + length d.1 ≡ length xs = std.parts-length p xs in
        let low = sorts fuel d.0 (omega arith) in
        let high = sorts fuel d.1 (omega arith) in
        record {
          result = low.result ++ x ∷ high.result;
          returns = rw (low.returns, high.returns) refl;
          sorted =
              IsSorted-around x low.result high.result low.sorted high.sorted
                (low.keeps p true (std.parts_pass p xs)) (high.keeps p false (std.parts_fail p xs));
          perm =
              Perm.trans (perm_middle low.result high.result)
                (Perm.cons x (Perm.trans (Perm.append low.perm high.perm) (std.parts-perm p xs)));
          keeps = λ q c a.
              All-append (λ a. q a ≡ c) low.result (x ∷ high.result)
                (low.keeps q c (std.parts_keep p q c xs a.1).0)
                (a.0, high.keeps q c (std.parts_keep p q c xs a.1).1);
        }

    -- With fuel for the length of the list, `sequential_quick_sort` returns a list of the same elements,
    -- each as often, in which no later one is less than an earlier one.
    pub sequential_quick_sort-IsSorted :
        (xs : List A)
        → (r : List A) × (sequential_quick_sort o std (length xs) xs ≡ some r)
          × IsSorted r
          × Perm r xs
    sequential_quick_sort-IsSorted xs =
        let s = sorts (length xs) xs (omega arith) in (s.result, s.returns, s.sorted, s.perm)
