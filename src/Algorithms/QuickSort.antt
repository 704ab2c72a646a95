-- ===== src/Algorithms/QuickSort.antt =====
-- Concurrent/day19-parallensort/parallen_sort.h: `sequential_quick_sort`. `async_quick_sort` is the same
-- with the lower part in another thread, on a list of its own.
pub mod Sorts
mod Tests
use mathlib.Core.List.{Perm}
use boost_net_programing.Base.{
  ℕ, zero, suc, ◌+◌, ◌≡◌, Bool, true, false, Option, none, some, List, [], ◌∷◌, ◌++◌, All, length,
}

-- `operator<` of the element type.
pub record Order {ℓ} (A : Type ℓ) : Type ℓ where
  pub lt : A → A → Bool
  pub lt_asymm : (a b : A) → lt a b ≡ true → lt b a ≡ false
  pub ge_trans : (a b c : A) → lt a b ≡ false → lt b c ≡ false → lt a c ≡ false

-- `std::partition`: the elements that pass the test and the others, which leaves the order within the
-- parts open. `parts_keep` says once more that a part has only elements of the list.
pub record Partition {ℓ} (A : Type ℓ) : Type ℓ where
  pub parts : (A → Bool) → List A → List A × List A
  pub parts_pass : (p : A → Bool) (l : List A) → All (λ a. p a ≡ true) (parts p l).0
  pub parts_fail : (p : A → Bool) (l : List A) → All (λ a. p a ≡ false) (parts p l).1
  pub parts-perm : (p : A → Bool) (l : List A) → Perm ((parts p l).0 ++ (parts p l).1) l
  pub parts-length :
      (p : A → Bool) (l : List A) → length (parts p l).0 + length (parts p l).1 ≡ length l
  pub parts_keep :
      (p q : A → Bool) (c : Bool) (l : List A)
      → All (λ a. q a ≡ c) l
      → All (λ a. q a ≡ c) (parts p l).0 × All (λ a. q a ≡ c) (parts p l).1

abbrev pub then_sorted {ℓ κ} : {A : Type ℓ} {B : Type κ} → Option A → (A → Option B) → Option B
then_sorted none f = none
then_sorted (some a) f = f a

-- `none` is a lack of fuel. The pivot is the first element; the parts are spliced round it.
unfoldable pub sequential_quick_sort {ℓ} :
    {A : Type ℓ} → Order A → Partition A → ℕ → List A → Option (List A)
sequential_quick_sort o std fuel [] = some []
sequential_quick_sort o std zero (x ∷ xs) = none
sequential_quick_sort o std (suc fuel) (pivot ∷ input) =
    let divided = std.parts (λ t. o.lt t pivot) input in
    then_sorted (sequential_quick_sort o std fuel divided.0) (λ new_lower.
      then_sorted (sequential_quick_sort o std fuel divided.1)
        (λ new_higher. some (new_lower ++ (pivot ∷ [] ++ new_higher))))
