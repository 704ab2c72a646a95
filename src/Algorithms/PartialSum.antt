-- ===== src/Algorithms/PartialSum.antt =====
-- Concurrent/day21-ParallenAlgorithm/day21-ParallenAlgorithm/parallen_sum.h: partial sums in blocks,
-- each of which waits for the last sum of the one before.
pub mod Sequential
mod Tests
use boost_net_programing.Base.{
  ℕ, zero, suc, ◌≡◌, Option, none, some, List, [], ◌∷◌, ◌++◌, map, Result, ok, threw, underrun,
  fault, ◌>>=◌,
}
use boost_net_programing.Algorithms.Blocks.{blocks}

-- The addition of the element type.
pub record Addition {ℓ} (A : Type ℓ) : Type ℓ where
  pub plus : A → A → A
  pub plus_assoc : (a b c : A) → plus (plus a b) c ≡ plus a (plus b c)
  pub plus_comm : (a b : A) → plus a b ≡ plus b a

-- The elements before the last one, and the last one; `*last` of an empty block is out of bounds.
unfoldable pub split_last {ℓ} : {A : Type ℓ} → List A → Result (List A × A)
split_last [] = fault
split_last (x ∷ []) = ok ([], x)
split_last (x ∷ y ∷ xs) = split_last (y ∷ xs) >>= λ r. ok (x ∷ r.0, r.1)

module _ {ℓ} {A : Type ℓ} (add : Addition A) where
  open add use {plus}

  -- `std::partial_sum`.
  abbrev pub sums : A → List A → List A
  sums acc [] = []
  sums acc (x ∷ xs) = plus acc x ∷ sums (plus acc x) xs

  abbrev pub partial_sum : List A → List A
  partial_sum [] = []
  partial_sum (x ∷ xs) = x ∷ sums x xs

  -- Steps 3 to 8 of `process_chunk`: the block, and the value that `end_value` is set to.
  unfoldable pub add_previous : Option A → List A → A → List A × A
  add_previous none front last = (front ++ last ∷ [], last)
  add_previous (some addend) front last =
      (map (λ item. plus item addend) front ++ plus last addend ∷ [], plus last addend)

  unfoldable pub process_chunk : List A → Option A → Result (List A × A)
  process_chunk block previous = do
    (front, last) ← split_last (partial_sum block)
    ok (add_previous previous front last)

  -- Each thread has the future of the one before; the caller does the last block.
  unfoldable pub process_chunks : List (List A) → Option A → Result (List A)
  process_chunks [] previous = ok []
  process_chunks (b ∷ bs) previous = do
    (done, last) ← process_chunk b previous
    rest ← process_chunks bs (some last)
    ok (done ++ rest)

  unfoldable pub parallel_partial_sum : ℕ → List A → Result (List A)
  parallel_partial_sum hardware [] = ok []
  parallel_partial_sum hardware (x ∷ xs) = process_chunks (blocks hardware (x ∷ xs)) none
