-- ===== src/Algorithms/Blocks.antt =====
-- How the algorithms of Concurrent/day21-ParallenAlgorithm/day21-ParallenAlgorithm split a range:
-- parallen_for_each.h, parallen_find.h and parallen_sum.h begin alike.
pub mod Cover
use boost_net_programing.Base.{
  ℕ, zero, suc, ◌+◌, ◌-◌, ◌*◌, ◌/◌, min, List, [], ◌∷◌, if◌then◌else◌, ◌==◌, length, take, drop,
}

-- At least 25 elements to a thread.
unfoldable pub max_threads : ℕ → ℕ
max_threads length = (length + 25 - 1) / 25

-- `hardware` is `hardware_concurrency()`, which may be 0.
unfoldable pub num_threads : ℕ → ℕ → ℕ
unfolding max_threads
num_threads hardware length = min (if hardware == 0 then 2 else hardware) (max_threads length)

unfoldable pub block_size : ℕ → ℕ → ℕ
block_size hardware length = length / num_threads hardware length

-- `n` blocks of `size` elements, then the rest.
unfoldable pub cut {ℓ} : {A : Type ℓ} → ℕ → ℕ → List A → List (List A)
cut zero size rest = rest ∷ []
cut (suc n) size rest = take size rest ∷ cut n size (drop size rest)

-- The blocks of a range that is not empty: one for each further thread, and the caller's.
unfoldable pub blocks {ℓ} : {A : Type ℓ} → ℕ → List A → List (List A)
blocks hardware xs = cut (num_threads hardware (length xs) - 1) (block_size hardware (length xs)) xs
