-- ===== src/Algorithms/ForEach/Tests.antt =====
-- The loops of parallen_for_each.h on concrete ranges.
use mathlib.Core.List.{Perm}
use boost_net_programing.Base.{
  ℕ, zero, suc, ◌<◌, ◌≤◌, arith, length, ◌≡◌, refl, some, List, [], ◌∷◌,
}
use boost_net_programing.Algorithms.Turns.{turns}
use boost_net_programing.Algorithms.ForEach.Ends.{parallel_for_each-ends}
use boost_net_programing.Algorithms.Blocks.{max_threads, num_threads, block_size, cut, blocks}
use boost_net_programing.Algorithms.ForEach.{Walk, walk, parallel_for_each, async_for_each}
use boost_net_programing.Algorithms.ForEach.Once.{Joined, async_for_each-perm}

abbrev range : List ℕ
range = 3 ∷ 4 ∷ []

async_for_each-perm_example :
    (w : Walk ℕ) × (async_for_each range ≡ some w)
    × ((is : List ℕ) → Joined (walk is w) → Perm (walk is w).visited range)
async_for_each-perm_example = async_for_each-perm range

one_block : length (parallel_for_each 8 range).todo ≡ 1
unfolding parallel_for_each blocks cut block_size num_threads max_threads
one_block = refl

enough_turns : (i : ℕ) → i < length (parallel_for_each 8 range).todo → 2 ≤ turns i (0 ∷ 1 ∷ 0 ∷ [])
enough_turns zero h = omega arith
enough_turns (suc i) h = absurd (omega (arith, one_block))

parallel_for_each-ends_example :
    Joined (walk (0 ∷ 1 ∷ 0 ∷ []) (parallel_for_each 8 range))
    × Perm (walk (0 ∷ 1 ∷ 0 ∷ []) (parallel_for_each 8 range)).visited range
parallel_for_each-ends_example = parallel_for_each-ends 8 range (0 ∷ 1 ∷ 0 ∷ []) enough_turns
