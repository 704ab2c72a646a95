-- ===== src/Algorithms/PartialSum/Tests.antt =====
-- The sums of parallen_sum.h on numbers.
use native.Mathlib.Nat.{add_assoc, add_comm}
use boost_net_programing.Base.{ℕ, ◌+◌, ◌≡◌, [], ◌∷◌, ok}
use boost_net_programing.Algorithms.PartialSum.{Addition, parallel_partial_sum}
use boost_net_programing.Algorithms.PartialSum.Sequential.{parallel_partial_sum-eq-partial_sum}

abbrev numbers : Addition ℕ
numbers = record { plus = ◌+◌; plus_assoc = add_assoc; plus_comm = add_comm }

parallel_partial_sum-eq-partial_sum_example :
    parallel_partial_sum numbers 0 (3 ∷ 4 ∷ 5 ∷ []) ≡ ok (3 ∷ 7 ∷ 12 ∷ [])
parallel_partial_sum-eq-partial_sum_example =
    parallel_partial_sum-eq-partial_sum numbers 0 (3 ∷ 4 ∷ 5 ∷ [])
