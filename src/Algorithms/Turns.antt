-- ===== src/Algorithms/Turns.antt =====
-- Schedules of the threads in Concurrent/day21-ParallenAlgorithm: each number is the thread whose turn
-- it is.
use boost_net_programing.Base.{ℕ, ◌+◌, List, [], ◌∷◌, if◌then◌else◌, ◌==◌}

-- How many turns the `i`-th thread has.
abbrev pub turns : ℕ → List ℕ → ℕ
turns i [] = 0
turns i (n ∷ ns) = (if n == i then 1 else 0) + turns i ns
