-- ===== src/Containers/LookupTable/Tests.antt =====
-- The hash table of Concurrent/day15-threadsafehash at concrete inputs: numbers as keys, their own
-- hashes, and three buckets.
use boost_net_programing.Base.{ℕ, ◌≡◌, none, List, [], ◌∷◌, ◌==◌, arith, ==_refl, eq_of_==, ok}
use boost_net_programing.Containers.LookupTable.{Key, make_table, find, get_map}
use boost_net_programing.Containers.LookupTable.Runs.{
  Call, adds, removes, asks, calls, answers, map_after, calls-make_table,
}

abbrev number : Key ℕ
number = record { hash = λ k. k; same = λ j k. j == k; same_refl = ==_refl; same_eq = eq_of_== }

-- 4 and 7 share a bucket.
abbrev traffic : List (Call ℕ ℕ)
traffic = adds 4 40 ∷ adds 7 70 ∷ asks 7 0 ∷ adds 4 44 ∷ removes 7 ∷ asks 7 1 ∷ asks 4 2 ∷ []

calls-make_table_example :
    (t : List (List (ℕ × ℕ))) × (calls number traffic (make_table number 3)
      ≡ ok (t, answers number traffic (λ _. none)))
    × ((k : ℕ) → find number k (get_map number t) ≡ map_after number traffic (λ _. none) k)
calls-make_table_example = calls-make_table number 3 traffic (omega arith)
