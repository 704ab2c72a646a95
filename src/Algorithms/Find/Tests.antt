-- ===== src/Algorithms/Find/Tests.antt =====
-- `parallel_find` on a concrete range.
use boost_net_programing.Base.{
  ℕ, zero, suc, ◌<◌, ◌≤◌, ◌==◌, arith, length, replicate, ◌≡◌, refl, Bool, some, List, [], ◌∷◌, All,
}
use boost_net_programing.Algorithms.Turns.{turns}
use boost_net_programing.Algorithms.Find.Ends.{parallel_find-ends}
use boost_net_programing.Algorithms.Blocks.{max_threads, num_threads, block_size, cut, blocks}
use boost_net_programing.Algorithms.Find.{
  set_value, advance, advance_at, search_all, finders, parallel_find, unset, answer,
}
use boost_net_programing.Algorithms.Find.Found.{IsEnded, Answers}

abbrev is_seven : ℕ → Bool
is_seven n = n == 7

abbrev range : List ℕ
range = 5 ∷ 7 ∷ 7 ∷ []

abbrev schedule : List ℕ
schedule = 0 ∷ 0 ∷ 0 ∷ 0 ∷ 0 ∷ []

range_found : answer (search_all is_seven schedule (parallel_find 4 range) unset).1 ≡ some 1
unfolding answer search_all advance_at advance set_value parallel_find finders blocks cut block_size
    num_threads max_threads
range_found = refl

one_finder : length (parallel_find 4 range) ≡ 1
unfolding parallel_find finders blocks cut block_size num_threads max_threads
one_finder = refl

enough_turns : (i : ℕ) → i < length (parallel_find 4 range) → 7 ≤ turns i (replicate 7 0)
enough_turns zero h = omega arith
enough_turns (suc i) h = absurd (omega (arith, one_finder))

parallel_find-ends_example :
    All IsEnded (search_all is_seven (replicate 7 0) (parallel_find 4 range) unset).0
    × Answers is_seven range
        (answer (search_all is_seven (replicate 7 0) (parallel_find 4 range) unset).1)
parallel_find-ends_example = parallel_find-ends is_seven 4 range (replicate 7 0) enough_turns
