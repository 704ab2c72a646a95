-- ===== src/Algorithms/ForEach.antt =====
-- Concurrent/day21-ParallenAlgorithm/day21-ParallenAlgorithm/parallen_for_each.h: a function called on
-- each element by threads in any interleaving.
pub mod Once
pub mod Ends
mod Tests
use boost_net_programing.Base.{
  ℕ, zero, suc, ◌*◌, ◌/◌, Option, none, some, List, [], ◌∷◌, ◌++◌, if◌then◌else◌, ltb, length, take,
  drop,
}
use boost_net_programing.Algorithms.Blocks.{blocks}

-- `todo` has what is left of each thread's block, and `visited` the elements that the function was
-- called on.
pub record Walk {ℓ} (A : Type ℓ) : Type ℓ where
  pub todo : List (List A)
  pub visited : List A

abbrev pub then_option {ℓ κ} : {A : Type ℓ} {B : Type κ} → Option A → (A → Option B) → Option B
then_option none f = none
then_option (some a) f = f a

module _ {ℓ} {A : Type ℓ} where
  -- The next element of the `i`-th thread, if it has one.
  unfoldable pub next_of : ℕ → List (List A) → Option (A × List (List A))
  next_of i [] = none
  next_of zero ([] ∷ ts) = none
  next_of zero ((x ∷ b) ∷ ts) = some (x, b ∷ ts)
  next_of (suc i) (b ∷ ts) = then_option (next_of i ts) (λ r. some (r.0, b ∷ r.1))

  unfoldable pub visit : Option (A × List (List A)) → Walk A → Walk A
  visit none w = w
  visit (some (x, todo)) w = record { todo = todo; visited = w.visited ++ x ∷ [] }

  -- `std::for_each` of each thread, one call at a time, in the order of the schedule.
  unfoldable pub walk : List ℕ → Walk A → Walk A
  unfolding visit
  walk [] w = w
  walk (i ∷ is) w = walk is (visit (next_of i w.todo) w)

  -- `parallel_for_each`: its threads when they start.
  unfoldable pub parallel_for_each : ℕ → List A → Walk A
  parallel_for_each hardware [] = record { todo = []; visited = [] }
  parallel_for_each hardware (x ∷ xs) = record { todo = blocks hardware (x ∷ xs); visited = [] }

  -- `async_for_each` halves a range of 50 elements or more; each part is a task. `none` is a lack of
  -- fuel.
  unfoldable pub halves : ℕ → List A → Option (List (List A))
  halves zero xs = none
  halves (suc fuel) xs =
      let first_half = halves fuel (take (length xs / 2) xs) in
      let second_half = halves fuel (drop (length xs / 2) xs) in
      if ltb (length xs) (2 * 25)
      then some (xs ∷ [])
      else then_option first_half (λ l. then_option second_half (λ r. some (l ++ r)))

  unfoldable pub async_for_each : List A → Option (Walk A)
  async_for_each [] = some (record { todo = []; visited = [] })
  async_for_each (x ∷ xs) =
      then_option (halves (length (x ∷ xs)) (x ∷ xs))
        (λ bs. some (record { todo = bs; visited = [] }))
