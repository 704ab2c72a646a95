-- ===== src/Containers/CircularQue/Fifo.antt =====
-- A queue of at most `cap` values, oldest first: what a circular queue stands for.
use boost_net_programing.Base.{
  ℕ, Bool, true, false, Option, none, some, List, [], ◌∷◌, ◌++◌, if◌then◌else◌, ◌==◌, length,
}

module _ {ℓ} {A : Type ℓ} where
  unfoldable pub fifo_push : ℕ → A → List A → List A × Bool
  fifo_push cap x q = if length q == cap then (q, false) else (q ++ x ∷ [], true)

  unfoldable pub fifo_pop : List A → List A × Option A
  fifo_pop [] = ([], none)
  fifo_pop (x ∷ q) = (q, some x)
