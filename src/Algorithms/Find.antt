-- ===== src/Algorithms/Find.antt =====
-- Concurrent/day21-ParallenAlgorithm/day21-ParallenAlgorithm/parallen_find.h: `parallel_find`, by threads
-- that share a promise and a flag.
pub mod Tracks
pub mod Flags
pub mod Found
pub mod Ends
mod Tests
use boost_net_programing.Base.{
  ℕ, zero, suc, ◌+◌, Bool, true, false, Option, none, some, List, [], ◌∷◌, if◌then◌else◌, length,
}
use boost_net_programing.Algorithms.Blocks.{blocks}

-- Where `find_element` stands, at the element with the index that is given: before the test of the
-- loop, behind it, behind `set_value`, or returned.
pub data Finder {ℓ} (A : Type ℓ) : Type ℓ where
  loads : ℕ → List A → Finder A
  compares : ℕ → A → List A → Finder A
  stores : Finder A
  ended : Finder A

-- The promise, by the index of the iterator it was set to, and `done_flag`.
pub record Shared : Type 0 where
  pub result : Option ℕ
  pub done_flag : Bool

-- `set_value` on a promise that is set throws, `set_exception` behind it throws again, and both are
-- caught: the thread ends.
unfoldable pub set_value {ℓ} : {A : Type ℓ} → Option ℕ → ℕ → Shared → Finder A × Shared
set_value none i sh = (stores, record sh { result = some i })
set_value (some j) i sh = (ended, sh)

module _ {ℓ} {A : Type ℓ} (match : A → Bool) where
  -- One atomic step of a thread.
  unfoldable pub advance : Finder A → Shared → Finder A × Shared
  unfolding set_value
  advance (loads i []) sh = (ended, sh)
  advance (loads i (x ∷ b)) sh = (if sh.done_flag then ended else compares i x b, sh)
  advance (compares i x b) sh = if match x then set_value sh.result i sh else (loads (i + 1) b, sh)
  advance stores sh = (ended, record sh { done_flag = true })
  advance ended sh = (ended, sh)

  -- The `n`-th thread makes a step.
  unfoldable pub advance_at : ℕ → List (Finder A) → Shared → List (Finder A) × Shared
  advance_at n [] sh = ([], sh)
  advance_at zero (t ∷ ts) sh = let r = advance t sh in (r.0 ∷ ts, r.1)
  advance_at (suc n) (t ∷ ts) sh = let r = advance_at n ts sh in (t ∷ r.0, r.1)

  unfoldable pub search_all : List ℕ → List (Finder A) → Shared → List (Finder A) × Shared
  search_all [] ts sh = (ts, sh)
  search_all (n ∷ ns) ts sh = let r = advance_at n ts sh in search_all ns r.0 r.1

-- The threads on their blocks, the first of which begins at index `i`.
unfoldable pub finders {ℓ} : {A : Type ℓ} → ℕ → List (List A) → List (Finder A)
finders i [] = []
finders i (b ∷ bs) = loads i b ∷ finders (i + length b) bs

unfoldable pub parallel_find {ℓ} : {A : Type ℓ} → ℕ → List A → List (Finder A)
parallel_find hardware [] = []
parallel_find hardware (x ∷ xs) = finders 0 (blocks hardware (x ∷ xs))

abbrev pub unset : Shared
unset = record { result = none; done_flag = false }

-- What `parallel_find` returns when its threads are joined; `none` is `last`.
unfoldable pub answer : Shared → Option ℕ
answer sh = if sh.done_flag then sh.result else none
