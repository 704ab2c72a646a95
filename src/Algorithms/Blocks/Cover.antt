-- ===== src/Algorithms/Blocks/Cover.antt =====
-- The blocks of Concurrent/day21-ParallenAlgorithm cover a range, and none is empty.
use boost_net_programing.Base.{
  ℕ, zero, suc, ◌-◌, ◌*◌, ◌/◌, ◌≤◌, ◌<◌, ◌≡◌, ap, ◌∙◌, List, [], ◌∷◌, ◌++◌, length, take, drop,
  length-take, length-drop, take-append-drop, arith, All, append-nil,
}
use native.Mathlib.Nat.{le-div_iff_mul-le, mul-div-le}
use boost_net_programing.Algorithms.Blocks.{max_threads, num_threads, block_size, cut, blocks}

module _ {ℓ} {A : Type ℓ} where
  abbrev pub concat : List (List A) → List A
  concat [] = []
  concat (b ∷ bs) = b ++ concat bs

  pub concat-cut : (n size : ℕ) (xs : List A) → concat (cut n size xs) ≡ xs
  unfolding cut
  concat-cut zero size xs = append-nil xs
  concat-cut (suc n) size xs =
      ap (λ l. take size xs ++ l) (concat-cut n size (drop size xs)) ∙ take-append-drop size xs

  abbrev pub IsFilled : List A → Type 0
  IsFilled b = 0 < length b

  pub cut-IsFilled :
      (n size : ℕ) (xs : List A) → 0 < size → n * size < length xs → All IsFilled (cut n size xs)
  unfolding cut
  cut-IsFilled zero size xs pos h = (omega arith, tt)
  cut-IsFilled (suc n) size xs pos h =
      let more : size ≤ length xs = grind arith in
      (
        omega (arith, length-take size xs),
        cut-IsFilled n size (drop size xs) pos (grind (arith, length-drop size xs)),
      )

pub num_threads_pos : (hardware length : ℕ) → 0 < length → 0 < num_threads hardware length
unfolding num_threads max_threads
num_threads_pos hardware length h = ground arith

num_threads-le : (hardware length : ℕ) → num_threads hardware length ≤ length
unfolding num_threads max_threads
num_threads-le hardware length = ground arith

pub block_size_pos : (hardware length : ℕ) → 0 < length → 0 < block_size hardware length
unfolding block_size
block_size_pos hardware length h =
    (le-div_iff_mul-le {k = num_threads hardware length} {x = 1} {y = length}
        (num_threads_pos hardware length h)).1
      (omega (arith, num_threads-le hardware length))

pred_mul : (n b l : ℕ) → 0 < n → 0 < b → n * b ≤ l → (n - 1) * b < l
pred_mul zero b l pos full h = absurd (omega arith)
pred_mul (suc n) b l pos full h = let e : suc n - 1 ≡ n = omega arith in rw e (grind arith)

pub further_blocks :
    (hardware length : ℕ)
    → 0 < length
    → (num_threads hardware length - 1) * block_size hardware length < length
unfolding block_size
further_blocks hardware length h =
    pred_mul (num_threads hardware length) (length / num_threads hardware length) length
      (num_threads_pos hardware length h) (block_size_pos hardware length h)
      (mul-div-le length (num_threads hardware length))

-- A range that is not empty is the blocks one after the other, and none of them is empty.
pub concat-blocks {ℓ} : {A : Type ℓ} (hardware : ℕ) (xs : List A) → concat (blocks hardware xs) ≡ xs
unfolding blocks
concat-blocks hardware xs = concat-cut _ _ xs

pub blocks-IsFilled {ℓ} :
    {A : Type ℓ} (hardware : ℕ) (xs : List A) → 0 < length xs → All IsFilled (blocks hardware xs)
unfolding blocks
blocks-IsFilled hardware xs h =
    cut-IsFilled _ _ xs (block_size_pos hardware (length xs) h)
      (further_blocks hardware (length xs) h)
