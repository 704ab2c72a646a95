-- ===== src/Base/Windows.antt =====
-- Parts of lists by `take` and `drop`.
use Prim.Native.Nat.{ℕ, zero, suc, ◌+◌, ◌≤◌, min}
use mathlib.Core.Path.{◌≡◌, refl, ap}
use mathlib.Core.List.{List, [], ◌∷◌, ◌++◌}
use native.Mathlib.Omega.{arith}
use boost_net_programing.Base.Lists.{length, take, drop}

module _ {ℓ} {A : Type ℓ} where
  pub drop-nil : (n : ℕ) → drop {A = A} n [] ≡ []
  drop-nil zero = refl
  drop-nil (suc n) = refl

  pub take-min-drop : (n : ℕ) (l : List A) → take n l ++ drop (min n (length l)) l ≡ l
  take-min-drop zero l = let e : min 0 (length l) ≡ 0 = omega arith in rw e
  take-min-drop (suc n) [] = drop-nil _
  take-min-drop (suc n) (x ∷ l) =
      let e : min (suc n) (suc (length l)) ≡ suc (min n (length l)) = omega arith in
      rw e (ap (λ r. x ∷ r) (take-min-drop n l))

  pub drop-add : (c k : ℕ) (l : List A) → drop (c + k) l ≡ drop k (drop c l)
  drop-add zero k l = let e : 0 + k ≡ k = omega arith in rw e
  drop-add (suc c) k [] = rw (drop-nil (suc c + k), drop-nil k)
  drop-add (suc c) k (x ∷ l) =
      let e : suc c + k ≡ suc (c + k) = omega arith in rw e (drop-add c k l)

  pub drop_past : (c : ℕ) (l : List A) → length l ≤ c → drop c l ≡ []
  drop_past c [] h = drop-nil c
  drop_past zero (x ∷ l) h = absurd (omega arith)
  drop_past (suc c) (x ∷ l) h = drop_past c l (omega arith)

  pub take_past : (n : ℕ) (l : List A) → length l ≤ n → take n l ≡ l
  take_past zero [] h = refl
  take_past zero (x ∷ l) h = absurd (omega arith)
  take_past (suc n) [] h = refl
  take_past (suc n) (x ∷ l) h = ap (λ r. x ∷ r) (take_past n l (omega arith))
