-- ===== src/Base/Heaps.antt =====
-- A heap of nodes, as a function from the index of a node; `none` is memory that was given back.
use boost_net_programing.Base.Tests.{◌==◌, if◌then◌else◌}
use Prim.Native.Nat.{ℕ}
use mathlib.Core.Path.{◌≡◌}
use mathlib.Core.Logic.{◌≢◌}
use mathlib.Core.Option.{Option}
use native.Mathlib.Omega.{arith}

module _ {ℓ} {C : Type ℓ} where
  unfoldable pub put : ℕ → Option C → (ℕ → Option C) → ℕ → Option C
  put i c h j = if j == i then c else h j

  pub put_self : (i : ℕ) (c : Option C) (h : ℕ → Option C) → put i c h i ≡ c
  unfolding put
  put_self i c h = ground arith

  pub put_ne : (i j : ℕ) (c : Option C) (h : ℕ → Option C) → j ≢ i → put i c h j ≡ h j
  unfolding put
  put_ne i j c h d = ground arith
