-- ===== src/Containers/LockFreeStack/Count.antt =====
-- The number of threads in `pop` of LockFreeStack.h.
use boost_net_programing.Base.{
  ℕ, zero, suc, ◌+◌, ◌≤◌, ◌<◌, ◌≡◌, ◌≢◌, refl, ap, subst, ◌∙◌, Bool-cases, inl, inr, ◌==◌, eq_of_==,
  ne_of_==, arith,
}
use boost_net_programing.Containers.LockFreeStack.{
  After, delete_head, leave, Place, idle, links, entered, at_head, read_next, owns, alone, emptied,
  deletes, walks, splices, swaps, leaves, move_to,
}

abbrev still : After → ℕ
still (delete_head h) = 0
still leave = 1

-- 1 from `++threads_in_pop` to `--threads_in_pop`.
unfoldable pub in_pop : Place → ℕ
in_pop idle = 0
in_pop (links i) = 0
in_pop entered = 1
in_pop (at_head h) = 1
in_pop (read_next h n) = 1
in_pop (owns h) = 1
in_pop (alone h) = 1
in_pop (emptied h l) = 1
in_pop (deletes h l) = 0
in_pop (walks h f l) = 0
in_pop (splices a f l) = still a
in_pop (swaps a f l) = still a
in_pop leaves = 1

unfoldable pub count : ℕ → (ℕ → Place) → ℕ
count zero f = 0
count (suc n) f = count n f + in_pop (f n)

-- `c` threads are in `pop`.
abbrev pub Counts : (ℕ → Place) → ℕ → Type 0
Counts f c = (n : ℕ) × ((u : ℕ) → n ≤ u → in_pop (f u) ≡ 0) × (count n f ≡ c)

pub move_to_self : (t : ℕ) (p : Place) (f : ℕ → Place) → move_to t p f t ≡ p
unfolding move_to
move_to_self t p f = ground arith

pub move_to_ne : (t u : ℕ) (p : Place) (f : ℕ → Place) → u ≢ t → move_to t p f u ≡ f u
unfolding move_to
move_to_ne t u p f d = ground arith

count_past : (n t : ℕ) (p : Place) (f : ℕ → Place) → n ≤ t → count n (move_to t p f) ≡ count n f
unfolding count
count_past zero t p f l = refl
count_past (suc n) t p f l =
    rw (count_past n t p f (omega arith), move_to_ne t n p f (λ e. omega arith)) refl

count-move_to :
    (n t : ℕ) (p : Place) (f : ℕ → Place)
    → t < n
    → count n (move_to t p f) + in_pop (f t) ≡ count n f + in_pop p
unfolding count
count-move_to zero t p f l = omega arith
count-move_to (suc n) t p f l = elim (Bool-cases (n == t)) [
  | inl e ↦
      let d = eq_of_== n t e in
      rw (d, count_past t t p f (omega arith), move_to_self t p f) (omega arith)
  | inr e ↦
      let d = ne_of_== n t e in
      let ih = count-move_to n t p f (omega (arith, d)) in
      rw (move_to_ne t n p f d) (omega (arith, ih))
]

-- One more thread below the bound.
count_wider :
    (n k : ℕ) (f : ℕ → Place) → ((u : ℕ) → n ≤ u → in_pop (f u) ≡ 0) → count (k + n) f ≡ count n f
unfolding count
count_wider n zero f z = ap (λ m. count m f) (omega arith)
count_wider n (suc k) f z =
    let e : suc k + n ≡ suc (k + n) = omega arith in
    rw e (omega (arith, count_wider n k f z, z (k + n) (omega arith)))

in_pop-le : (n t : ℕ) (f : ℕ → Place) → t < n → in_pop (f t) ≤ count n f
unfolding count
in_pop-le zero t f l = omega arith
in_pop-le (suc n) t f l = elim (Bool-cases (t == n)) [
  | inl e ↦ rw (eq_of_== t n e) (omega arith)
  | inr e ↦ omega (arith, in_pop-le n t f (omega (arith, ne_of_== t n e)))
]

-- A bound beyond a thread.
Counts-beyond :
    (f : ℕ → Place) (c t : ℕ)
    → Counts f c
    → (n : ℕ) × (t < n) × ((u : ℕ) → n ≤ u → in_pop (f u) ≡ 0) × (count n f ≡ c)
Counts-beyond f c t (n, z, e) =
    (suc t + n, omega arith, λ u l. z u (omega arith), count_wider n (suc t) f z ∙ e)

pub in_pop_bound : (f : ℕ → Place) (c t : ℕ) → Counts f c → in_pop (f t) ≤ c
in_pop_bound f c t v =
    let (n, l, z, e) = Counts-beyond f c t v in omega (arith, e, in_pop-le n t f l)

-- A thread that moves.
pub Counts-move_to :
    (f : ℕ → Place) (c c' t : ℕ) (p : Place)
    → Counts f c
    → c' + in_pop (f t) ≡ c + in_pop p
    → Counts (move_to t p f) c'
Counts-move_to f c c' t p v h =
    let (n, l, z, e) = Counts-beyond f c t v in
    (
      n,
      λ u k. rw (move_to_ne t u p f (λ d. omega arith)) (z u k),
      omega (arith, e, h, count-move_to n t p f l),
    )

-- The one thread in `pop`.
pub Counts-alone :
    (f : ℕ → Place) (c t u : ℕ) → Counts f c → c ≡ in_pop (f t) → u ≢ t → in_pop (f u) ≡ 0
unfolding in_pop
Counts-alone f c t u v h d =
    let gone = Counts-move_to f c 0 t idle v (omega (arith, h)) in
    let b = in_pop_bound (move_to t idle f) 0 u gone in
    omega (arith, subst (λ p. in_pop p ≤ 0) (move_to_ne t u idle f d) b)
