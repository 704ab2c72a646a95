-- ===== src/Containers/CircularQue/Refine.antt =====
-- The circular queue of Concurrent/day12-circularque is a bounded queue.
use native.Mathlib.Nat.{mod-add-mod, mod-eq_of_lt, mod-eq-sub-mod}
use boost_net_programing.Base.{
  ℕ, zero, suc, ◌+◌, ◌-◌, ◌%◌, ◌≤◌, ◌<◌, ◌≡◌, ◌≢◌, refl, sym, ap, subst, ◌∙◌, true, false, Option,
  none, some, List, [], ◌∷◌, ◌++◌, ◌==◌, get_elem?, set, length, length-set, length-append,
  length-replicate, get_elem?-set_self, get_elem?-set_ne, arith, Bool-cases, inl, inr, dec_lt,
}
use boost_net_programing.Containers.CircularQue.{
  CircularQue, returned, make, with_lock, emplace_locked, emplace, push, take_cell, pop_locked, pop,
}
use boost_net_programing.Containers.CircularQue.Fifo.{fifo_push, fifo_pop}

-- Going on by fewer than `max` places does not come back.
away : (h k max : ℕ) → h < max → 0 < k → k < max → (h + k) % max ≢ h
away h k max hh pos hk = elim (dec_lt (h + k) max) [
  | yes p ↦ omega (arith, mod-eq_of_lt p)
  | no p ↦ omega (
    arith,
    mod-eq-sub-mod {n = h + k} {m = max} (omega arith),
    mod-eq_of_lt {n = h + k - max} {m = max} (omega arith),
  )
]

-- The two tests, by the number of values.
full_iff :
    (h n cap : ℕ)
    → h < cap + 1
    → n ≤ cap
    → ((((h + n) % (cap + 1) + 1) % (cap + 1)) == h) ≡ (n == cap)
full_iff h n cap hh hn = elim (Bool-cases (n == cap)) [
  | inl e ↦
      rw e
        (let p : ((h + n) % (cap + 1) + 1) % (cap + 1) ≡ h = joined ∙ wraps (at e) in ground arith)
  | inr e ↦ rw e (
      let p : ((h + n) % (cap + 1) + 1) % (cap + 1) ≢ h = λ p.
        away h (n + 1) (cap + 1) hh (omega arith) (below e)
          (ap (λ k. k % (cap + 1)) (omega arith) ∙ sym joined ∙ p) in
      ground arith)
]
  where
    joined : ((h + n) % (cap + 1) + 1) % (cap + 1) ≡ (h + n + 1) % (cap + 1)
    joined = mod-add-mod (h + n) (cap + 1) 1

    at : (n == cap) ≡ true → n ≡ cap
    at e = ground arith

    below : (n == cap) ≡ false → n + 1 < cap + 1
    below e = ground arith

    wraps : n ≡ cap → (h + n + 1) % (cap + 1) ≡ h
    wraps e =
        mod-eq-sub-mod {n = h + n + 1} {m = cap + 1} (omega arith)
        ∙ ap (λ k. k % (cap + 1)) (omega arith)
        ∙ mod-eq_of_lt hh

empty_iff : (h n cap : ℕ) → h < cap + 1 → n ≤ cap → (h == (h + n) % (cap + 1)) ≡ (n == 0)
empty_iff h zero cap hh hn =
    let p : (h + 0) % (cap + 1) ≡ h =
      ap (λ k. k % (cap + 1)) {y = h} (omega arith) ∙ mod-eq_of_lt hh in
    ground arith
empty_iff h (suc n) cap hh hn =
    let p : (h + suc n) % (cap + 1) ≢ h = away h (suc n) (cap + 1) hh (omega arith) (omega arith) in
    ground arith

module _ {ℓ} {A : Type ℓ} where
  -- The values of `q` stand in the cells from `h` on, round the end of the array.
  abbrev pub Stands : List (Option A) → ℕ → ℕ → List A → Type ℓ
  Stands cells max h [] = Unit
  Stands cells max h (x ∷ q) =
      (get_elem? cells h ≡ some (some x)) × Stands cells max ((h + 1) % max) q

  -- A free queue that holds `q`.
  pub record Holds (r : CircularQue A) (cap : ℕ) (q : List A) : Type ℓ where
    pub size : r.max_size ≡ cap + 1
    pub cells_len : length r.cells ≡ cap + 1
    pub free : r.atomic_using ≡ false
    pub head_in : r.head < cap + 1
    pub fits : length q ≤ cap
    pub tail_at : r.tail ≡ (r.head + length q) % (cap + 1)
    pub stands : Stands r.cells (cap + 1) r.head q

  Stands-set :
      (cells : List (Option A)) (max h t : ℕ) (q : List A) (x : A)
      → length cells ≡ max
      → h < max
      → length q < max
      → t ≡ (h + length q) % max
      → Stands cells max h q
      → Stands (set cells t (some x)) max h (q ++ x ∷ [])
  Stands-set cells max h t [] x l hh hq e s =
      (rw (e, same) (get_elem?-set_self cells h (some x) (omega arith)), tt)
    where
      same : (h + 0) % max ≡ h
      same = let z : h + 0 ≡ h = omega arith in rw z (mod-eq_of_lt hh)
  Stands-set cells max h t (y ∷ q) x l hh hq e s = (
    get_elem?-set_ne cells t h (some x)
          (λ p. away h (length (y ∷ q)) max hh (omega arith) hq (sym e ∙ p))
        ∙ s.0,
    Stands-set cells max ((h + 1) % max) t q x l (omega arith) (omega arith) (e ∙ shift) s.1,
  )
    where
      shift : (h + suc (length q)) % max ≡ ((h + 1) % max + length q) % max
      shift = rw mod-add-mod (ap (λ k. k % max) (omega arith))

  module _ (cap : ℕ) (r : CircularQue A) (q : List A) (v : Holds r cap q) where
    full_test : ((r.tail + 1) % r.max_size == r.head) ≡ (length q == cap)
    full_test = rw (v.size, v.tail_at) (full_iff r.head (length q) cap v.head_in v.fits)

    room : (length q == cap) ≡ false → length q < cap
    room e = let f : length q ≤ cap = v.fits in ground arith

    empty_test : (r.head == r.tail) ≡ (length q == 0)
    empty_test = rw v.tail_at (empty_iff r.head (length q) cap v.head_in v.fits)

    -- `push` answers as a bounded queue does, and leaves the cells holding what it holds.
    pub push-refines :
        (x : A)
        → (r' : CircularQue A) × (push x r ≡ returned (r', (fifo_push cap x q).1))
          × Holds r' cap (fifo_push cap x q).0
    unfolding push emplace with_lock emplace_locked fifo_push
    push-refines x = elim (Bool-cases (length q == cap)) [
      | inl e ↦ rw e (r, rw (v.free, full_test, e) refl, v)
      | inr e ↦ rw e (
        record r {
          cells = set r.cells r.tail (some x);
          tail = (r.tail + 1) % r.max_size;
          atomic_using = false;
        },
        rw (v.free, full_test, e) refl,
        record {
          size = v.size;
          cells_len = length-set r.cells r.tail (some x) ∙ v.cells_len;
          free = refl;
          head_in = v.head_in;
          fits = rw (length-append q (x ∷ [])) (omega (arith, room e));
          tail_at =
              rw (v.size, v.tail_at, length-append q (x ∷ []))
                (mod-add-mod (r.head + length q) (cap + 1) 1
                  ∙ ap (λ k. k % (cap + 1)) (omega arith));
          stands =
              Stands-set r.cells (cap + 1) r.head r.tail q x v.cells_len v.head_in
                (omega (arith, v.fits)) v.tail_at v.stands;
        },
      )
    ]

  -- `pop` gives the value that a bounded queue gives, or none when that has none, and leaves the
  -- cells holding what it leaves; no lock stays taken and no raw memory is read.
  pub pop-refines :
      (cap : ℕ) (r : CircularQue A) (q : List A)
      → Holds r cap q
      → (r' : CircularQue A) × (pop r ≡ returned (r', (fifo_pop q).1)) × Holds r' cap (fifo_pop q).0
  unfolding pop with_lock pop_locked take_cell fifo_pop
  pop-refines cap r [] v = (r, rw (v.free, empty_test cap r [] v) refl, v)
  pop-refines cap r (x ∷ q) v = (
    record r { head = (r.head + 1) % r.max_size; atomic_using = false },
    rw (v.free, not_empty, v.stands.0) refl,
    record {
      size = v.size;
      cells_len = v.cells_len;
      free = refl;
      head_in = rw v.size (omega arith);
      fits = (let f : suc (length q) ≤ cap = v.fits in omega arith);
      tail_at = rw (v.size, v.tail_at, mod-add-mod) (ap (λ k. k % (cap + 1)) (omega arith));
      stands =
          subst (λ k. Stands r.cells (cap + 1) k q) (ap (λ k. (r.head + 1) % k) (sym v.size))
            v.stands.1;
    },
  )
    where
      not_empty : (r.head == r.tail) ≡ false
      not_empty = rw (empty_test cap r (x ∷ q) v) (ground arith)

  -- A new queue holds nothing.
  pub make-Holds : (cap : ℕ) → Holds (make cap) cap []
  unfolding make
  make-Holds cap = record {
    size = refl;
    cells_len = length-replicate (cap + 1) none;
    free = refl;
    head_in = omega arith;
    fits = omega arith;
    tail_at = omega arith;
    stands = tt;
  }
