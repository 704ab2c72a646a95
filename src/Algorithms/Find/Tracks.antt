-- ===== src/Algorithms/Find/Tracks.antt =====
-- What each thread of `parallel_find` in Concurrent/day21-ParallenAlgorithm keeps, step by step.
use boost_net_programing.Base.{
  ℕ, ◌+◌, ◌≡◌, ◌⊎◌, inl, inr, refl, sym, ap, subst, ◌∙◌, Bool, true, false, Bool-cases, Option,
  none, some, List, [], ◌∷◌, ◌++◌, if◌then◌else◌, length, length-append, get_elem?,
  get_elem?-append_at, append_assoc, append-nil, All, All-append, arith,
}
use boost_net_programing.Algorithms.Find.{
  Finder, loads, compares, stores, ended, Shared, set_value, advance,
}

abbrev pub Settled : Option ℕ → Type 0
Settled none = ⊥
Settled (some i) = Unit

module _ {A : Type 0} (match : A → Bool) where
  abbrev pub Misses : A → Type 0
  Misses x = match x ≡ false

  -- The index is that of an element that matches.
  abbrev pub Hits : List A → ℕ → Type 0
  Hits xs i = (x : A) × (get_elem? xs i ≡ some x) × (match x ≡ true)

  abbrev pub Sound : List A → Option ℕ → Type 0
  Sound xs none = Unit
  Sound xs (some i) = Hits xs i

  -- A thread on the block `b` that begins at `k`: it has passed elements that do not match only.
  abbrev pub Track : ℕ → List A → Option ℕ → Finder A → Type 0
  Track k b p (loads i r) =
      (seen : List A) × (b ≡ seen ++ r) × (i ≡ k + length seen) × All Misses seen
  Track k b p (compares i x r) =
      (seen : List A) × (b ≡ seen ++ x ∷ r) × (i ≡ k + length seen) × All Misses seen
  Track k b p stores = Settled p
  Track k b p ended = All Misses b ⊎ Settled p

  abbrev pub Tracks : ℕ → List (List A) → Option ℕ → List (Finder A) → Type 0
  Tracks k [] p [] = Unit
  Tracks k (b ∷ bs) p (t ∷ ts) = Track k b p t × Tracks (k + length b) bs p ts
  Tracks k _ p _ = ⊥

  abbrev pub Storing : List (Finder A) → Type 0
  Storing [] = ⊥
  Storing (stores ∷ ts) = Unit
  Storing (loads i r ∷ ts) = Storing ts
  Storing (compares i x r ∷ ts) = Storing ts
  Storing (ended ∷ ts) = Storing ts

  pub Track-mono :
      (k : ℕ) (b : List A) (p q : Option ℕ) (t : Finder A)
      → (Settled p → Settled q)
      → Track k b p t
      → Track k b q t
  Track-mono k b p q (loads i r) f h = h
  Track-mono k b p q (compares i x r) f h = h
  Track-mono k b p q stores f h = f h
  Track-mono k b p q ended f (inl h) = inl h
  Track-mono k b p q ended f (inr h) = inr (f h)

  pub Tracks-mono :
      (k : ℕ) (bs : List (List A)) (p q : Option ℕ) (ts : List (Finder A))
      → (Settled p → Settled q)
      → Tracks k bs p ts
      → Tracks k bs q ts
  Tracks-mono k [] p q [] f h = tt
  Tracks-mono k (b ∷ bs) p q (t ∷ ts) f h =
      (Track-mono k b p q t f h.0, Tracks-mono (k + length b) bs p q ts f h.1)
  Tracks-mono k [] p q (t ∷ ts) f h = absurd h
  Tracks-mono k (b ∷ bs) p q [] f h = absurd h

  -- The step of one thread, by what it makes of the shared state.
  pub record Steps (xs : List A) (k : ℕ) (b : List A) (sh : Shared) (t' : Finder A) (sh' : Shared)
      : Type 0 where
    pub track : Track k b sh'.result t'
    pub grows : Settled sh.result → Settled sh'.result
    pub sound : Sound xs sh.result → Sound xs sh'.result
    pub behind :
        (sh.done_flag ≡ true → Settled sh.result) → sh'.done_flag ≡ true → Settled sh'.result

  -- What `set_value` makes of the shared state.
  set-Steps :
      (xs : List A) (k : ℕ) (b : List A) (p : Option ℕ) (f : Bool) (i : ℕ)
      → Hits xs i
      → Steps xs k b
          (record { result = p; done_flag = f })
          (set_value {A = A} p i (record { result = p; done_flag = f })).0
          (set_value {A = A} p i (record { result = p; done_flag = f })).1
  unfolding set_value
  set-Steps xs k b none f i h = record {
    track = tt;
    grows = λ s. tt;
    sound = λ s. h;
    behind = λ s e. tt;
  }
  set-Steps xs k b (some j) f i h = record {
    track = inr tt;
    grows = λ s. tt;
    sound = λ s. s;
    behind = λ s. s;
  }

  -- A step that leaves the shared state.
  still :
      (xs : List A) (k : ℕ) (b : List A) (sh : Shared) (t : Finder A)
      → Track k b sh.result t
      → Steps xs k b sh t sh
  still xs k b sh t h = record { track = h; grows = λ s. s; sound = λ s. s; behind = λ s. s }

  -- The element that a thread compares, in the whole range.
  placed :
      (pre b rest : List A) (k i : ℕ) (x : A) (r seen : List A)
      → k ≡ length pre
      → b ≡ seen ++ x ∷ r
      → i ≡ k + length seen
      → get_elem? (pre ++ (b ++ rest)) i ≡ some x
  placed pre b rest k i x r seen ek eb ei =
      rw
        (
          eb,
          append_assoc seen (x ∷ r) rest,
          sym (append_assoc pre seen (x ∷ (r ++ rest))),
          ei ∙ ap (λ n. n + length seen) ek ∙ sym (length-append pre seen),
        )
        (get_elem?-append_at (pre ++ seen) (r ++ rest) x)

  looked :
      (k : ℕ) (b : List A) (p : Option ℕ) (i : ℕ) (x : A) (r : List A) (c : Bool)
      → (c ≡ true → Settled p)
      → Track k b p (loads i (x ∷ r))
      → Track k b p (if c then ended else compares i x r)
  looked k b p i x r true f h = inr (f refl)
  looked k b p i x r false f h = h

  pub advance-Steps :
      (pre b rest : List A) (k : ℕ) (t : Finder A) (sh : Shared)
      → k ≡ length pre
      → (sh.done_flag ≡ true → Settled sh.result)
      → Track k b sh.result t
      → Steps (pre ++ (b ++ rest)) k b sh (advance match t sh).0 (advance match t sh).1
  unfolding advance
  advance-Steps pre b rest k (loads i []) sh ek bh (seen, eb, ei, m) =
      still _ k b sh ended (inl (subst (All Misses) (sym (append-nil seen) ∙ sym eb) m))
  advance-Steps pre b rest k (loads i (x ∷ r)) sh ek bh h =
      still _ k b sh (if sh.done_flag then ended else compares i x r)
        (looked k b sh.result i x r sh.done_flag bh h)
  advance-Steps pre b rest k (compares i x r) sh ek bh (seen, eb, ei, m) =
      elim (Bool-cases (match x)) [
        | inl e ↦ rw e (
            set-Steps (pre ++ (b ++ rest)) k b sh.result sh.done_flag i
              (x, placed pre b rest k i x r seen ek eb ei, e))
        | inr e ↦ rw e (
            still _ k b sh (loads (i + 1) r) (
              seen ++ x ∷ [],
              eb ∙ sym (append_assoc seen (x ∷ []) r),
              omega (arith, ei, length-append seen (x ∷ [])),
              All-append Misses seen (x ∷ []) m (e, tt),
            ))
      ]
  advance-Steps pre b rest k stores sh ek bh h = record {
    track = inr h;
    grows = λ s. s;
    sound = λ s. s;
    behind = λ s e. h;
  }
  advance-Steps pre b rest k ended sh ek bh h = still _ k b sh ended h
