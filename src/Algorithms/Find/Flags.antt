-- ===== src/Algorithms/Find/Flags.antt =====
-- What `parallel_find` in Concurrent/day21-ParallenAlgorithm keeps of its promise and its flag, and the
-- step of one of its threads.
use boost_net_programing.Base.{
  ℕ, zero, suc, ◌+◌, ◌≡◌, ◌⊎◌, inl, inr, refl, subst, Bool, true, false, Bool-cases, Option, none,
  some, List, [], ◌∷◌, ◌++◌, if◌then◌else◌, length, length-append, append_assoc, arith,
}
use boost_net_programing.Algorithms.Blocks.Cover.{concat}
use boost_net_programing.Algorithms.Find.{
  Finder, loads, compares, stores, ended, Shared, set_value, advance, advance_at,
}
use boost_net_programing.Algorithms.Find.Tracks.{
  Settled, Sound, Tracks, Storing, Track-mono, Tracks-mono, advance-Steps,
}

module _ {A : Type 0} (match : A → Bool) where
  abbrev pub Stored : Shared → List (Finder A) → Type 0
  Stored sh ts = Settled sh.result → (sh.done_flag ≡ true) ⊎ Storing match ts

  seen_flag :
      (c : Bool) (i : ℕ) (x : A) (r : List A) (ts : List (Finder A))
      → Storing match ts
      → Storing match ((if c then ended else compares i x r) ∷ ts)
  seen_flag true i x r ts h = h
  seen_flag false i x r ts h = h

  either {κ} : {B C D : Type κ} → (C → D) → B ⊎ C → B ⊎ D
  either f (inl b) = inl b
  either f (inr c) = inr (f c)

  set-Stored :
      (p : Option ℕ) (f : Bool) (i : ℕ) (ts : List (Finder A))
      → Stored (record { result = p; done_flag = f }) ts
      → Stored
          (set_value {A = A} p i (record { result = p; done_flag = f })).1
          ((set_value {A = A} p i (record { result = p; done_flag = f })).0 ∷ ts)
  unfolding set_value
  set-Stored none f i ts h s = inr tt
  set-Stored (some j) f i ts h s = h s

  compare-Stored :
      (i : ℕ) (x : A) (r : List A) (ts : List (Finder A)) (sh : Shared)
      → Stored sh ts
      → Stored (advance match (compares i x r) sh).1 ((advance match (compares i x r) sh).0 ∷ ts)
  unfolding advance
  compare-Stored i x r ts sh h = elim (Bool-cases (match x)) [
    | inl e ↦ rw e (set-Stored sh.result sh.done_flag i ts h)
    | inr e ↦ rw e h
  ]

  advance-Stored :
      (t : Finder A) (ts : List (Finder A)) (sh : Shared)
      → Stored sh (t ∷ ts)
      → Stored (advance match t sh).1 ((advance match t sh).0 ∷ ts)
  unfolding advance
  advance-Stored (loads i []) ts sh h s = h s
  advance-Stored (loads i (x ∷ r)) ts sh h s = either (seen_flag sh.done_flag i x r ts) (h s)
  advance-Stored (compares i x r) ts sh h s = compare-Stored i x r ts sh h s
  advance-Stored stores ts sh h s = inl refl
  advance-Stored ended ts sh h s = h s

  -- The step of one of many threads.
  pub record AllSteps (xs : List A) (k : ℕ) (bs : List (List A)) (ts : List (Finder A))
      (sh : Shared) (ts' : List (Finder A)) (sh' : Shared) : Type 0 where
    pub tracks : Tracks match k bs sh'.result ts'
    pub grows : Settled sh.result → Settled sh'.result
    pub sound : Sound match xs sh.result → Sound match xs sh'.result
    pub behind : sh'.done_flag ≡ true → Settled sh'.result
    pub stored : Stored sh ts → Stored sh' ts'

  over :
      (t : Finder A) (ts ts' : List (Finder A)) (sh sh' : Shared)
      → (Stored sh ts → Stored sh' ts')
      → (Settled sh.result → Settled sh'.result)
      → Stored sh (t ∷ ts)
      → Stored sh' (t ∷ ts')
  over stores ts ts' sh sh' f g h s = inr tt
  over (loads i r) ts ts' sh sh' f g h s = f h s
  over (compares i x r) ts ts' sh sh' f g h s = f h s
  over ended ts ts' sh sh' f g h s = f h s

  pub advance_at-AllSteps :
      (n : ℕ) (pre : List A) (k : ℕ) (bs : List (List A)) (ts : List (Finder A)) (sh : Shared)
      → k ≡ length pre
      → Tracks match k bs sh.result ts
      → (sh.done_flag ≡ true → Settled sh.result)
      → AllSteps
          (pre ++ concat bs)
          k
          bs
          ts
          sh
          (advance_at match n ts sh).0
          (advance_at match n ts sh).1
  unfolding advance_at
  advance_at-AllSteps n pre k bs [] sh ek h bh = record {
    tracks = h;
    grows = λ s. s;
    sound = λ s. s;
    behind = bh;
    stored = λ s. s;
  }
  advance_at-AllSteps zero pre k (b ∷ bs) (t ∷ ts) sh ek h bh =
      let u = advance-Steps match pre b (concat bs) k t sh ek bh h.0 in
      record {
        tracks = (
          u.track,
          Tracks-mono match (k + length b) bs sh.result (advance match t sh).1.result ts u.grows
              h.1,
        );
        grows = u.grows;
        sound = u.sound;
        behind = u.behind bh;
        stored = advance-Stored t ts sh;
      }
  advance_at-AllSteps (suc n) pre k (b ∷ bs) (t ∷ ts) sh ek h bh =
      let u =
        advance_at-AllSteps n (pre ++ b) (k + length b) bs ts sh
          (omega (arith, ek, length-append pre b)) h.1 bh in
      record {
        tracks = (
          Track-mono match k b sh.result (advance_at match n ts sh).1.result t u.grows h.0,
          u.tracks,
        );
        grows = u.grows;
        sound =
            subst (λ l. Sound match l sh.result → Sound match l (advance_at match n ts sh).1.result)
              (append_assoc pre b (concat bs)) u.sound;
        behind = u.behind;
        stored =
            over t ts (advance_at match n ts sh).0 sh (advance_at match n ts sh).1 u.stored u.grows;
      }
  advance_at-AllSteps zero pre k [] (t ∷ ts) sh ek h bh = absurd h
  advance_at-AllSteps (suc n) pre k [] (t ∷ ts) sh ek h bh = absurd h
