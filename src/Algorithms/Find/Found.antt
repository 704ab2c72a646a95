-- ===== src/Algorithms/Find/Found.antt =====
-- What `parallel_find` of Concurrent/day21-ParallenAlgorithm/day21-ParallenAlgorithm/parallen_find.h
-- returns.
use boost_net_programing.Base.{
  ℕ, ◌+◌, ◌≡◌, ◌⊎◌, inl, inr, refl, subst, Bool, true, false, Option, none, some, List, [], ◌∷◌,
  ◌++◌, length, All, All-append, arith,
}
use boost_net_programing.Algorithms.Blocks.{blocks}
use boost_net_programing.Algorithms.Blocks.Cover.{concat, concat-blocks}
use boost_net_programing.Algorithms.Find.{
  Finder, loads, compares, stores, ended, Shared, advance_at, search_all, finders, parallel_find,
  unset, answer,
}
use boost_net_programing.Algorithms.Find.Tracks.{Settled, Misses, Hits, Sound, Tracks, Storing}
use boost_net_programing.Algorithms.Find.Flags.{Stored, advance_at-AllSteps}

abbrev pub IsEnded {ℓ} : {A : Type ℓ} → Finder A → Type 0
IsEnded ended = Unit
IsEnded _ = ⊥

module _ {A : Type 0} (match : A → Bool) where
  -- The promise is set only to matches, the flag only behind the promise, and a thread that set the
  -- promise is about to set the flag or has set it.
  record Valid (bs : List (List A)) (ts : List (Finder A)) (sh : Shared) : Type 0 where
    tracks : Tracks match 0 bs sh.result ts
    sound : Sound match (concat bs) sh.result
    behind : sh.done_flag ≡ true → Settled sh.result
    stored : Stored match sh ts

  search_all-Valid :
      (ns : List ℕ) (bs : List (List A)) (ts : List (Finder A)) (sh : Shared)
      → Valid bs ts sh
      → Valid bs (search_all match ns ts sh).0 (search_all match ns ts sh).1
  unfolding search_all
  search_all-Valid [] bs ts sh v = v
  search_all-Valid (n ∷ ns) bs ts sh v =
      let u = advance_at-AllSteps match n [] 0 bs ts sh refl v.tracks v.behind in
      search_all-Valid ns bs (advance_at match n ts sh).0 (advance_at match n ts sh).1 (record {
        tracks = u.tracks;
        sound = u.sound v.sound;
        behind = u.behind;
        stored = u.stored v.stored;
      })

  finders-Tracks : (k : ℕ) (bs : List (List A)) → Tracks match k bs none (finders k bs)
  unfolding finders
  finders-Tracks k [] = tt
  finders-Tracks k (b ∷ bs) = (([], refl, omega arith, tt), finders-Tracks (k + length b) bs)

  -- `last` for a range without a match, and else the place of one.
  abbrev pub Answers : List A → Option ℕ → Type 0
  Answers xs none = All (Misses match) xs
  Answers xs (some i) = Hits match xs i

  All-missed :
      (k : ℕ) (bs : List (List A)) (p : Option ℕ) (ts : List (Finder A))
      → All IsEnded ts
      → Tracks match k bs p ts
      → All (Misses match) (concat bs) ⊎ Settled p
  All-missed k [] p [] e h = inl tt
  All-missed k (b ∷ bs) p (ended ∷ ts) e h = both (h.0) (All-missed (k + length b) bs p ts e.1 h.1)
    where
      both :
          All (Misses match) b ⊎ Settled p
          → All (Misses match) (concat bs) ⊎ Settled p
          → All (Misses match) (b ++ concat bs) ⊎ Settled p
      both (inl m) (inl n) = inl (All-append (Misses match) b (concat bs) m n)
      both (inl m) (inr s) = inr s
      both (inr s) o = inr s
  All-missed k [] p (t ∷ ts) e h = absurd h
  All-missed k (b ∷ bs) p [] e h = absurd h
  All-missed k (b ∷ bs) p (loads i r ∷ ts) e h = absurd (e.0)
  All-missed k (b ∷ bs) p (compares i x r ∷ ts) e h = absurd (e.0)
  All-missed k (b ∷ bs) p (stores ∷ ts) e h = absurd (e.0)

  none-Storing : (ts : List (Finder A)) → All IsEnded ts → Storing match ts → ⊥
  none-Storing [] e h = h
  none-Storing (ended ∷ ts) e h = none-Storing ts e.1 h
  none-Storing (loads i r ∷ ts) e h = e.0
  none-Storing (compares i x r ∷ ts) e h = e.0
  none-Storing (stores ∷ ts) e h = e.0

  answered :
      (xs : List A) (ts : List (Finder A)) (p : Option ℕ) (c : Bool)
      → All IsEnded ts
      → Sound match xs p
      → (c ≡ true → Settled p)
      → (Settled p → (c ≡ true) ⊎ Storing match ts)
      → All (Misses match) xs ⊎ Settled p
      → Answers xs (answer (record { result = p; done_flag = c }))
  unfolding answer
  answered xs ts (some i) true e s b st m = s
  answered xs ts none true e s b st m = absurd (b refl)
  answered xs ts (some i) false e s b st m = elim (st tt) [
    | inl q ↦ cc
    | inr q ↦ absurd (none-Storing ts e q)
  ]
  answered xs ts none false e s b st (inl m) = m
  answered xs ts none false e s b st (inr q) = absurd q

  Valid-answer :
      (bs : List (List A)) (ts : List (Finder A)) (sh : Shared)
      → Valid bs ts sh
      → All IsEnded ts
      → Answers (concat bs) (answer sh)
  Valid-answer bs ts sh v e =
      answered (concat bs) ts sh.result sh.done_flag e v.sound v.behind v.stored
        (All-missed 0 bs sh.result ts e v.tracks)

  start-Valid : (bs : List (List A)) → Valid bs (finders 0 bs) unset
  start-Valid bs = record {
    tracks = finders-Tracks 0 bs;
    sound = tt;
    behind = λ e. cc;
    stored = λ s. absurd s;
  }

  -- In every interleaving of its threads: when all of them have returned, `parallel_find` answers with
  -- the place of an element that matches, or with `last` if none does.
  pub parallel_find-Answers :
      (hardware : ℕ) (xs : List A) (ns : List ℕ)
      → All IsEnded (search_all match ns (parallel_find hardware xs) unset).0
      → Answers xs (answer (search_all match ns (parallel_find hardware xs) unset).1)
  unfolding parallel_find finders
  parallel_find-Answers hardware [] ns e =
      Valid-answer [] _ _ (search_all-Valid ns [] [] unset (start-Valid [])) e
  parallel_find-Answers hardware (x ∷ xs) ns e =
      subst
        (λ l.
          Answers l (answer (search_all match ns (finders 0 (blocks hardware (x ∷ xs))) unset).1))
        (concat-blocks hardware (x ∷ xs))
        (Valid-answer (blocks hardware (x ∷ xs)) _ _
          (search_all-Valid ns (blocks hardware (x ∷ xs)) (finders 0 (blocks hardware (x ∷ xs)))
            unset (start-Valid (blocks hardware (x ∷ xs))))
          e)
