-- ===== src/Containers/SafeQueue/Served.antt =====
-- What `threadsafe_queue` of ThreadSafeQue.h promises its producers and consumers.
use boost_net_programing.Base.{
  ◌+◌, ◌≤◌, ◌<◌, ◌≡◌, refl, sym, ap, ◌∙◌, List, [], ◌∷◌, ◌++◌, ◌==◌, length, length-append,
  append_assoc, append-nil, arith, Bool-cases, inl, inr,
}
use boost_net_programing.Containers.SafeQueue.{
  SafeQueue, wake_one, push, take_front, try_pop, wait_and_pop, wait_again, Move, pushes, tries,
  waits, retests, wakes, step, run, empty_queue,
}

module _ {ℓ} {A : Type ℓ} where
  -- While a consumer sleeps, there is a woken one for each value.
  abbrev pub Served : SafeQueue A → Type 0
  Served s = 0 < s.asleep → length s.data_queue ≤ s.woken

  step-Served : (m : Move A) (s : SafeQueue A) → Served s → Served (step m s)
  unfolding step push wake_one try_pop wait_and_pop wait_again take_front
  step-Served (pushes x) s v = ground (arith, length-append s.data_queue (x ∷ []))
  step-Served tries s v = ground arith
  step-Served waits s v = ground arith
  step-Served retests s v = ground arith
  step-Served wakes s v = ground arith

  run-Served : (ms : List (Move A)) (s : SafeQueue A) → Served s → Served (run ms s)
  unfolding run
  run-Served [] s v = v
  run-Served (m ∷ ms) s v = run-Served ms (step m s) (step-Served m s v)

  abbrev pub pushed : List (Move A) → List A
  pushed [] = []
  pushed (pushes x ∷ ms) = x ∷ pushed ms
  pushed (tries ∷ ms) = pushed ms
  pushed (waits ∷ ms) = pushed ms
  pushed (retests ∷ ms) = pushed ms
  pushed (wakes ∷ ms) = pushed ms

  abbrev through : SafeQueue A → List A
  through s = s.taken ++ s.data_queue

  wake_one-through : (s : SafeQueue A) → through (wake_one s) ≡ through s
  unfolding wake_one
  wake_one-through s = elim (Bool-cases (s.asleep == 0)) [ inl e ↦ rw e refl | inr e ↦ rw e refl ]

  take_front-through :
      (other : SafeQueue A) (q : List A) (s : SafeQueue A)
      → through other ≡ s.taken ++ q
      → through (take_front other q s) ≡ s.taken ++ q
  unfolding take_front
  take_front-through other [] s e = e
  take_front-through other (x ∷ q) s e = append_assoc s.taken (x ∷ []) q

  wait_again-through : (s : SafeQueue A) → through (wait_again s) ≡ through s
  unfolding wait_again wait_and_pop
  wait_again-through s = elim (Bool-cases (s.woken == 0)) [
    | inl e ↦ rw e refl
    | inr e ↦ rw e (take_front-through _ s.data_queue _ refl)
  ]

  run-through : (ms : List (Move A)) (s : SafeQueue A) → through (run ms s) ≡ through s ++ pushed ms
  unfolding run step push try_pop wait_and_pop
  run-through [] s = sym (append-nil (through s))
  run-through (pushes x ∷ ms) s =
      run-through ms (push x s)
      ∙ ap (λ l. l ++ pushed ms)
          (wake_one-through (record s { data_queue = s.data_queue ++ x ∷ [] })
            ∙ sym (append_assoc s.taken s.data_queue (x ∷ [])))
      ∙ append_assoc (through s) (x ∷ []) (pushed ms)
  run-through (tries ∷ ms) s =
      run-through ms (try_pop s)
      ∙ ap (λ l. l ++ pushed ms) (take_front-through s s.data_queue s refl)
  run-through (waits ∷ ms) s =
      run-through ms (wait_and_pop s)
      ∙ ap (λ l. l ++ pushed ms)
          (take_front-through (record s { asleep = s.asleep + 1 }) s.data_queue s refl)
  run-through (retests ∷ ms) s =
      run-through ms (wait_again s) ∙ ap (λ l. l ++ pushed ms) (wait_again-through s)
  run-through (wakes ∷ ms) s =
      run-through ms (wake_one s) ∙ ap (λ l. l ++ pushed ms) (wake_one-through s)

  -- In every interleaving of calls and wake-ups on a new queue: while a consumer sleeps, there is a
  -- woken one for each value in the queue, so that no value waits for a notice that was lost; and the
  -- values taken, and then those in the queue, are the values pushed, in order.
  pub run-empty_queue-Served :
      (ms : List (Move A))
      → Served (run ms empty_queue)
        × ((run ms empty_queue).taken ++ (run ms empty_queue).data_queue ≡ pushed ms)
  run-empty_queue-Served ms =
      (run-Served ms empty_queue (λ h. omega arith), run-through ms empty_queue)
