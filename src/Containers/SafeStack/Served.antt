-- ===== src/Containers/SafeStack/Served.antt =====
-- What `threadsafe_stack_waitable` of ThreadSafeStack.h promises its producers and consumers.
use mathlib.Core.List.{Perm, perm_middle}
use mathlib.Core.List.Perm
use boost_net_programing.Base.{
  ◌+◌, ◌≤◌, ◌<◌, sym, subst, List, [], ◌∷◌, ◌++◌, ◌==◌, length, append_assoc, append-nil, arith,
  Bool-cases, inl, inr,
}
use boost_net_programing.Containers.SafeStack.{
  SafeStack, push, wake_one, push_waitable, take_top, try_pop, wait_and_pop, wait_again, Move,
  pushes, tries, waits, retests, wakes, step, run, empty_stack,
}

module _ {ℓ} {A : Type ℓ} where
  -- While a consumer sleeps, there is a woken one for each value.
  abbrev pub Served : SafeStack A → Type 0
  Served s = 0 < s.asleep → length s.items ≤ s.woken

  step-Served : (m : Move A) (s : SafeStack A) → Served s → Served (step m s)
  unfolding step push push_waitable wake_one try_pop wait_and_pop wait_again take_top
  step-Served (pushes x) s v = ground arith
  step-Served tries s v = ground arith
  step-Served waits s v = ground arith
  step-Served retests s v = ground arith
  step-Served wakes s v = ground arith

  run-Served : (ms : List (Move A)) (s : SafeStack A) → Served s → Served (run ms s)
  unfolding run
  run-Served [] s v = v
  run-Served (m ∷ ms) s v = run-Served ms (step m s) (step-Served m s v)

  abbrev pub pushed : List (Move A) → List A
  pushed [] = []
  pushed (pushes x ∷ ms) = x ∷ pushed ms
  pushed (tries ∷ ms) = pushed ms
  pushed (waits ∷ ms) = pushed ms
  pushed (retests ∷ ms) = pushed ms
  pushed (wakes ∷ ms) = pushed ms

  -- The values that went in, as far as they are known, in some order.
  abbrev Through : SafeStack A → List A → Type ℓ
  Through s l = Perm (s.taken ++ s.items) l

  wake_one-Through : (s : SafeStack A) (l : List A) → Through s l → Through (wake_one s) l
  unfolding wake_one
  wake_one-Through s l h = elim (Bool-cases (s.asleep == 0)) [ inl e ↦ rw e h | inr e ↦ rw e h ]

  take_top-Through :
      (other : SafeStack A) (items : List A) (s : SafeStack A) (l : List A)
      → Through other l
      → Perm (s.taken ++ items) l
      → Through (take_top other items s) l
  unfolding take_top
  take_top-Through other [] s l h k = h
  take_top-Through other (x ∷ items) s l h k =
      subst (λ r. Perm r l) (sym (append_assoc s.taken (x ∷ []) items)) k

  wait_again-Through : (s : SafeStack A) (l : List A) → Through s l → Through (wait_again s) l
  unfolding wait_again wait_and_pop
  wait_again-Through s l h = elim (Bool-cases (s.woken == 0)) [
    | inl e ↦ rw e h
    | inr e ↦ rw e (take_top-Through _ s.items _ l h h)
  ]

  snoc-Perm : (l : List A) (x : A) → Perm (l ++ x ∷ []) (x ∷ l)
  snoc-Perm l x = subst (λ r. Perm (l ++ x ∷ []) (x ∷ r)) (append-nil l) (perm_middle l [])

  run-Through :
      (ms : List (Move A)) (s : SafeStack A) (l : List A)
      → Through s l
      → Through (run ms s) (l ++ pushed ms)
  unfolding run step push_waitable push try_pop wait_and_pop
  run-Through [] s l h = rw (append-nil l) h
  run-Through (pushes x ∷ ms) s l h =
      subst (λ r. Perm ((run ms (push_waitable x s)).taken ++ (run ms (push_waitable x s)).items) r)
        (append_assoc l (x ∷ []) (pushed ms))
        (run-Through ms (push_waitable x s) (l ++ x ∷ []) (
          wake_one-Through (record s { items = x ∷ s.items }) (l ++ x ∷ [])
            (Perm.trans (perm_middle s.taken s.items)
              (Perm.trans (Perm.cons x h) (Perm.symm (snoc-Perm l x))))))
  run-Through (tries ∷ ms) s l h = run-Through ms (try_pop s) l (take_top-Through s s.items s l h h)
  run-Through (waits ∷ ms) s l h =
      run-Through ms (wait_and_pop s) l
        (take_top-Through (record s { asleep = s.asleep + 1 }) s.items s l h h)
  run-Through (retests ∷ ms) s l h = run-Through ms (wait_again s) l (wait_again-Through s l h)
  run-Through (wakes ∷ ms) s l h = run-Through ms (wake_one s) l (wake_one-Through s l h)

  -- In every interleaving of calls and wake-ups on a new stack: while a consumer sleeps, there is a
  -- woken one for each value on the stack; and the values taken and those on the stack are the values
  -- pushed, each as often.
  pub run-empty_stack-Served :
      (ms : List (Move A))
      → Served (run ms empty_stack)
        × Perm ((run ms empty_stack).taken ++ (run ms empty_stack).items) (pushed ms)
  run-empty_stack-Served ms =
      (run-Served ms empty_stack (λ h. omega arith), run-Through ms empty_stack [] Perm.rfl)
