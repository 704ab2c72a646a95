-- ===== src/Containers/WorkQueue/Refine.antt =====
-- The `threadsafe_queue` of the thread pools, in day22-ThreadPool's ThreadSafeQue.h, against a list that
-- is added to at the end and taken from at both ends.
use boost_net_programing.Base.{
  ◌≡◌, ◌≢◌, refl, sym, ◌∙◌, Bool, true, false, Bool-cases, inl, inr, none, some, List, [], ◌∷◌,
  ◌==◌, ne_of_==, ok, put, put_self, put_ne, arith,
}
use boost_net_programing.Containers.Chains.{Chain-Unsnoc}
use boost_net_programing.Containers.WorkQueue.{
  Node, Holder, nobody, waited, saw_data, saw_empty, WorkQueue, new_queue, unlink, pop_head,
  cut_tail, prev_of, steal_at, try_steal, Move, pushes, notifies, wakes, exits, tries, waits,
  retests, times_out, sleeps, pops, steals, step, run,
}
use boost_net_programing.Containers.WorkQueue.Deque.{Links, Holds, pop-Chain, steal-Chain}
use boost_net_programing.Containers.WorkQueue.Moves.{
  contradicted, Does, DoesAll, Goes, push-Goes, Kept-Goes, wake_one-Goes, notify-Goes,
  exit_queue-Goes, try_pop_head-Goes, wait_for_data-Goes, wait_again-Goes, fall_asleep-Goes,
}

module _ {A : Type 0} where
  unlink-Goes :
      (w : WorkQueue A) (q : List A)
      → Holds w q
      → w.head ≢ w.tail
      → Goes (Does pops q w.taken) (unlink w (w.heap w.head))
  unfolding unlink
  unlink-Goes w [] v d = absurd (d v.chain)
  unlink-Goes w (x ∷ q) v d =
      let (n, (p, e, b), l, c) = v.chain in
      let (m, f) = v.last in
      rw e (
        _,
        q,
        refl,
        record {
          chain = pop-Chain w.heap w.head n w.tail q l c;
          last = (m, put_ne w.head w.tail none w.heap (λ z. d (sym z)) ∙ f);
          below = v.below;
          seen = λ h. cc;
          told = λ h. cc;
        },
        inr (x, refl, refl),
      )

  pops_kept :
      (w : WorkQueue A) (q : List A) (o : Holder) (b : Bool)
      → Holds w q
      → (o ≡ saw_data → w.head ≢ w.tail)
      → o ≢ waited
      → Goes (Does pops q w.taken) (ok (record w { holder = o; bstop = b }))
  pops_kept w q o b v s d = (
    _,
    q,
    refl,
    record { chain = v.chain; last = v.last; below = v.below; seen = s; told = λ h. absurd (d h) },
    inl (refl, refl),
  )

  pop_head-Goes :
      (w : WorkQueue A) (q : List A) (o : Holder)
      → Holds w q
      → o ≡ w.holder
      → Goes (Does pops q w.taken) (pop_head w o)
  unfolding pop_head
  pop_head-Goes w q nobody v e = (w, q, refl, v, inl (refl, refl))
  pop_head-Goes w q waited v e = elim (Bool-cases w.bstop) [
    | inl f ↦ rw f (pops_kept w q nobody true v (λ h. cc) (λ h. cc))
    | inr f ↦ rw f (
        pops_kept w q saw_data false v
          (λ h. elim (v.told (sym e)) [ inl d ↦ d | inr g ↦ absurd (contradicted w.bstop g f) ])
          (λ h. cc))
  ]
  pop_head-Goes w q saw_data v e = unlink-Goes w q v (v.seen (sym e))
  pop_head-Goes w q saw_empty v e = (w, q, refl, v, inl (refl, refl))

  steal_at-Goes :
      (w : WorkQueue A) (q : List A)
      → Holds w q
      → nobody ≡ w.holder
      → w.head ≢ w.tail
      → Goes (Does steals q w.taken) (steal_at w (prev_of (w.heap w.tail)))
  unfolding steal_at cut_tail
  steal_at-Goes w [] v o d = absurd (d v.chain)
  steal_at-Goes w (x ∷ q) v o d =
      let (r, y, i, s, c, (p, f, b), l) = Chain-Unsnoc (Links w.heap) w.head w.tail x q v.chain in
      let n : Node A = record { data_of = some y; next = some w.tail; prev = p } in
      rw (b, f)
        (
          _,
          r,
          refl,
          record {
            chain = steal-Chain w.heap w.head i w.tail r n l f c;
            last = (
              record n { next = none },
              put_self i (some (record n { next = none })) (put w.tail none w.heap),
            );
            below = omega (arith, l, v.below);
            seen = λ h. cc;
            told = λ h. cc;
          },
          inr (y, s, refl),
        )

  try_steal-Goes :
      (w : WorkQueue A) (q : List A) (o : Holder)
      → Holds w q
      → o ≡ w.holder
      → Goes (Does steals q w.taken) (try_steal w o)
  unfolding try_steal
  try_steal-Goes w q nobody v o = elim (Bool-cases (w.head == w.tail)) [
    | inl e ↦ rw e (w, q, refl, v, inl (refl, refl))
    | inr e ↦ rw e (steal_at-Goes w q v o (ne_of_== w.head w.tail e))
  ]
  try_steal-Goes w q waited v o = (w, q, refl, v, inl (refl, refl))
  try_steal-Goes w q saw_data v o = (w, q, refl, v, inl (refl, refl))
  try_steal-Goes w q saw_empty v o = (w, q, refl, v, inl (refl, refl))

  step-Goes :
      (m : Move A) (w : WorkQueue A) (q : List A) → Holds w q → Goes (Does m q w.taken) (step m w)
  unfolding step
  step-Goes (pushes x) w q v = push-Goes x w q v
  step-Goes notifies w q v = notify-Goes w q v
  step-Goes wakes w q v = wake_one-Goes w q v
  step-Goes exits w q v = exit_queue-Goes w q v
  step-Goes tries w q v = try_pop_head-Goes w q w.holder v
  step-Goes waits w q v = wait_for_data-Goes w q w.holder v
  step-Goes retests w q v = wait_again-Goes saw_empty w q w.holder (λ e. cc) (λ e. cc) v
  step-Goes times_out w q v = wait_again-Goes nobody w q w.holder (λ e. cc) (λ e. cc) v
  step-Goes sleeps w q v = fall_asleep-Goes w q w.holder v
  step-Goes pops w q v = pop_head-Goes w q w.holder v refl
  step-Goes steals w q v = try_steal-Goes w q w.holder v refl

  run-Goes :
      (ms : List (Move A)) (w : WorkQueue A) (q : List A)
      → Holds w q
      → Goes (DoesAll ms q w.taken) (run ms w)
  unfolding run
  run-Goes [] w q v = Kept-Goes w q v
  run-Goes (m ∷ ms) w q v =
      let (w', q', e, v', d) = step-Goes m w q v in
      let (w'', q'', f, v'', d') = run-Goes ms w' q' v' in
      rw e (w'', q'', f, v'', (q', w'.taken, d, d'))

  -- In every interleaving of pushes, waits, pops, steals and `Exit` on a new queue, whatever `bstop`
  -- holds at first: no node is read after it was given back and no null pointer is dereferenced, and
  -- the values in the queue and those handed out are those of a list to which a push adds at the end,
  -- from which a pop takes the first value and a steal the last.
  pub run-new_queue-DoesAll :
      (junk : Bool) (ms : List (Move A)) → Goes (DoesAll ms [] []) (run ms (new_queue junk))
  unfolding new_queue
  run-new_queue-DoesAll junk ms = run-Goes ms (new_queue junk) [] (record {
    chain = refl;
    last = (_, put_self 0 (some (record { data_of = none; next = none; prev = none })) (λ i. none));
    below = omega arith;
    seen = λ e. cc;
    told = λ e. cc;
  })
