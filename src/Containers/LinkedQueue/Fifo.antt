-- ===== src/Containers/LinkedQueue/Fifo.antt =====
-- The list of `threadsafe_queue_ht` of ThreadSafeQue.h, in every interleaving of pushes and pops.
use boost_net_programing.Base.{
  ℕ, ◌+◌, ◌-◌, ◌≡◌, ◌≢◌, refl, sym, ap, subst, ◌∙◌, none, some, List, [], ◌∷◌, ◌++◌, ◌==◌,
  append_assoc, append-nil, arith, Bool-cases, inl, inr, Result, ok, put, put_self, put_ne,
}
use boost_net_programing.Containers.LinkedQueue.{
  Holder, nobody, saw_data, saw_empty, LinkedQueue, blank, new_queue, link, push, wake_one, notify,
  try_pop_head, wait_for_data, wait_again, fall_asleep, unlink, pop_head, Move, pushes, notifies,
  wakes, tries, waits, retests, sleeps, pops, step, run,
}
use boost_net_programing.Containers.Chains.{Chain-le, Chain-agree, Chain-snoc}
use boost_net_programing.Containers.LinkedQueue.Chain.{tested, cell, Links, Holds}

module _ {A : Type 0} where
  abbrev pub pushed_by : Move A → List A
  pushed_by (pushes x) = x ∷ []
  pushed_by notifies = []
  pushed_by wakes = []
  pushed_by tries = []
  pushed_by waits = []
  pushed_by retests = []
  pushed_by sleeps = []
  pushed_by pops = []

  abbrev pub pushed : List (Move A) → List A
  pushed [] = []
  pushed (m ∷ ms) = pushed_by m ++ pushed ms

  -- The call goes through, and the values taken and those in the list are these.
  abbrev pub Goes : Result (LinkedQueue A) → List A → Type 0
  Goes r l = (w : LinkedQueue A) × (q : List A) × (r ≡ ok w) × Holds w q × (w.taken ++ q ≡ l)

  pub push-Holds :
      (x : A) (w : LinkedQueue A) (q : List A)
      → Holds w q
      → Holds
          (record w {
            heap = put w.tail (some (cell x w.fresh)) (put w.fresh (some blank) w.heap);
            fresh = w.fresh + 1;
            tail = w.fresh;
            notices = w.notices + 1;
          })
          (q ++ x ∷ [])
  push-Holds x w q v = record {
    chain =
        Chain-snoc (Links w.heap) (Links _) w.head w.tail w.fresh q x
          (λ i y n b l k e.
            put_ne w.tail i _ _ (λ e. omega arith)
            ∙ put_ne w.fresh i _ _ (λ e. omega (arith, v.below))
            ∙ e)
          (put_self w.tail _ _) v.below v.chain;
    last = put_ne w.tail w.fresh _ _ (λ e. omega (arith, v.below)) ∙ put_self w.fresh _ _;
    below = omega arith;
    seen = λ e k. omega (arith, v.below, Chain-le (Links w.heap) w.head w.tail q v.chain);
  }

  push-Goes :
      (x : A) (w : LinkedQueue A) (q : List A)
      → Holds w q
      → Goes (push x w) ((w.taken ++ q) ++ x ∷ [])
  unfolding push link
  push-Goes x w q v =
      rw v.last (_, q ++ x ∷ [], refl, push-Holds x w q v, sym (append_assoc w.taken q (x ∷ [])))

  -- A queue with the same list, and a holder that has seen a value only if there is one.
  same-Goes :
      (w : LinkedQueue A) (q : List A) (o : Holder) (a b c : ℕ)
      → Holds w q
      → (o ≡ saw_data → w.head ≢ w.tail)
      → Goes (ok (record w { holder = o; asleep = a; woken = b; notices = c })) (w.taken ++ q)
  same-Goes w q o a b c v s =
      (_, q, refl, record { chain = v.chain; last = v.last; below = v.below; seen = s }, refl)

  kept-Goes : (w : LinkedQueue A) (q : List A) → Holds w q → Goes (ok w) (w.taken ++ q)
  kept-Goes w q v = (w, q, refl, v, refl)

  wake_one-Goes :
      (w : LinkedQueue A) (q : List A) → Holds w q → Goes (ok (wake_one w)) (w.taken ++ q)
  unfolding wake_one
  wake_one-Goes w q v = elim (Bool-cases (w.asleep == 0)) [
    | inl e ↦ rw e (kept-Goes w q v)
    | inr e ↦ rw e (same-Goes w q w.holder (w.asleep - 1) (w.woken + 1) w.notices v v.seen)
  ]

  notify-Goes : (w : LinkedQueue A) (q : List A) → Holds w q → Goes (ok (notify w)) (w.taken ++ q)
  unfolding notify
  notify-Goes w q v = elim (Bool-cases (w.notices == 0)) [
    | inl e ↦ rw e (kept-Goes w q v)
    | inr e ↦ rw e (
        wake_one-Goes (record w { notices = w.notices - 1 }) q
          (record { chain = v.chain; last = v.last; below = v.below; seen = v.seen }))
  ]

  try_pop_head-Goes :
      (w : LinkedQueue A) (q : List A) (o : Holder)
      → Holds w q
      → Goes (ok (try_pop_head w o)) (w.taken ++ q)
  unfolding try_pop_head
  try_pop_head-Goes w q nobody v =
      same-Goes w q _ w.asleep w.woken w.notices v (tested w.head w.tail nobody (λ e. cc))
  try_pop_head-Goes w q saw_data v = kept-Goes w q v
  try_pop_head-Goes w q saw_empty v = kept-Goes w q v

  wait_for_data-Goes :
      (w : LinkedQueue A) (q : List A) (o : Holder)
      → Holds w q
      → Goes (ok (wait_for_data w o)) (w.taken ++ q)
  unfolding wait_for_data
  wait_for_data-Goes w q nobody v =
      same-Goes w q _ w.asleep w.woken w.notices v (tested w.head w.tail saw_empty (λ e. cc))
  wait_for_data-Goes w q saw_data v = kept-Goes w q v
  wait_for_data-Goes w q saw_empty v = kept-Goes w q v

  wait_again-Goes :
      (w : LinkedQueue A) (q : List A) (o : Holder)
      → Holds w q
      → Goes (ok (wait_again w o)) (w.taken ++ q)
  unfolding wait_again
  wait_again-Goes w q nobody v = elim (Bool-cases (w.woken == 0)) [
    | inl e ↦ rw e (kept-Goes w q v)
    | inr e ↦
        rw e (same-Goes w q _ w.asleep _ w.notices v (tested w.head w.tail saw_empty (λ k. cc)))
  ]
  wait_again-Goes w q saw_data v = kept-Goes w q v
  wait_again-Goes w q saw_empty v = kept-Goes w q v

  fall_asleep-Goes :
      (w : LinkedQueue A) (q : List A) (o : Holder)
      → Holds w q
      → Goes (ok (fall_asleep w o)) (w.taken ++ q)
  unfolding fall_asleep
  fall_asleep-Goes w q nobody v = kept-Goes w q v
  fall_asleep-Goes w q saw_data v = kept-Goes w q v
  fall_asleep-Goes w q saw_empty v = same-Goes w q nobody _ w.woken w.notices v (λ e. cc)

  unlink-Goes :
      (w : LinkedQueue A) (q : List A)
      → Holds w q
      → w.head ≢ w.tail
      → Goes (unlink w (w.heap w.head)) (w.taken ++ q)
  unfolding unlink
  unlink-Goes w [] v d = absurd (d v.chain)
  unlink-Goes w (x ∷ q) v d =
      let (n, e, l, c) = v.chain in
      rw e (
        _,
        q,
        refl,
        record {
          chain =
              Chain-agree (Links w.heap) (Links _) n w.tail q
                (λ i y m b k r e. put_ne w.head i none w.heap (λ z. omega arith) ∙ e) c;
          last = put_ne w.head w.tail none w.heap (λ z. d (sym z)) ∙ v.last;
          below = v.below;
          seen = λ z. cc;
        },
        append_assoc w.taken (x ∷ []) q,
      )

  pop_head-Goes :
      (w : LinkedQueue A) (q : List A) (o : Holder)
      → Holds w q
      → o ≡ w.holder
      → Goes (pop_head w o) (w.taken ++ q)
  unfolding pop_head
  pop_head-Goes w q nobody v e = kept-Goes w q v
  pop_head-Goes w q saw_data v e = unlink-Goes w q v (v.seen (sym e))
  pop_head-Goes w q saw_empty v e = kept-Goes w q v

  step-Goes :
      (m : Move A) (w : LinkedQueue A) (q : List A)
      → Holds w q
      → Goes (step m w) ((w.taken ++ q) ++ pushed_by m)
  unfolding step
  step-Goes (pushes x) w q v = push-Goes x w q v
  step-Goes notifies w q v = rw (append-nil (w.taken ++ q)) (notify-Goes w q v)
  step-Goes wakes w q v = rw (append-nil (w.taken ++ q)) (wake_one-Goes w q v)
  step-Goes tries w q v = rw (append-nil (w.taken ++ q)) (try_pop_head-Goes w q w.holder v)
  step-Goes waits w q v = rw (append-nil (w.taken ++ q)) (wait_for_data-Goes w q w.holder v)
  step-Goes retests w q v = rw (append-nil (w.taken ++ q)) (wait_again-Goes w q w.holder v)
  step-Goes sleeps w q v = rw (append-nil (w.taken ++ q)) (fall_asleep-Goes w q w.holder v)
  step-Goes pops w q v = rw (append-nil (w.taken ++ q)) (pop_head-Goes w q w.holder v refl)

  run-Goes :
      (ms : List (Move A)) (w : LinkedQueue A) (q : List A)
      → Holds w q
      → Goes (run ms w) ((w.taken ++ q) ++ pushed ms)
  unfolding run
  run-Goes [] w q v = rw (append-nil (w.taken ++ q)) (kept-Goes w q v)
  run-Goes (m ∷ ms) w q v =
      let (w', q', e, v', k) = step-Goes m w q v in
      rw e (
        subst (λ l. Goes (run ms w') l)
          (ap (λ l. l ++ pushed ms) k ∙ append_assoc (w.taken ++ q) (pushed_by m) (pushed ms))
          (run-Goes ms w' q' v'))

  -- In every interleaving of the two halves of pushes and pops, of waits and wake-ups on a new queue:
  -- no call reads a node that was given back or through a null pointer, the list from head to tail is
  -- sound, and the values taken, and then those in the list, are the values pushed, in order.
  pub run-new_queue-Goes : (ms : List (Move A)) → Goes (run ms new_queue) (pushed ms)
  unfolding new_queue
  run-new_queue-Goes ms = run-Goes ms new_queue [] (record {
    chain = refl;
    last = put_self 0 (some blank) (λ i. none);
    below = omega arith;
    seen = λ e. cc;
  })
