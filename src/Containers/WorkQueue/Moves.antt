-- ===== src/Containers/WorkQueue/Moves.antt =====
-- What each call of the queue of the thread pools does to the list it holds, in day22-ThreadPool's
-- ThreadSafeQue.h.
use boost_net_programing.Base.{
  ℕ, ◌+◌, ◌-◌, ◌≡◌, ◌≢◌, refl, ◌∙◌, Bool, true, false, Bool-cases, inl, inr, ◌⊎◌, Option, none,
  some, List, [], ◌∷◌, ◌++◌, ◌==◌, ne_of_==, Result, ok, put, put_self, put_ne, arith,
}
use boost_net_programing.Containers.Chains.{Chain-le}
use boost_net_programing.Containers.WorkQueue.{
  Node, Holder, nobody, waited, saw_data, saw_empty, WorkQueue, link, push, wake_one, notify,
  exit_queue, try_pop_head, await_data, wait_for_data, wait_again, fall_asleep, Move, pushes,
  notifies, wakes, exits, tries, waits, retests, times_out, sleeps, pops, steals,
}
use boost_net_programing.Containers.WorkQueue.Deque.{Links, Holds, push-Chain}

pub contradicted : (b : Bool) → b ≡ true → b ≡ false → ⊥
contradicted b e f = cc

module _ {A : Type 0} where
  abbrev pub Kept : List A → List A → List A → List A → Type 0
  Kept q out q' out' = (q' ≡ q) × (out' ≡ out)

  -- What a move does to the values in the queue and to those handed out: a push adds at the end, a
  -- pop that goes through takes the first, and a steal that goes through takes the last.
  abbrev pub Does : Move A → List A → List A → List A → List A → Type 0
  Does (pushes x) q out q' out' = (q' ≡ q ++ x ∷ []) × (out' ≡ out)
  Does pops q out q' out' = Kept q out q' out' ⊎ ((x : A) × (q ≡ x ∷ q') × (out' ≡ out ++ x ∷ []))
  Does steals q out q' out' =
      Kept q out q' out' ⊎ ((x : A) × (q ≡ q' ++ x ∷ []) × (out' ≡ out ++ x ∷ []))
  Does notifies q out q' out' = Kept q out q' out'
  Does wakes q out q' out' = Kept q out q' out'
  Does exits q out q' out' = Kept q out q' out'
  Does tries q out q' out' = Kept q out q' out'
  Does waits q out q' out' = Kept q out q' out'
  Does retests q out q' out' = Kept q out q' out'
  Does times_out q out q' out' = Kept q out q' out'
  Does sleeps q out q' out' = Kept q out q' out'

  abbrev pub DoesAll : List (Move A) → List A → List A → List A → List A → Type 0
  DoesAll [] q out q' out' = Kept q out q' out'
  DoesAll (m ∷ ms) q out q'' out'' =
      (q' : List A) × (out' : List A) × Does m q out q' out' × DoesAll ms q' out' q'' out''

  -- The call goes through, and the queue then has values that `P` relates to those before.
  abbrev pub Goes : (List A → List A → Type 0) → Result (WorkQueue A) → Type 0
  Goes P r = (w : WorkQueue A) × (q : List A) × (r ≡ ok w) × Holds w q × P q w.taken

  pub push-Goes :
      (x : A) (w : WorkQueue A) (q : List A)
      → Holds w q
      → Goes (Does (pushes x) q w.taken) (push x w)
  unfolding push link
  push-Goes x w q v =
      let (n, e) = v.last in
      let fresh_node : Option (Node A) =
        some (record { data_of = none; next = none; prev = some w.tail }) in
      let full : Option (Node A) = some (record n { data_of = some x; next = some w.fresh }) in
      rw e (
        _,
        q ++ x ∷ [],
        refl,
        record {
          chain = push-Chain w q x n v e;
          last = (
            record { data_of = none; next = none; prev = some w.tail },
            put_ne w.tail w.fresh full (put w.fresh fresh_node w.heap) (λ z. omega (arith, v.below))
                ∙ put_self w.fresh fresh_node w.heap,
          );
          below = omega arith;
          seen = λ h k. omega (arith, v.below, Chain-le (Links w.heap) w.head w.tail q v.chain);
          told = λ h.
              inl (λ k. omega (arith, v.below, Chain-le (Links w.heap) w.head w.tail q v.chain));
        },
        (refl, refl),
      )

  -- The same list, and a holder that knows no more than is so.
  same-Goes :
      (w : WorkQueue A) (q : List A) (o : Holder) (b : Bool) (x y z : ℕ)
      → Holds w q
      → (o ≡ saw_data → w.head ≢ w.tail)
      → (o ≡ waited → (w.head ≢ w.tail) ⊎ (b ≡ true))
      → Goes
          (Kept q w.taken)
          (ok (record w { holder = o; bstop = b; asleep = x; woken = y; notices = z }))
  same-Goes w q o b x y z v s t = (
    _,
    q,
    refl,
    record { chain = v.chain; last = v.last; below = v.below; seen = s; told = t },
    (refl, refl),
  )

  pub Kept-Goes : (w : WorkQueue A) (q : List A) → Holds w q → Goes (Kept q w.taken) (ok w)
  Kept-Goes w q v = (w, q, refl, v, (refl, refl))

  pub wake_one-Goes :
      (w : WorkQueue A) (q : List A) → Holds w q → Goes (Kept q w.taken) (ok (wake_one w))
  unfolding wake_one
  wake_one-Goes w q v = elim (Bool-cases (w.asleep == 0)) [
    | inl e ↦ rw e (Kept-Goes w q v)
    | inr e ↦
        rw e (same-Goes w q w.holder w.bstop (w.asleep - 1) (w.woken + 1) w.notices v v.seen v.told)
  ]

  pub notify-Goes :
      (w : WorkQueue A) (q : List A) → Holds w q → Goes (Kept q w.taken) (ok (notify w))
  unfolding notify
  notify-Goes w q v = elim (Bool-cases (w.notices == 0)) [
    | inl e ↦ rw e (Kept-Goes w q v)
    | inr e ↦ rw e (
        wake_one-Goes (record w { notices = w.notices - 1 }) q
          (record {
            chain = v.chain;
            last = v.last;
            below = v.below;
            seen = v.seen;
            told = v.told;
          }))
  ]

  pub exit_queue-Goes :
      (w : WorkQueue A) (q : List A) → Holds w q → Goes (Kept q w.taken) (ok (exit_queue w))
  unfolding exit_queue
  exit_queue-Goes w q v =
      same-Goes w q w.holder true 0 (w.woken + w.asleep) w.notices v v.seen (λ e. inr refl)

  pub try_pop_head-Goes :
      (w : WorkQueue A) (q : List A) (o : Holder)
      → Holds w q
      → Goes (Kept q w.taken) (ok (try_pop_head w o))
  unfolding try_pop_head
  try_pop_head-Goes w q nobody v = elim (Bool-cases (w.head == w.tail)) [
    | inl e ↦ rw e (same-Goes w q nobody w.bstop w.asleep w.woken w.notices v (λ h. cc) (λ h. cc))
    | inr e ↦ rw e (
        same-Goes w q saw_data w.bstop w.asleep w.woken w.notices v (λ h. ne_of_== w.head w.tail e)
          (λ h. cc))
  ]
  try_pop_head-Goes w q waited v = Kept-Goes w q v
  try_pop_head-Goes w q saw_data v = Kept-Goes w q v
  try_pop_head-Goes w q saw_empty v = Kept-Goes w q v

  -- `otherwise` is to fall asleep or to go.
  await_data-Goes :
      (o : Holder) (w : WorkQueue A) (q : List A) (k : ℕ)
      → Holds w q
      → o ≢ waited
      → o ≢ saw_data
      → Goes (Kept q w.taken) (ok (await_data o (record w { woken = k })))
  unfolding await_data
  await_data-Goes o w q k v d d' = elim (Bool-cases (w.head == w.tail)) [
    | inr e ↦ rw e (
        same-Goes w q waited w.bstop w.asleep k w.notices v (λ h. cc)
          (λ h. inl (ne_of_== w.head w.tail e)))
    | inl e ↦ elim (Bool-cases w.bstop) [
      | inl f ↦
          rw (e, f) (same-Goes w q waited true w.asleep k w.notices v (λ h. cc) (λ h. inr refl))
      | inr f ↦
          rw (e, f)
            (same-Goes w q o false w.asleep k w.notices v (λ h. absurd (d' h)) (λ h. absurd (d h)))
    ]
  ]

  pub wait_for_data-Goes :
      (w : WorkQueue A) (q : List A) (o : Holder)
      → Holds w q
      → Goes (Kept q w.taken) (ok (wait_for_data w o))
  unfolding wait_for_data
  wait_for_data-Goes w q nobody v = await_data-Goes saw_empty w q w.woken v (λ e. cc) (λ e. cc)
  wait_for_data-Goes w q waited v = Kept-Goes w q v
  wait_for_data-Goes w q saw_data v = Kept-Goes w q v
  wait_for_data-Goes w q saw_empty v = Kept-Goes w q v

  pub wait_again-Goes :
      (otherwise : Holder) (w : WorkQueue A) (q : List A) (o : Holder)
      → otherwise ≢ waited
      → otherwise ≢ saw_data
      → Holds w q
      → Goes (Kept q w.taken) (ok (wait_again otherwise w o))
  unfolding wait_again
  wait_again-Goes otherwise w q nobody d d' v = elim (Bool-cases (w.woken == 0)) [
    | inl e ↦ rw e (Kept-Goes w q v)
    | inr e ↦ rw e (await_data-Goes otherwise w q (w.woken - 1) v d d')
  ]
  wait_again-Goes otherwise w q waited d d' v = Kept-Goes w q v
  wait_again-Goes otherwise w q saw_data d d' v = Kept-Goes w q v
  wait_again-Goes otherwise w q saw_empty d d' v = Kept-Goes w q v

  pub fall_asleep-Goes :
      (w : WorkQueue A) (q : List A) (o : Holder)
      → Holds w q
      → Goes (Kept q w.taken) (ok (fall_asleep w o))
  unfolding fall_asleep
  fall_asleep-Goes w q nobody v = Kept-Goes w q v
  fall_asleep-Goes w q waited v = Kept-Goes w q v
  fall_asleep-Goes w q saw_data v = Kept-Goes w q v
  fall_asleep-Goes w q saw_empty v =
      same-Goes w q nobody w.bstop (w.asleep + 1) w.woken w.notices v (λ e. cc) (λ e. cc)
