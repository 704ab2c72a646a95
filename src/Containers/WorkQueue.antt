-- ===== src/Containers/WorkQueue.antt =====
-- Concurrent/day22-ThreadPool/day22-ThreadPool/ThreadSafeQue.h: `threadsafe_queue` of the thread pools,
-- linked both ways, with a mutex for either end; others steal from its tail.
pub mod Deque
pub mod Moves
pub mod Refine
mod Tests
use boost_net_programing.Base.{
  ℕ, ◌+◌, ◌-◌, Bool, true, false, ◌||◌, not, Option, none, some, List, [], ◌∷◌, ◌++◌, if◌then◌else◌,
  ◌==◌, Result, ok, fault, ◌>>=◌, put,
}

-- `node`, by its index in the heap. `prev` is set by `push` only.
pub record Node {ℓ} (A : Type ℓ) : Type ℓ where
  pub data_of : Option A
  pub next : Option ℕ
  pub prev : Option ℕ

-- What the thread that has `head_mutex` is about to do: test `bstop` behind a wait that is over, go on
-- to `pop_head`, or fall asleep.
pub data Holder : Type 0 where
  nobody waited saw_data saw_empty : Holder

-- `asleep` and `woken` count the threads in a wait on `data_cond`, `notices` the pushes that have still
-- to call `notify_one`; `taken` has the values handed out.
pub record WorkQueue {ℓ} (A : Type ℓ) : Type ℓ where
  pub heap : ℕ → Option (Node A)
  pub fresh : ℕ
  pub head : ℕ
  pub tail : ℕ
  pub bstop : Bool
  pub holder : Holder
  pub asleep : ℕ
  pub woken : ℕ
  pub notices : ℕ
  pub taken : List A

module _ {ℓ} {A : Type ℓ} where
  -- `threadsafe_queue()`, which does not set `bstop`: `junk` is what its memory holds.
  unfoldable pub new_queue : Bool → WorkQueue A
  unfolding put
  new_queue junk = record {
    heap = put 0 (some (record { data_of = none; next = none; prev = none })) (λ i. none);
    fresh = 1;
    head = 0;
    tail = 0;
    bstop = junk;
    holder = nobody;
    asleep = 0;
    woken = 0;
    notices = 0;
    taken = [];
  }

  -- `push` up to the end of its block, under `tail_mutex`.
  unfoldable pub link : A → WorkQueue A → Option (Node A) → Result (WorkQueue A)
  unfolding put
  link x w none = fault
  link x w (some n) = ok (record w {
    heap =
        put w.tail (some (record n { data_of = some x; next = some w.fresh }))
          (put w.fresh (some (record { data_of = none; next = none; prev = some w.tail })) w.heap);
    fresh = w.fresh + 1;
    tail = w.fresh;
    notices = w.notices + 1;
  })

  unfoldable pub push : A → WorkQueue A → Result (WorkQueue A)
  unfolding link
  push x w = link x w (w.heap w.tail)

  unfoldable pub wake_one : WorkQueue A → WorkQueue A
  wake_one w =
      if w.asleep == 0 then w else (record w { asleep = w.asleep - 1; woken = w.woken + 1 })

  -- The `notify_one` of a push.
  unfoldable pub notify : WorkQueue A → WorkQueue A
  unfolding wake_one
  notify w = if w.notices == 0 then w else wake_one (record w { notices = w.notices - 1 })

  -- `Exit`: `bstop`, and then `notify_all`.
  unfoldable pub exit_queue : WorkQueue A → WorkQueue A
  exit_queue w = record w { bstop = true; asleep = 0; woken = w.woken + w.asleep }

  -- `try_pop_head` up to its test, when `head_mutex` is free.
  unfoldable pub try_pop_head : WorkQueue A → Holder → WorkQueue A
  try_pop_head w nobody = record w { holder = if w.head == w.tail then nobody else saw_data }
  try_pop_head w waited = w
  try_pop_head w saw_data = w
  try_pop_head w saw_empty = w

  -- The predicate of the waits, and what follows if it does not hold.
  unfoldable pub await_data : Holder → WorkQueue A → WorkQueue A
  await_data otherwise w = record w {
    holder = if not (w.head == w.tail) || w.bstop then waited else otherwise;
  }

  unfoldable pub wait_for_data : WorkQueue A → Holder → WorkQueue A
  unfolding await_data
  wait_for_data w nobody = await_data saw_empty w
  wait_for_data w waited = w
  wait_for_data w saw_data = w
  wait_for_data w saw_empty = w

  -- The test again, after a wake-up, or after the 100 milliseconds of `wait_and_pop_timeout`, which then
  -- gives up.
  unfoldable pub wait_again : Holder → WorkQueue A → Holder → WorkQueue A
  unfolding await_data
  wait_again otherwise w nobody =
      if w.woken == 0 then w else await_data otherwise (record w { woken = w.woken - 1 })
  wait_again otherwise w waited = w
  wait_again otherwise w saw_data = w
  wait_again otherwise w saw_empty = w

  -- The wait itself, which releases `head_mutex`.
  unfoldable pub fall_asleep : WorkQueue A → Holder → WorkQueue A
  fall_asleep w nobody = w
  fall_asleep w waited = w
  fall_asleep w saw_data = w
  fall_asleep w saw_empty = record w { holder = nobody; asleep = w.asleep + 1 }

  -- `pop_head`, the value, and the old head's end. A null value or a null head would be dereferenced.
  unfoldable pub unlink : WorkQueue A → Option (Node A) → Result (WorkQueue A)
  unfolding put
  unlink w none = fault
  unlink w (some n) = elim n.data_of [
    | none ↦ fault
    | some x ↦ elim n.next [
      | none ↦ fault
      | some i ↦ ok (record w {
        heap = put w.head none w.heap;
        head = i;
        holder = nobody;
        taken = w.taken ++ x ∷ [];
      })
    ]
  ]

  -- Behind a wait, `bstop` is tested again.
  unfoldable pub pop_head : WorkQueue A → Holder → Result (WorkQueue A)
  unfolding unlink
  pop_head w nobody = ok w
  pop_head w waited = ok (record w { holder = if w.bstop then nobody else saw_data })
  pop_head w saw_data = unlink w (w.heap w.head)
  pop_head w saw_empty = ok w

  -- The end of `try_steal`: the value is moved out of `*prev_node`, and the old tail's end.
  unfoldable pub cut_tail : ℕ → WorkQueue A → Option (Node A) → Result (WorkQueue A)
  unfolding put
  cut_tail i w none = fault
  cut_tail i w (some n) = elim n.data_of [
    | none ↦ fault
    | some x ↦ ok (record w {
      heap = put i (some (record n { next = none })) (put w.tail none w.heap);
      tail = i;
      taken = w.taken ++ x ∷ [];
    })
  ]

  unfoldable pub prev_of : Option (Node A) → Option ℕ
  prev_of none = none
  prev_of (some n) = n.prev

  unfoldable pub steal_at : WorkQueue A → Option ℕ → Result (WorkQueue A)
  unfolding cut_tail
  steal_at w none = fault
  steal_at w (some i) = cut_tail i w (w.heap i)

  -- `try_steal`, which has both mutexes.
  unfoldable pub try_steal : WorkQueue A → Holder → Result (WorkQueue A)
  unfolding steal_at prev_of
  try_steal w nobody = if w.head == w.tail then ok w else steal_at w (prev_of (w.heap w.tail))
  try_steal w waited = ok w
  try_steal w saw_data = ok w
  try_steal w saw_empty = ok w

pub data Move {ℓ} (A : Type ℓ) : Type ℓ where
  pushes : A → Move A
  notifies wakes exits tries waits retests times_out sleeps pops steals : Move A

module _ {ℓ} {A : Type ℓ} where
  unfoldable pub step : Move A → WorkQueue A → Result (WorkQueue A)
  unfolding push notify wake_one exit_queue try_pop_head wait_for_data wait_again fall_asleep
      pop_head try_steal
  step (pushes x) w = push x w
  step notifies w = ok (notify w)
  step wakes w = ok (wake_one w)
  step exits w = ok (exit_queue w)
  step tries w = ok (try_pop_head w w.holder)
  step waits w = ok (wait_for_data w w.holder)
  step retests w = ok (wait_again saw_empty w w.holder)
  step times_out w = ok (wait_again nobody w w.holder)
  step sleeps w = ok (fall_asleep w w.holder)
  step pops w = pop_head w w.holder
  step steals w = try_steal w w.holder

  unfoldable pub run : List (Move A) → WorkQueue A → Result (WorkQueue A)
  run [] w = ok w
  run (m ∷ ms) w = step m w >>= run ms
