-- ===== src/Containers/LinkedQueue.antt =====
-- Concurrent/day14-ThreadSafeContainer/day14-ThreadSafeContainer/ThreadSafeQue.h: `threadsafe_queue_ht`,
-- a linked list with a blank last node, one mutex for the head and one for the tail.
pub mod Chain
pub mod Fifo
pub mod LostNotice
mod Tests
use boost_net_programing.Base.{
  put, ℕ, ◌+◌, ◌-◌, Bool, true, false, Option, none, some, List, [], ◌∷◌, ◌++◌, if◌then◌else◌, ◌==◌,
  Result, ok, fault, ◌>>=◌,
}

-- `node`; a pointer is the node's index in the heap, where `none` is memory that was given back.
pub record Node {ℓ} (A : Type ℓ) : Type ℓ where
  pub data_of : Option A
  pub next : Option ℕ

-- What the thread that has `head_mutex` is about to do, once its test `head.get() != get_tail()` is
-- made: go on to `pop_head`, or fall asleep.
pub data Holder : Type 0 where
  nobody saw_data saw_empty : Holder

-- `fresh` is the next node's index, `asleep` and `woken` count the threads in `data_cond.wait`, and
-- `notices` the pushes that have still to call `notify_one`; `taken` has the values handed out.
pub record LinkedQueue {ℓ} (A : Type ℓ) : Type ℓ where
  pub heap : ℕ → Option (Node A)
  pub fresh : ℕ
  pub head : ℕ
  pub tail : ℕ
  pub holder : Holder
  pub asleep : ℕ
  pub woken : ℕ
  pub notices : ℕ
  pub taken : List A

module _ {ℓ} {A : Type ℓ} where
  abbrev pub blank : Node A
  blank = record { data_of = none; next = none }

  -- `threadsafe_queue_ht()`.
  unfoldable pub new_queue : LinkedQueue A
  new_queue = record {
    heap = put 0 (some blank) (λ i. none);
    fresh = 1;
    head = 0;
    tail = 0;
    holder = nobody;
    asleep = 0;
    woken = 0;
    notices = 0;
    taken = [];
  }

  -- `push` up to the end of its block, under `tail_mutex`.
  unfoldable pub link : A → LinkedQueue A → Option (Node A) → Result (LinkedQueue A)
  link x w none = fault
  link x w (some n) = ok (record w {
    heap =
        put w.tail (some (record { data_of = some x; next = some w.fresh }))
          (put w.fresh (some blank) w.heap);
    fresh = w.fresh + 1;
    tail = w.fresh;
    notices = w.notices + 1;
  })

  unfoldable pub push : A → LinkedQueue A → Result (LinkedQueue A)
  unfolding link
  push x w = link x w (w.heap w.tail)

  unfoldable pub wake_one : LinkedQueue A → LinkedQueue A
  wake_one w =
      if w.asleep == 0 then w else (record w { asleep = w.asleep - 1; woken = w.woken + 1 })

  -- The `notify_one` of a push.
  unfoldable pub notify : LinkedQueue A → LinkedQueue A
  unfolding wake_one
  notify w = if w.notices == 0 then w else wake_one (record w { notices = w.notices - 1 })

  -- `try_pop_head` and `wait_for_data` up to the test, when `head_mutex` is free; the first gives up
  -- when there is nothing.
  unfoldable pub try_pop_head : LinkedQueue A → Holder → LinkedQueue A
  try_pop_head w nobody = record w { holder = if w.head == w.tail then nobody else saw_data }
  try_pop_head w saw_data = w
  try_pop_head w saw_empty = w

  unfoldable pub wait_for_data : LinkedQueue A → Holder → LinkedQueue A
  wait_for_data w nobody = record w { holder = if w.head == w.tail then saw_empty else saw_data }
  wait_for_data w saw_data = w
  wait_for_data w saw_empty = w

  -- The test again, after a wake-up.
  unfoldable pub wait_again : LinkedQueue A → Holder → LinkedQueue A
  wait_again w nobody = if w.woken == 0 then w else (record w {
    woken = w.woken - 1;
    holder = if w.head == w.tail then saw_empty else saw_data;
  })
  wait_again w saw_data = w
  wait_again w saw_empty = w

  -- The wait itself, which releases `head_mutex`.
  unfoldable pub fall_asleep : LinkedQueue A → Holder → LinkedQueue A
  fall_asleep w nobody = w
  fall_asleep w saw_data = w
  fall_asleep w saw_empty = record w { holder = nobody; asleep = w.asleep + 1 }

  -- `pop_head`, the value, and the old head's end. A null value or a null head would be dereferenced.
  unfoldable pub unlink : LinkedQueue A → Option (Node A) → Result (LinkedQueue A)
  unlink w none = fault
  unlink w (some n) = elim n.data_of [
    | none ↦ fault
    | some x ↦ elim n.next [
      | none ↦ fault
      | some i ↦ ok (record w {
        heap = put w.head none w.heap;
        head = i;
        holder = nobody;
        taken = w.taken ++ x ∷ [];
      })
    ]
  ]

  unfoldable pub pop_head : LinkedQueue A → Holder → Result (LinkedQueue A)
  unfolding unlink
  pop_head w nobody = ok w
  pop_head w saw_data = unlink w (w.heap w.head)
  pop_head w saw_empty = ok w

pub data Move {ℓ} (A : Type ℓ) : Type ℓ where
  pushes : A → Move A
  notifies wakes tries waits retests sleeps pops : Move A

module _ {ℓ} {A : Type ℓ} where
  unfoldable pub step : Move A → LinkedQueue A → Result (LinkedQueue A)
  unfolding push notify wake_one try_pop_head wait_for_data wait_again fall_asleep pop_head
  step (pushes x) w = push x w
  step notifies w = ok (notify w)
  step wakes w = ok (wake_one w)
  step tries w = ok (try_pop_head w w.holder)
  step waits w = ok (wait_for_data w w.holder)
  step retests w = ok (wait_again w w.holder)
  step sleeps w = ok (fall_asleep w w.holder)
  step pops w = pop_head w w.holder

  unfoldable pub run : List (Move A) → LinkedQueue A → Result (LinkedQueue A)
  run [] w = ok w
  run (m ∷ ms) w = step m w >>= run ms
