-- ===== src/Containers/SafeQueue.antt =====
-- Concurrent/day14-ThreadSafeContainer/day14-ThreadSafeContainer/ThreadSafeQue.h: `threadsafe_queue`, in
-- which each call holds the mutex but for the wait itself.
pub mod Served
mod Tests
use boost_net_programing.Base.{
  ℕ, zero, suc, ◌+◌, ◌-◌, Bool, true, false, Option, none, some, List, [], ◌∷◌, ◌++◌, if◌then◌else◌,
  ◌==◌,
}

-- `asleep` consumers wait for a notice, and `woken` ones have had it and wait for the mutex; `taken`
-- has the values that were moved out.
pub record SafeQueue {ℓ} (A : Type ℓ) : Type ℓ where
  pub data_queue : List A
  pub asleep : ℕ
  pub woken : ℕ
  pub taken : List A

module _ {ℓ} {A : Type ℓ} where
  -- `notify_one`, or a spurious wake-up.
  unfoldable pub wake_one : SafeQueue A → SafeQueue A
  wake_one s =
      if s.asleep == 0 then s else (record s { asleep = s.asleep - 1; woken = s.woken + 1 })

  unfoldable pub push : A → SafeQueue A → SafeQueue A
  unfolding wake_one
  push x s = wake_one (record s { data_queue = s.data_queue ++ x ∷ [] })

  -- `front` and `pop`, with what is done if there is none.
  unfoldable pub take_front : SafeQueue A → List A → SafeQueue A → SafeQueue A
  take_front otherwise [] s = otherwise
  take_front otherwise (x ∷ q) s = record s { data_queue = q; taken = s.taken ++ x ∷ [] }

  -- `try_pop` in its two forms.
  unfoldable pub try_pop : SafeQueue A → SafeQueue A
  unfolding take_front
  try_pop s = take_front s s.data_queue s

  -- `wait_and_pop`: the first test of the predicate, and the one of a thread that was woken.
  unfoldable pub wait_and_pop : SafeQueue A → SafeQueue A
  unfolding take_front
  wait_and_pop s = take_front (record s { asleep = s.asleep + 1 }) s.data_queue s

  unfoldable pub wait_again : SafeQueue A → SafeQueue A
  unfolding wait_and_pop
  wait_again s = if s.woken == 0 then s else wait_and_pop (record s { woken = s.woken - 1 })

pub data Move {ℓ} (A : Type ℓ) : Type ℓ where
  pushes : A → Move A
  tries waits retests wakes : Move A

module _ {ℓ} {A : Type ℓ} where
  unfoldable pub step : Move A → SafeQueue A → SafeQueue A
  unfolding wake_one
  step (pushes x) s = push x s
  step tries s = try_pop s
  step waits s = wait_and_pop s
  step retests s = wait_again s
  step wakes s = wake_one s

  unfoldable pub run : List (Move A) → SafeQueue A → SafeQueue A
  run [] s = s
  run (m ∷ ms) s = run ms (step m s)

  abbrev pub empty_queue : SafeQueue A
  empty_queue = record { data_queue = []; asleep = 0; woken = 0; taken = [] }
