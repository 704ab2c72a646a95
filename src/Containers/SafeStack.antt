-- ===== src/Containers/SafeStack.antt =====
-- Concurrent/day14-ThreadSafeContainer/day14-ThreadSafeContainer/ThreadSafeStack.h: `threadsafe_stack`
-- and `threadsafe_stack_waitable`; each call holds the mutex but for the wait itself.
pub mod Served
mod Tests
use boost_net_programing.Base.{
  ℕ, zero, suc, ◌+◌, ◌-◌, Bool, true, false, Option, none, some, List, [], ◌∷◌, ◌++◌, if◌then◌else◌,
  ◌==◌, Result, ok, threw, underrun, fault,
}

module _ {ℓ} {A : Type ℓ} where
  -- `threadsafe_stack`, whose `pop` throws `empty_stack` on an empty stack. The top comes first.
  unfoldable pub push : A → List A → List A
  push x l = x ∷ l

  unfoldable pub pop : List A → Result (A × List A)
  pop [] = threw
  pop (x ∷ l) = ok (x, l)

-- `threadsafe_stack_waitable`: `asleep` consumers wait for a notice, `woken` ones have had it and wait
-- for the mutex; `taken` has the values that were moved out.
pub record SafeStack {ℓ} (A : Type ℓ) : Type ℓ where
  pub items : List A
  pub asleep : ℕ
  pub woken : ℕ
  pub taken : List A

module _ {ℓ} {A : Type ℓ} where
  -- `notify_one`, or a spurious wake-up.
  unfoldable pub wake_one : SafeStack A → SafeStack A
  wake_one s =
      if s.asleep == 0 then s else (record s { asleep = s.asleep - 1; woken = s.woken + 1 })

  unfoldable pub push_waitable : A → SafeStack A → SafeStack A
  unfolding wake_one push
  push_waitable x s = wake_one (record s { items = push x s.items })

  -- `top` and `pop`, with what is done if there is none.
  unfoldable pub take_top : SafeStack A → List A → SafeStack A → SafeStack A
  take_top otherwise [] s = otherwise
  take_top otherwise (x ∷ l) s = record s { items = l; taken = s.taken ++ x ∷ [] }

  -- `try_pop` in its two forms.
  unfoldable pub try_pop : SafeStack A → SafeStack A
  unfolding take_top
  try_pop s = take_top s s.items s

  -- `wait_and_pop`: the first test of the predicate, and the one of a thread that was woken.
  unfoldable pub wait_and_pop : SafeStack A → SafeStack A
  unfolding take_top
  wait_and_pop s = take_top (record s { asleep = s.asleep + 1 }) s.items s

  unfoldable pub wait_again : SafeStack A → SafeStack A
  unfolding wait_and_pop
  wait_again s = if s.woken == 0 then s else wait_and_pop (record s { woken = s.woken - 1 })

pub data Move {ℓ} (A : Type ℓ) : Type ℓ where
  pushes : A → Move A
  tries waits retests wakes : Move A

module _ {ℓ} {A : Type ℓ} where
  unfoldable pub step : Move A → SafeStack A → SafeStack A
  unfolding wake_one
  step (pushes x) s = push_waitable x s
  step tries s = try_pop s
  step waits s = wait_and_pop s
  step retests s = wait_again s
  step wakes s = wake_one s

  unfoldable pub run : List (Move A) → SafeStack A → SafeStack A
  run [] s = s
  run (m ∷ ms) s = run ms (step m s)

  abbrev pub empty_stack : SafeStack A
  empty_stack = record { items = []; asleep = 0; woken = 0; taken = [] }
