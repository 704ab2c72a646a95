-- ===== src/Containers/CircularQue.antt =====
-- Concurrent/day12-circularque/day12-circularque/CircularqueSeq.h: a bounded queue in a circular
-- array, under a spin lock.
pub mod Fifo
pub mod Refine
pub mod Runs
mod Tests
use boost_net_programing.Base.{
  ℕ, ◌+◌, ◌%◌, Bool, true, false, Option, none, some, List, [], ◌∷◌, if◌then◌else◌, ◌==◌, get_elem?,
  set, replicate,
}

-- `cells` is the allocated array: `none` is memory in which no object was constructed.
pub record CircularQue {ℓ} (A : Type ℓ) : Type ℓ where
  pub max_size : ℕ
  pub cells : List (Option A)
  pub atomic_using : Bool
  pub head : ℕ
  pub tail : ℕ

-- What a call comes to: it may spin on a lock that nobody releases, or read raw memory.
pub data Called {ℓ} (B : Type ℓ) : Type ℓ where
  returned : B → Called B
  spins : Called B
  raw : Called B

module _ {ℓ} {A : Type ℓ} where
  unfoldable pub make : ℕ → CircularQue A
  make cap = record {
    max_size = cap + 1;
    cells = replicate (cap + 1) none;
    atomic_using = false;
    head = 0;
    tail = 0;
  }

  -- The loop on `compare_exchange_strong(false, true)`, and the one back.
  unfoldable pub with_lock {κ} :
      {B : Type κ}
      → (CircularQue A → Called (CircularQue A × B))
      → CircularQue A
      → Called (CircularQue A × B)
  with_lock body r =
      if r.atomic_using then spins else (elim (body (record r { atomic_using = true })) [
        | returned (r', b) ↦ returned (record r' { atomic_using = false }, b)
        | spins ↦ spins
        | raw ↦ raw
      ])

  unfoldable pub emplace_locked : A → CircularQue A → Called (CircularQue A × Bool)
  emplace_locked x r =
      if (r.tail + 1) % r.max_size == r.head
      then returned (r, false)
      else returned
          (record r { cells = set r.cells r.tail (some x); tail = (r.tail + 1) % r.max_size }, true)

  unfoldable pub emplace : A → CircularQue A → Called (CircularQue A × Bool)
  emplace x = with_lock (emplace_locked x)

  -- `push`, of an lvalue or an rvalue.
  unfoldable pub push : A → CircularQue A → Called (CircularQue A × Bool)
  push x = emplace x

  unfoldable pub take_cell : Option (Option A) → CircularQue A → Called (CircularQue A × Option A)
  take_cell (some (some x)) r = returned (record r { head = (r.head + 1) % r.max_size }, some x)
  take_cell _ r = raw

  -- `pop(T& val)` returns false and leaves `val`, or true with the value moved out.
  unfoldable pub pop_locked : CircularQue A → Called (CircularQue A × Option A)
  pop_locked r =
      if r.head == r.tail then returned (r, none) else take_cell (get_elem? r.cells r.head) r

  unfoldable pub pop : CircularQue A → Called (CircularQue A × Option A)
  pop = with_lock pop_locked
