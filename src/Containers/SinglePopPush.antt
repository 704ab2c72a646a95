-- ===== src/Containers/SinglePopPush.antt =====
-- Concurrent/day18-LockFreeQue/day18-LockFreeQue/singlepushpop.h: `SinglePopPush`, a queue without a
-- lock for one thread that pushes and one that pops.
pub mod Holds
pub mod Fifo
mod Tests
use boost_net_programing.Base.{
  ℕ, ◌+◌, Option, none, some, List, [], ◌∷◌, ◌++◌, if◌then◌else◌, ◌==◌, Result, ok, fault, ◌>>=◌,
  put,
}

-- `node`, by its index in the heap.
pub record Node {ℓ} (A : Type ℓ) : Type ℓ where
  pub data_of : Option A
  pub next : Option ℕ

-- Where `push` stands: outside, with its node `p` made, with the old tail `t` loaded, with the value
-- in it, with the link in it.
pub data Pushing {ℓ} (A : Type ℓ) : Type ℓ where
  out : Pushing A
  made : A → ℕ → Pushing A
  loaded : A → ℕ → ℕ → Pushing A
  filled : A → ℕ → ℕ → Pushing A
  linked : A → ℕ → Pushing A

-- Where `pop` stands: outside, with the old head loaded, behind the test against the tail, with the
-- head moved on.
pub data Popping : Type 0 where
  out : Popping
  at_head : ℕ → Popping
  not_empty : ℕ → Popping
  moved_on : ℕ → Popping

-- `pushed` has the values whose push has begun, and `taken` those that were popped.
pub record SinglePopPush {ℓ} (A : Type ℓ) : Type ℓ where
  pub heap : ℕ → Option (Node A)
  pub fresh : ℕ
  pub head : ℕ
  pub tail : ℕ
  pub pushing : Pushing A
  pub popping : Popping
  pub pushed : List A
  pub taken : List A

-- One access of shared memory by the thread that pushes or the one that pops. `begins` starts a push.
pub data Move {ℓ} (A : Type ℓ) : Type ℓ where
  begins : A → Move A
  goes_on : Move A
  pops : Move A

module _ {ℓ} {A : Type ℓ} where
  abbrev pub blank : Node A
  blank = record { data_of = none; next = none }

  unfoldable pub new_queue : SinglePopPush A
  unfolding put
  new_queue = record {
    heap = put 0 (some blank) (λ i. none);
    fresh = 1;
    head = 0;
    tail = 0;
    pushing = Pushing.out;
    popping = Popping.out;
    pushed = [];
    taken = [];
  }

  -- The node behind a pointer.
  unfoldable pub deref {κ} : {B : Type κ} → Option (Node A) → (Node A → Result B) → Result B
  deref none f = fault
  deref (some n) f = f n

  unfoldable pub begin_push : A → Pushing A → SinglePopPush A → SinglePopPush A
  unfolding put
  begin_push x Pushing.out w = record w {
    heap = put w.fresh (some blank) w.heap;
    fresh = w.fresh + 1;
    pushing = made x w.fresh;
    pushed = w.pushed ++ x ∷ [];
  }
  begin_push x (made _ _) w = w
  begin_push x (loaded _ _ _) w = w
  begin_push x (filled _ _ _) w = w
  begin_push x (linked _ _) w = w

  -- The next access of `push`.
  unfoldable pub push : Pushing A → SinglePopPush A → Result (SinglePopPush A)
  unfolding put deref
  push Pushing.out w = ok w
  push (made x p) w = ok (record w { pushing = loaded x p w.tail })
  push (loaded x p t) w = deref (w.heap t) (λ n. ok (record w {
    heap = put t (some (record n { data_of = some x })) w.heap;
    pushing = filled x p t;
  }))
  push (filled x p t) w = deref (w.heap t) (λ n.
      ok (record w {
        heap = put t (some (record n { next = some p })) w.heap;
        pushing = linked x p;
      }))
  push (linked x p) w = ok (record w { tail = p; pushing = Pushing.out })

  -- `head.store(old_head->next)`; a null head would be dereferenced by the next call.
  unfoldable pub store_head : ℕ → Option ℕ → SinglePopPush A → Result (SinglePopPush A)
  store_head h none w = fault
  store_head h (some i) w = ok (record w { head = i; popping = moved_on h })

  -- The value, which the caller dereferences, and `delete old_head`.
  unfoldable pub take_data : ℕ → Option A → SinglePopPush A → Result (SinglePopPush A)
  unfolding put
  take_data h none w = fault
  take_data h (some x) w =
      ok (record w { heap = put h none w.heap; popping = Popping.out; taken = w.taken ++ x ∷ [] })

  -- The next access of `pop_head` and `pop`.
  unfoldable pub pop : Popping → SinglePopPush A → Result (SinglePopPush A)
  unfolding put deref store_head take_data
  pop Popping.out w = ok (record w { popping = at_head w.head })
  pop (at_head h) w = ok (record w { popping = if h == w.tail then Popping.out else not_empty h })
  pop (not_empty h) w = deref (w.heap h) (λ n. store_head h n.next w)
  pop (moved_on h) w = deref (w.heap h) (λ n. take_data h n.data_of w)

  unfoldable pub step : Move A → SinglePopPush A → Result (SinglePopPush A)
  unfolding begin_push push pop
  step (begins x) w = ok (begin_push x w.pushing w)
  step goes_on w = push w.pushing w
  step pops w = pop w.popping w

  unfoldable pub run : List (Move A) → SinglePopPush A → Result (SinglePopPush A)
  run [] w = ok w
  run (m ∷ ms) w = step m w >>= run ms
