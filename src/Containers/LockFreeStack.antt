-- ===== src/Containers/LockFreeStack.antt =====
-- Concurrent/day17-LockFreeStack/LockFreeStack.h: `lock_free_stack`, whose nodes are deleted when no
-- other thread is in `pop`.
pub mod Count
pub mod Graph
pub mod Holds
pub mod Views
pub mod Shapes
pub mod Pending
pub mod Steps
pub mod PushPop
pub mod Deletes
pub mod Reclaim
pub mod Safety
pub mod Atomic
pub mod Lifo
pub mod Turns
pub mod Linear
mod Tests
use boost_net_programing.Base.{
  ℕ, ◌+◌, ◌-◌, Bool, true, false, ◌&&◌, not, Option, none, some, List, [], ◌∷◌, ◌++◌, if◌then◌else◌,
  ◌==◌, Result, ok, fault, ◌>>=◌, put,
}

-- `node`, by its address in the heap.
pub record Node {ℓ} (A : Type ℓ) : Type ℓ where
  pub data_of : Option A
  pub next : Option ℕ

-- What `try_reclaim` does behind `chain_pending_nodes`: delete the old head, or leave `pop`.
pub data After : Type 0 where
  delete_head : ℕ → After
  leave : After

-- Where a thread stands: `links` in `push`, before the exchange of the head; in `pop`, counted, with the
-- old head, with the next of it too, with the old head taken off; in `try_reclaim`, behind the test
-- that it is alone, with the pending list, in `delete_nodes`, in the walk of `chain_pending_nodes`
-- from the first node, before the write of the last node's link and before the exchange; and before
-- the last decrement.
pub data Place : Type 0 where
  idle : Place
  links : ℕ → Place
  entered : Place
  at_head : ℕ → Place
  read_next : ℕ → Option ℕ → Place
  owns : ℕ → Place
  alone : ℕ → Place
  emptied : ℕ → Option ℕ → Place
  deletes : ℕ → Option ℕ → Place
  walks : ℕ → ℕ → ℕ → Place
  splices : After → ℕ → ℕ → Place
  swaps : After → ℕ → ℕ → Place
  leaves : Place

-- `place` says where each thread stands, and `taken` has the values popped.
pub record Stack {ℓ} (A : Type ℓ) : Type ℓ where
  pub heap : ℕ → Option (Node A)
  pub head : Option ℕ
  pub to_be_deleted : Option ℕ
  pub threads_in_pop : ℕ
  pub place : ℕ → Place
  pub taken : List A

unfoldable pub same : Option ℕ → Option ℕ → Bool
same none none = true
same none (some j) = false
same (some i) none = false
same (some i) (some j) = i == j

unfoldable pub move_to : ℕ → Place → (ℕ → Place) → ℕ → Place
move_to t p f u = if u == t then p else f u

unfoldable pub after : After → Place
after (delete_head h) = deletes h none
after leave = leaves

module _ {ℓ} {A : Type ℓ} where
  -- The atomics as C++20 initialises them.
  unfoldable pub new_stack : Stack A
  new_stack = record {
    heap = λ i. none;
    head = none;
    to_be_deleted = none;
    threads_in_pop = 0;
    place = λ t. idle;
    taken = [];
  }

  unfoldable pub at_place : ℕ → Place → Stack A → Stack A
  unfolding move_to
  at_place t p w = record w { place = move_to t p w.place }

  -- The node behind a pointer.
  unfoldable pub deref {κ} : {B : Type κ} → Option (Node A) → (Node A → Result B) → Result B
  deref none f = fault
  deref (some n) f = f n

  -- `push` up to the load of the head, with the memory at `i` for the node if nothing is there.
  unfoldable pub begin_push : ℕ → A → ℕ → Place → Option (Node A) → Stack A → Stack A
  unfolding at_place put
  begin_push t x i idle none w =
      at_place t (links i)
        (record w { heap = put i (some (record { data_of = some x; next = w.head })) w.heap })
  begin_push t x i idle (some n) w = w
  begin_push t x i (links _) c w = w
  begin_push t x i entered c w = w
  begin_push t x i (at_head _) c w = w
  begin_push t x i (read_next _ _) c w = w
  begin_push t x i (owns _) c w = w
  begin_push t x i (alone _) c w = w
  begin_push t x i (emptied _ _) c w = w
  begin_push t x i (deletes _ _) c w = w
  begin_push t x i (walks _ _ _) c w = w
  begin_push t x i (splices _ _ _) c w = w
  begin_push t x i (swaps _ _ _) c w = w
  begin_push t x i leaves c w = w

  -- `++threads_in_pop`.
  unfoldable pub begin_pop : ℕ → Place → Stack A → Stack A
  unfolding at_place
  begin_pop t idle w = at_place t entered (record w { threads_in_pop = w.threads_in_pop + 1 })
  begin_pop t (links _) w = w
  begin_pop t entered w = w
  begin_pop t (at_head _) w = w
  begin_pop t (read_next _ _) w = w
  begin_pop t (owns _) w = w
  begin_pop t (alone _) w = w
  begin_pop t (emptied _ _) w = w
  begin_pop t (deletes _ _) w = w
  begin_pop t (walks _ _ _) w = w
  begin_pop t (splices _ _ _) w = w
  begin_pop t (swaps _ _ _) w = w
  begin_pop t leaves w = w

  -- The weak exchange of `push`, which may fail although the head is the one expected, and then leaves
  -- the head in the node's link.
  unfoldable pub link_head : ℕ → Bool → ℕ → Node A → Stack A → Stack A
  unfolding at_place put same
  link_head t weak i n w =
      if same w.head n.next && not weak
      then at_place t idle (record w { head = some i })
      else at_place t (links i)
          (record w { heap = put i (some (record n { next = w.head })) w.heap })

  -- The load of the head in `pop`.
  unfoldable pub load_head : ℕ → Option ℕ → Stack A → Stack A
  unfolding at_place
  load_head t none w = at_place t leaves w
  load_head t (some h) w = at_place t (at_head h) w

  -- The weak exchange of `pop`, behind which a failure loads the head again.
  unfoldable pub take_head : ℕ → Bool → ℕ → Option ℕ → Stack A → Stack A
  unfolding at_place same
  take_head t weak h n w =
      if same w.head (some h) && not weak
      then at_place t (owns h) (record w { head = n })
      else at_place t entered w

  abbrev pub got : Option A → List A
  got none = []
  got (some x) = x ∷ []

  -- `res.swap(old_head->data)`, and the test that no other thread is in `pop`.
  unfoldable pub test_alone : ℕ → ℕ → Node A → Stack A → Stack A
  unfolding at_place put
  test_alone t h n w =
      at_place t (if w.threads_in_pop == 1 then alone h else splices leave h h) (record w {
        heap = put h (some (record n { data_of = none })) w.heap;
        taken = w.taken ++ got n.data_of;
      })

  -- `!--threads_in_pop`, and which of the branches follows.
  unfoldable pub leave_alone : ℕ → ℕ → Option ℕ → Stack A → Stack A
  unfolding at_place
  leave_alone t h none w =
      at_place t (deletes h none) (record w { threads_in_pop = w.threads_in_pop - 1 })
  leave_alone t h (some l) w =
      at_place t (if w.threads_in_pop == 1 then deletes h (some l) else walks h l l)
        (record w { threads_in_pop = w.threads_in_pop - 1 })

  -- A round of `delete_nodes`, and `delete old_head` behind the last.
  unfoldable pub delete_nodes : ℕ → ℕ → Option ℕ → Stack A → Result (Stack A)
  unfolding at_place put deref
  delete_nodes t h none w =
      deref (w.heap h) (λ n. ok (at_place t idle (record w { heap = put h none w.heap })))
  delete_nodes t h (some l) w =
      deref (w.heap l)
        (λ n. ok (at_place t (deletes h n.next) (record w { heap = put l none w.heap })))

  -- A round of the walk of `chain_pending_nodes`.
  unfoldable pub walk : ℕ → ℕ → ℕ → ℕ → Option ℕ → Stack A → Stack A
  unfolding at_place
  walk t h first last none w = at_place t (splices (delete_head h) first last) w
  walk t h first last (some n) w = at_place t (walks h first n) w

  -- The weak exchange of `chain_pending_nodes`.
  unfoldable pub chain_pending_nodes : ℕ → Bool → After → ℕ → ℕ → Node A → Stack A → Stack A
  unfolding at_place put same after
  chain_pending_nodes t weak a first last n w =
      if same w.to_be_deleted n.next && not weak
      then at_place t (after a) (record w { to_be_deleted = some first })
      else at_place t (swaps a first last)
          (record w { heap = put last (some (record n { next = w.to_be_deleted })) w.heap })

  -- The next access of a thread that stands there. `weak` is whether a weak exchange fails.
  unfoldable pub go_on : ℕ → Bool → Place → Stack A → Result (Stack A)
  unfolding at_place put deref link_head load_head take_head test_alone leave_alone delete_nodes
      walk chain_pending_nodes
  go_on t weak idle w = ok w
  go_on t weak (links i) w = deref (w.heap i) (λ n. ok (link_head t weak i n w))
  go_on t weak entered w = ok (load_head t w.head w)
  go_on t weak (at_head h) w = deref (w.heap h) (λ n. ok (at_place t (read_next h n.next) w))
  go_on t weak (read_next h n) w = ok (take_head t weak h n w)
  go_on t weak (owns h) w = deref (w.heap h) (λ n. ok (test_alone t h n w))
  go_on t weak (alone h) w =
      ok (at_place t (emptied h w.to_be_deleted) (record w { to_be_deleted = none }))
  go_on t weak (emptied h l) w = ok (leave_alone t h l w)
  go_on t weak (deletes h l) w = delete_nodes t h l w
  go_on t weak (walks h first last) w = deref (w.heap last) (λ n. ok (walk t h first last n.next w))
  go_on t weak (splices a first last) w = deref (w.heap last) (λ n. ok (
      at_place t (swaps a first last)
        (record w { heap = put last (some (record n { next = w.to_be_deleted })) w.heap })))
  go_on t weak (swaps a first last) w =
      deref (w.heap last) (λ n. ok (chain_pending_nodes t weak a first last n w))
  go_on t weak leaves w = ok (at_place t idle (record w { threads_in_pop = w.threads_in_pop - 1 }))

-- A call that a thread makes, or its next access of the memory that is shared.
pub data Move {ℓ} (A : Type ℓ) : Type ℓ where
  pushes : ℕ → A → ℕ → Move A
  pops : ℕ → Move A
  goes_on : ℕ → Bool → Move A

module _ {ℓ} {A : Type ℓ} where
  unfoldable pub step : Move A → Stack A → Result (Stack A)
  unfolding begin_push begin_pop go_on
  step (pushes t x i) w = ok (begin_push t x i (w.place t) (w.heap i) w)
  step (pops t) w = ok (begin_pop t (w.place t) w)
  step (goes_on t weak) w = go_on t weak (w.place t) w

  unfoldable pub run : List (Move A) → Stack A → Result (Stack A)
  run [] w = ok w
  run (m ∷ ms) w = step m w >>= run ms
