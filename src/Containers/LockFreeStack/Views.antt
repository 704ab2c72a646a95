-- ===== src/Containers/LockFreeStack/Views.antt =====
-- What one access of LockFreeStack.h does to the heap, the owners and the links.
use boost_net_programing.Base.{ℕ, Option, none, some, put}
use boost_net_programing.Containers.LockFreeStack.{Node}
use boost_net_programing.Containers.LockFreeStack.Graph.{
  hand, list, stack_list, pending_list, upd, retag,
}
use boost_net_programing.Containers.LockFreeStack.Holds.{View}

module _ {A : Type 0} where
  -- `new node`.
  abbrev pub new_view : View A → ℕ → ℕ → Node A → View A
  new_view v t i c = record { heap = put i (some c) v.heap; own = upd i (hand t) v.own; nx = v.nx }

  -- A write to a node that the thread has.
  abbrev pub write_view : View A → ℕ → Node A → View A
  write_view v i c = record { heap = put i (some c) v.heap; own = v.own; nx = v.nx }

  -- The node at the head taken off the stack.
  abbrev pub take_view : View A → ℕ → ℕ → View A
  take_view v t h = record { heap = v.heap; own = upd h (hand t) v.own; nx = upd h none v.nx }

  -- The node in hand at the head of the stack.
  abbrev pub push_view : View A → Option ℕ → ℕ → View A
  push_view v head h = record { heap = v.heap; own = upd h stack_list v.own; nx = upd h head v.nx }

  -- The node in hand written, and as a list.
  abbrev pub pend_view : View A → ℕ → ℕ → Node A → View A
  pend_view v t h c = record { heap = put h (some c) v.heap; own = upd h (list t) v.own; nx = v.nx }

  -- The pending list taken by the thread.
  abbrev pub exchange_view : View A → ℕ → View A
  exchange_view v t = record { heap = v.heap; own = retag pending_list (list t) v.own; nx = v.nx }

  -- The list of the thread before the pending list.
  abbrev pub chain_view : View A → ℕ → Option ℕ → ℕ → View A
  chain_view v t tbd l = record {
    heap = v.heap;
    own = retag (list t) pending_list v.own;
    nx = upd l tbd v.nx;
  }

  -- A node deleted.
  abbrev pub free_view : View A → ℕ → View A
  free_view v h = record { heap = put h none v.heap; own = upd h 0 v.own; nx = upd h none v.nx }
