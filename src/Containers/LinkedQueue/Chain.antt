-- ===== src/Containers/LinkedQueue/Chain.antt =====
-- The nodes of `threadsafe_queue_ht` of ThreadSafeQue.h, from the head to the tail.
use boost_net_programing.Base.{
  ℕ, ◌<◌, ◌≡◌, ◌≢◌, subst, true, Option, some, List, if◌then◌else◌, ◌==◌, ==_refl,
}
use boost_net_programing.Containers.Chains.{Chain}
use boost_net_programing.Containers.LinkedQueue.{Node, Holder, saw_data, LinkedQueue, blank}

-- The test of `head` against `tail` is what it says.
pub tested :
    (a b : ℕ) (o : Holder) → o ≢ saw_data → (if a == b then o else saw_data) ≡ saw_data → a ≢ b
tested a b o d e k = d (
    subst (λ t. (if t then o else saw_data) ≡ saw_data) (subst (λ n. (a == n) ≡ true) k (==_refl a))
      e)

module _ {A : Type 0} where
  abbrev pub cell : A → ℕ → Node A
  cell x n = record { data_of = some x; next = some n }

  -- The node at `i` has the value and points at `n`.
  abbrev pub Links : (ℕ → Option (Node A)) → ℕ → A → ℕ → Type 0
  Links heap i x n = heap i ≡ some (cell x n)

  -- The list from `head` to `tail` holds the values, the last node is blank, and a thread that is to
  -- pop has seen that there is one.
  pub record Holds (w : LinkedQueue A) (q : List A) : Type 0 where
    pub chain : Chain (Links w.heap) w.head w.tail q
    pub last : w.heap w.tail ≡ some blank
    pub below : w.tail < w.fresh
    pub seen : w.holder ≡ saw_data → w.head ≢ w.tail
