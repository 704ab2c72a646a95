-- ===== src/Containers/CircularQue/Runs.antt =====
-- Sequences of calls on the circular queue of Concurrent/day12-circularque, each under the lock.
use boost_net_programing.Base.{ℕ, ◌≡◌, refl, Bool, Option, List, [], ◌∷◌}
use boost_net_programing.Containers.CircularQue.{
  CircularQue, Called, returned, spins, raw, make, push, pop,
}
use boost_net_programing.Containers.CircularQue.Fifo.{fifo_push, fifo_pop}
use boost_net_programing.Containers.CircularQue.Refine.{
  Holds, push-refines, pop-refines, make-Holds,
}

pub data Call {ℓ} (A : Type ℓ) : Type ℓ where
  pushes : A → Call A
  pops : Call A

pub data Answer {ℓ} (A : Type ℓ) : Type ℓ where
  pushed : Bool → Answer A
  popped : Option A → Answer A

module _ {ℓ} {A : Type ℓ} where
  -- One call, with its answer.
  unfoldable pub call : Call A → CircularQue A → Called (CircularQue A × Answer A)
  call (pushes x) r = elim (push x r) [
    | returned (r', b) ↦ returned (r', pushed b)
    | spins ↦ spins
    | raw ↦ raw
  ]
  call pops r = elim (pop r) [
    | returned (r', o) ↦ returned (r', popped o)
    | spins ↦ spins
    | raw ↦ raw
  ]

  unfoldable pub call_all : List (Call A) → CircularQue A → Called (CircularQue A × List (Answer A))
  call_all [] r = returned (r, [])
  call_all (c ∷ cs) r = elim (call c r) [
    | returned (r', a) ↦ elim (call_all cs r') [
      | returned (r'', answers) ↦ returned (r'', a ∷ answers)
      | spins ↦ spins
      | raw ↦ raw
    ]
    | spins ↦ spins
    | raw ↦ raw
  ]

  -- The same calls on a bounded queue.
  unfoldable pub fifo_call : ℕ → Call A → List A → List A × Answer A
  fifo_call cap (pushes x) q = let t = fifo_push cap x q in (t.0, pushed t.1)
  fifo_call cap pops q = let t = fifo_pop q in (t.0, popped t.1)

  unfoldable pub fifo_call_all : ℕ → List (Call A) → List A → List A × List (Answer A)
  fifo_call_all cap [] q = (q, [])
  fifo_call_all cap (c ∷ cs) q =
      let t = fifo_call cap c q in let rest = fifo_call_all cap cs t.0 in (rest.0, t.1 ∷ rest.1)

  call-refines :
      (cap : ℕ) (c : Call A) (r : CircularQue A) (q : List A)
      → Holds r cap q
      → (r' : CircularQue A) × (call c r ≡ returned (r', (fifo_call cap c q).1))
        × Holds r' cap (fifo_call cap c q).0
  unfolding call fifo_call
  call-refines cap (pushes x) r q v =
      let (r', e, v') = push-refines cap r q v x in (r', rw (call, e) refl, v')
  call-refines cap pops r q v =
      let (r', e, v') = pop-refines cap r q v in (r', rw (call, e) refl, v')

  calls-refine :
      (cap : ℕ) (cs : List (Call A)) (r : CircularQue A) (q : List A)
      → Holds r cap q
      → (r' : CircularQue A) × (call_all cs r ≡ returned (r', (fifo_call_all cap cs q).1))
        × Holds r' cap (fifo_call_all cap cs q).0
  unfolding call_all fifo_call_all
  calls-refine cap [] r q v = (r, refl, v)
  calls-refine cap (c ∷ cs) r q v =
      let (r', e, v') = call-refines cap c r q v in
      let (r'', e', v'') = calls-refine cap cs r' (fifo_call cap c q).0 v' in
      (r'', rw (call_all, e, e') refl, v'')

  -- Any sequence of pushes and pops on a new queue of capacity `cap`, no two of them at once, is
  -- answered as a queue that holds at most `cap` values answers it: each call returns, and none
  -- reads memory in which no object stands.
  pub call_all-refines :
      (cap : ℕ) (cs : List (Call A))
      → (r : CircularQue A) × (call_all cs (make cap) ≡ returned (r, (fifo_call_all cap cs []).1))
        × Holds r cap (fifo_call_all cap cs []).0
  call_all-refines cap cs = calls-refine cap cs (make cap) [] (make-Holds cap)
