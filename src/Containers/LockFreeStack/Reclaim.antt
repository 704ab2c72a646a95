-- ===== src/Containers/LockFreeStack/Reclaim.antt =====
-- `chain_pending_nodes` of LockFreeStack.h, access by access.
use boost_net_programing.Base.{
  ℕ, ◌≡◌, refl, sym, ap, ◌∙◌, Bool, ◌&&◌, not, Bool-cases, inl, inr, ◌⊎◌, Option, none, some, ◌==◌,
  arith, put, ok,
}
use boost_net_programing.Containers.LockFreeStack.{
  Node, After, delete_head, leave, Place, deletes, walks, splices, swaps, Stack, move_to, at_place,
  same, walk, chain_pending_nodes, after,
}
use boost_net_programing.Containers.LockFreeStack.Count.{in_pop}
use boost_net_programing.Containers.LockFreeStack.Graph.{list, upd, retag}
use boost_net_programing.Containers.LockFreeStack.Holds.{View, Reads, AfterIs, Has, Tight}
use boost_net_programing.Containers.LockFreeStack.Views.{write_view, chain_view}
use boost_net_programing.Containers.LockFreeStack.Shapes.{write_view-Shape, write_view-Frame}
use boost_net_programing.Containers.LockFreeStack.Pending.{chain_view-Shape, chain_view-Frame}
use boost_net_programing.Containers.LockFreeStack.Steps.{Holds, Goes, moved, Unread-move_to}
use boost_net_programing.Containers.LockFreeStack.PushPop.{
  same_eq, and_left, Has-at, Tight-at, heap_at, only_moved,
}
use boost_net_programing.Containers.LockFreeStack.Deletes.{still_Mine, still-AfterIs}

module _ {A : Type 0} (t : ℕ) (w : Stack A) (v : View A) (h : Holds w v) where
  pub walk-Goes :
      (i a b : ℕ) (n : Node A) (o : Option ℕ)
      → w.place t ≡ walks i a b
      → w.heap b ≡ some n
      → n.next ≡ o
      → Goes (ok (walk t i a b o w))
  unfolding walk in_pop
  walk-Goes i a b n none e f z =
      let (m, c, x) = Has-at t w v h (walks i a b) e in
      let k = Tight-at t w v h (walks i a b) e in
      let p = splices (delete_head i) a b in
      only_moved t w v h p w.threads_in_pop (λ j r. absurd r)
        (
          still_Mine t w v h p i (λ r. r) m,
          (c, x, sym (k b n (λ y. cc) x (heap_at t w v h b ∙ f)) ∙ z),
        )
        (λ j d r q g. k j d (λ y. cc) q g) (rw e refl)
  walk-Goes i a b n (some j) e f z =
      let (m, c, x) = Has-at t w v h (walks i a b) e in
      let k = Tight-at t w v h (walks i a b) e in
      let p = walks i a j in
      only_moved t w v h p w.threads_in_pop (λ j r. absurd r)
        (
          still_Mine t w v h p i (λ r. r) m,
          c,
          sym (h.shape.graph.closed b j (sym (k b n (λ y. cc) x (heap_at t w v h b ∙ f)) ∙ z)) ∙ x,
        )
        k (rw e refl)

  -- The last node's link written.
  pub splice-Goes :
      (x : After) (a b : ℕ) (n : Node A) (q : Place)
      → w.place t ≡ q
      → (q ≡ splices x a b) ⊎ (q ≡ swaps x a b)
      → w.heap b ≡ some n
      → Goes (
          ok (
            at_place t
              (swaps x a b)
              (record w { heap = put b (some (record n { next = w.to_be_deleted })) w.heap })))
  unfolding in_pop upd put
  splice-Goes x a b n q e y f =
      let s = h.shape in
      let facts : Has v w.place t (swaps x a b)
          × Tight v t (swaps x a b)
          × (in_pop q ≡ in_pop (swaps x a b)) =
        elim y [
          | inl z ↦ (
            Has-at t w v h (splices x a b) (e ∙ z),
            Tight-at t w v h (splices x a b) (e ∙ z),
            rw z refl,
          )
          | inr z ↦ (
            Has-at t w v h (swaps x a b) (e ∙ z),
            Tight-at t w v h (swaps x a b) (e ∙ z),
            rw z refl,
          )
        ] in
      let ((m, c), k, z) = facts in
      let d : Node A = record n { next = w.to_be_deleted } in
      let p = swaps x a b in
      moved t p w (record w { heap = put b (some d) w.heap }) v (write_view v b d) h refl
        (ap (λ g. put b (some d) g) h.heap_is)
        (write_view-Shape v s t w.place b d (omega (arith, c.1)))
        (write_view-Frame v s t w.place b d (omega (arith, c.1)) (λ r. r.2 c.1)) (λ j r. absurd r)
        (still-AfterIs t w v h p x (λ j r. r) m, c) (λ j u r o g. k j u r o (grind arith))
        (rw (e, z) refl)

  after-Reads : (x : After) (i : ℕ) → Reads (after x) i → ⊥
  unfolding after
  after-Reads (delete_head j) i r = r
  after-Reads leave i r = r

  after-in_pop : (x : After) (a b : ℕ) → in_pop (after x) ≡ in_pop (swaps x a b)
  unfolding after in_pop
  after-in_pop (delete_head i) a b = refl
  after-in_pop leave a b = refl

  -- What is behind the exchange of the list, when the thread has its old head still, or has not.
  after-Has :
      (x : After) (b : ℕ)
      → v.own b ≡ list t
      → AfterIs v w.place t x
      → Has (chain_view v t w.to_be_deleted b) (move_to t (after x) w.place) t (after x)
  unfolding after upd retag
  after-Has (delete_head i) b y (o, l, u) = (
    (
      grind arith,
      (
        grind (arith, o, y),
        λ j z. elim (Bool-cases (j == b)) [
          | inl c ↦ grind (arith, c, h.shape.pending_first i)
          | inr c ↦ grind (arith, c, l.1 j)
        ],
      ),
      Unread-move_to t (deletes i none) w.place i (λ r. r) u,
    ),
    λ k z. absurd (cc),
    λ k j z. absurd (cc),
  )
  after-Has leave b y m = refl

  -- The list of the thread joins the pending list.
  chained :
      (x : After) (a b : ℕ) (n : Node A)
      → w.place t ≡ swaps x a b
      → w.heap b ≡ some n
      → w.to_be_deleted ≡ n.next
      → Goes (ok (at_place t (after x) (record w { to_be_deleted = some a })))
  unfolding in_pop upd retag
  chained x a b n e f d =
      let (m, (c, y, z)) = Has-at t w v h (swaps x a b) e in
      let k = Tight-at t w v h (swaps x a b) e in
      moved t (after x) w (record w { to_be_deleted = some a }) v (chain_view v t w.to_be_deleted b)
        h refl h.heap_is
        (chain_view-Shape v h.shape t w.place a b c y z (λ i u r o g. k i u (grind arith) o g)
          (λ u g. grind (arith, heap_at t w v h b, f, g, d)))
        (chain_view-Frame v h.shape t w.place b y) (λ j r. absurd (after-Reads x j r))
        (after-Has x b y m) (λ j u r o g. grind arith) (rw (e, after-in_pop x a b) refl)

  pub chain_pending_nodes-Goes :
      (weak : Bool) (x : After) (a b : ℕ) (n : Node A)
      → w.place t ≡ swaps x a b
      → w.heap b ≡ some n
      → Goes (ok (chain_pending_nodes t weak x a b n w))
  unfolding chain_pending_nodes
  chain_pending_nodes-Goes weak x a b n e f =
      let (m, c) = Has-at t w v h (swaps x a b) e in
      let k = Tight-at t w v h (swaps x a b) e in
      elim (Bool-cases (same w.to_be_deleted n.next && not weak)) [
        | inl y ↦
            let d = same_eq w.to_be_deleted n.next (and_left _ _ y) in rw y (chained x a b n e f d)
        | inr y ↦ rw y (splice-Goes x a b n (swaps x a b) e (inr refl) f)
      ]
