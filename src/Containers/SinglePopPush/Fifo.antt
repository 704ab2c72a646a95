-- ===== src/Containers/SinglePopPush/Fifo.antt =====
-- What `SinglePopPush` of singlepushpop.h keeps, whatever the turns of its two threads.
use boost_net_programing.Base.{
  ℕ, ◌<◌, ◌≡◌, ◌≢◌, refl, sym, ap, subst, ◌∙◌, Option, none, some, List, [], ◌∷◌, ◌++◌, ◌==◌,
  ne_of_==, Bool-cases, inl, inr, append_assoc, append-nil, ok, put, put_self, put_ne, arith,
}
use boost_net_programing.Containers.Chains.{Chain-le, Chain-agree, Chain-snoc}
use boost_net_programing.Containers.SinglePopPush.{
  Node, Pushing, made, loaded, filled, linked, Popping, at_head, not_empty, moved_on, SinglePopPush,
  Move, begins, goes_on, pops, blank, new_queue, deref, begin_push, push, store_head, take_data,
  pop, step, run,
}
use boost_net_programing.Containers.SinglePopPush.Holds.{
  kept-Chain, kept-HeadIs, cell, Links, in_flight, NewNode, TailIs, HeadIs, Holds, Goes,
  HeadIs-agree, TailIs-agree,
}

module _ {A : Type 0} where
  begin_push-Goes :
      (x : A) (o : Pushing A) (w : SinglePopPush A) (q hand : List A)
      → o ≡ w.pushing
      → Holds w q hand
      → Goes (ok (begin_push x o w))
  unfolding begin_push
  begin_push-Goes x Pushing.out w q hand e v =
      let t = subst (TailIs w.heap w.tail w.fresh) (sym e) v.tail_is in
      let old = subst (λ o. ((w.taken ++ hand) ++ q) ++ in_flight o ≡ w.pushed) (sym e) v.total in
      let new = put w.fresh (some blank) w.heap in
      let same : (i : ℕ) → i < w.tail → new i ≡ w.heap i =
        λ i l. put_ne w.fresh i (some blank) w.heap (λ z. omega (arith, v.below)) in
      (
        _,
        q,
        hand,
        refl,
        record {
          chain = kept-Chain w q hand v new same;
          below = omega (arith, v.below);
          tail_is = (
            put_ne w.fresh w.tail (some blank) w.heap (λ z. omega (arith, v.below)) ∙ t,
            (put_self w.fresh (some blank) w.heap, v.below, omega arith),
          );
          head_is = kept-HeadIs w q hand v new same;
          total = ap (λ l. l ++ x ∷ []) (sym (append-nil ((w.taken ++ hand) ++ q)) ∙ old);
        },
      )
  begin_push-Goes x (made y p) w q hand e v = (w, q, hand, refl, v)
  begin_push-Goes x (loaded y p t) w q hand e v = (w, q, hand, refl, v)
  begin_push-Goes x (filled y p t) w q hand e v = (w, q, hand, refl, v)
  begin_push-Goes x (linked y p) w q hand e v = (w, q, hand, refl, v)

  -- The old tail written, with a new node behind it.
  write_tail-Goes :
      (w : SinglePopPush A) (q hand : List A) (o : Pushing A) (c : Node A) (p : ℕ)
      → Holds w q hand
      → NewNode w.heap w.tail w.fresh p
      → (((w.taken ++ hand) ++ q) ++ in_flight o ≡ w.pushed)
      → ((heap : ℕ → Option (Node A))
          → heap w.tail ≡ some c
          → NewNode heap w.tail w.fresh p
          → TailIs heap w.tail w.fresh o)
      → Goes (ok (record w { heap = put w.tail (some c) w.heap; pushing = o }))
  write_tail-Goes w q hand o c p v (np, tp, pf) total is =
      let new = put w.tail (some c) w.heap in
      let same : (i : ℕ) → i < w.tail → new i ≡ w.heap i =
        λ i l. put_ne w.tail i (some c) w.heap (λ z. omega arith) in
      (
        _,
        q,
        hand,
        refl,
        record {
          chain = kept-Chain w q hand v new same;
          below = v.below;
          tail_is =
              is new (put_self w.tail (some c) w.heap)
                (put_ne w.tail p (some c) w.heap (λ z. omega (arith, tp)) ∙ np, tp, pf);
          head_is = kept-HeadIs w q hand v new same;
          total = total;
        },
      )

  push-Goes :
      (o : Pushing A) (w : SinglePopPush A) (q hand : List A)
      → Holds w q hand
      → TailIs w.heap w.tail w.fresh o
      → ((w.taken ++ hand) ++ q) ++ in_flight o ≡ w.pushed
      → Goes (push o w)
  unfolding push deref
  push-Goes Pushing.out w q hand v t total = (w, q, hand, refl, v)
  push-Goes (made x p) w q hand v (b, n) total = (
    _,
    q,
    hand,
    refl,
    record {
      chain = v.chain;
      below = v.below;
      tail_is = (refl, b, n);
      head_is = v.head_is;
      total = total;
    },
  )
  push-Goes (loaded x p t) w q hand v (e, b, n) total =
      rw (e, b)
        (write_tail-Goes w q hand (filled x p w.tail) (cell x none) p v n total
          (λ heap c m. (refl, c, m)))
  push-Goes (filled x p t) w q hand v (e, b, n) total =
      rw (e, b)
        (write_tail-Goes w q hand (linked x p) (cell x (some p)) p v n total (λ heap c m. (c, m)))
  push-Goes (linked x p) w q hand v (c, (np, tp, pf)) total = (
    _,
    q ++ x ∷ [],
    hand,
    refl,
    record {
      chain =
          Chain-snoc (Links w.heap) (Links w.heap) w.head w.tail p q x (λ i y n b l k e. e) c tp
            v.chain;
      below = pf;
      tail_is = np;
      head_is =
          HeadIs-agree w.heap w.heap w.head w.tail p hand w.popping (λ i l. refl)
            (λ d z. omega (arith, tp, Chain-le (Links w.heap) w.head w.tail q v.chain)) v.head_is;
      total = append-nil _ ∙ sym (append_assoc (w.taken ++ hand) q (x ∷ [])) ∙ total;
    },
  )

  -- Only `popping` is new.
  popping-Goes :
      (o : Popping) (w : SinglePopPush A) (q hand : List A)
      → Holds w q hand
      → HeadIs w.heap w.head w.tail hand o
      → Goes (ok (record w { popping = o }))
  popping-Goes o w q hand v h = (
    _,
    q,
    hand,
    refl,
    record { chain = v.chain; below = v.below; tail_is = v.tail_is; head_is = h; total = v.total },
  )

  store_head-Goes :
      (w : SinglePopPush A) (q hand : List A)
      → Holds w q hand
      → w.head ≢ w.tail
      → hand ≡ []
      → Goes (deref (w.heap w.head) (λ n. store_head w.head n.next w))
  unfolding deref store_head
  store_head-Goes w [] hand v d e = absurd (d v.chain)
  store_head-Goes w (x ∷ q) hand v d e =
      let (n, f, l, c) = v.chain in
      rw f (
        _,
        q,
        x ∷ [],
        refl,
        record {
          chain = c;
          below = v.below;
          tail_is = v.tail_is;
          head_is = (x, some n, f, l, refl);
          total =
              ap (λ r. r ++ in_flight w.pushing)
                (append_assoc w.taken (x ∷ []) q
                  ∙ ap (λ r. r ++ x ∷ q)
                      (sym (append-nil w.taken) ∙ ap (λ r. w.taken ++ r) (sym e)))
              ∙ v.total;
        },
      )

  -- The old head is before the list.
  delete_head-Goes :
      (w : SinglePopPush A) (q : List A) (x : A) (h : ℕ) (n : Option ℕ)
      → Holds w q (x ∷ [])
      → w.heap h ≡ some (cell x n)
      → h < w.head
      → Goes (
          ok (record w {
            heap = put h none w.heap;
            popping = Popping.out;
            taken = w.taken ++ x ∷ [];
          }))
  delete_head-Goes w q x h n v f l =
      let new = put h none w.heap in
      let same : (i : ℕ) → h < i → new i ≡ w.heap i =
        λ i k. put_ne h i none w.heap (λ z. omega arith) in
      (
        _,
        q,
        [],
        refl,
        record {
          chain =
              Chain-agree (Links w.heap) (Links new) w.head w.tail q
                (λ i y m b k r e. same i (omega arith) ∙ e) v.chain;
          below = v.below;
          tail_is =
              TailIs-agree w.heap new w.tail w.fresh w.pushing
                (λ i k. same i (omega (arith, Chain-le (Links w.heap) w.head w.tail q v.chain)))
                v.tail_is;
          head_is = refl;
          total =
              ap (λ r. (r ++ q) ++ in_flight w.pushing) (append-nil (w.taken ++ x ∷ [])) ∙ v.total;
        },
      )

  pop-Goes :
      (o : Popping) (w : SinglePopPush A) (q hand : List A)
      → Holds w q hand
      → HeadIs w.heap w.head w.tail hand o
      → Goes (pop o w)
  unfolding pop deref take_data
  pop-Goes Popping.out w q hand v e = popping-Goes (at_head w.head) w q hand v (refl, e)
  pop-Goes (at_head h) w q hand v (e, f) = elim (Bool-cases (h == w.tail)) [
    | inl t ↦ rw t (popping-Goes Popping.out w q hand v f)
    | inr t ↦ rw t (popping-Goes (not_empty h) w q hand v (e, λ z. ne_of_== h w.tail t (e ∙ z), f))
  ]
  pop-Goes (not_empty h) w q hand v (e, d, f) = rw e (store_head-Goes w q hand v d f)
  pop-Goes (moved_on h) w q hand v (x, n, c, l, e) =
      rw c (delete_head-Goes w q x h n (subst (Holds w q) e v) c l)

  step-Goes :
      (m : Move A) (w : SinglePopPush A) (q hand : List A) → Holds w q hand → Goes (step m w)
  unfolding step
  step-Goes (begins x) w q hand v = begin_push-Goes x w.pushing w q hand refl v
  step-Goes goes_on w q hand v = push-Goes w.pushing w q hand v v.tail_is v.total
  step-Goes pops w q hand v = pop-Goes w.popping w q hand v v.head_is

  run-Goes :
      (ms : List (Move A)) (w : SinglePopPush A) (q hand : List A)
      → Holds w q hand
      → Goes (run ms w)
  unfolding run
  run-Goes [] w q hand v = (w, q, hand, refl, v)
  run-Goes (m ∷ ms) w q hand v =
      let (w', q', hand', e, v') = step-Goes m w q hand v in rw e (run-Goes ms w' q' hand' v')

  -- Whatever the turns of the one thread that pushes and the one that pops, access by access: no node
  -- is read after it was deleted, no null pointer is dereferenced, and the values popped, the one that
  -- a pop has in hand, those from the head to the tail and the one that a push has not yet published
  -- are the values pushed, in order.
  pub run-new_queue-Holds : (ms : List (Move A)) → Goes (run ms new_queue)
  unfolding new_queue
  run-new_queue-Holds ms = run-Goes ms new_queue [] [] (record {
    chain = refl;
    below = omega arith;
    tail_is = put_self 0 (some blank) (λ i. none);
    head_is = refl;
    total = refl;
  })
