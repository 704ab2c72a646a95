-- ===== src/AsycApi/Writes/Garbled.antt =====
-- What the socket of Network/asycApi/src/Session.cpp takes of the messages that `WriteToSocket` was
-- asked for, whatever the memory of a parameter that is gone holds.
use boost_net_programing.Base.{
  ℕ, ◌≤◌, ◌≡◌, refl, sym, ap, subst, ◌∙◌, Bool, true, false, List, [], ◌∷◌, ◌++◌, map, Result, ok,
  threw, underrun, fault, ◌>>=◌, take, drop, min, length, take_past, append-nil, append_assoc,
  arith, All, All-append, Bool-cases, inl, inr, ◌⊎◌, leb,
}
use boost_net_programing.AsycApi.Node.{Node, copy_node}
use boost_net_programing.AsycApi.Writes.{
  Handler, write_callback, write_all_callback, Writes, begin, write_to_socket, handle, complete,
  Event, asks, asks_all, completes, fails, step, run, idle,
}
use boost_net_programing.AsycApi.Writes.Stream.{
  left, writes, unsent, unsent-append, Filled, Flow, Flows, stream, Shows, copy_node-Filled, queued,
  advanced, completed,
}

-- Calls of `WriteToSocket`, and operations that do not fail.
abbrev pub Plain : Event → Type 0
Plain fails = ⊥
Plain (asks_all buf) = ⊥
Plain (asks buf) = Unit
Plain (completes n) = Unit

-- The messages that callers ask for.
abbrev pub requests : List Event → List (List ℕ)
requests [] = []
requests (asks buf ∷ es) = buf ∷ requests es
requests (asks_all buf ∷ es) = buf ∷ requests es
requests (completes n ∷ es) = requests es
requests (fails ∷ es) = requests es

take-min : (n : ℕ) (l : List ℕ) → take (min n (length l)) l ≡ take n l
take-min n l = elim (Bool-cases (leb (length l) n)) [
  | inl e ↦
      let k : min n (length l) ≡ length l = ground (arith, e) in
      let a : length l ≤ n = ground (arith, e) in
      rw k (take_past (length l) l (omega arith) ∙ sym (take_past n l a))
  | inr e ↦ let k : min n (length l) ≡ n = ground (arith, e) in rw k refl
]

module _ (freed : List ℕ → List ℕ) where
  -- Each message in turn, with at most some bytes at its beginning as freed memory has them.
  abbrev pub Garbles : List (List ℕ) → List ℕ → Type 0
  Garbles [] l = l ≡ []
  Garbles (m ∷ ms) l =
      (k : ℕ) × (r : List ℕ) × (l ≡ take k (freed m) ++ (drop k m ++ r)) × Garbles ms r

  Garbles-append :
      (ms ns : List (List ℕ)) (l r : List ℕ)
      → Garbles ms l
      → Garbles ns r
      → Garbles (ms ++ ns) (l ++ r)
  Garbles-append [] ns l r e b = subst (λ x. Garbles ns (x ++ r)) (sym e) b
  Garbles-append (m ∷ ms) ns l r (k, r', e, b) c =
      (k, r' ++ r, ap (λ x. x ++ r) e ∙ simp (append_assoc), Garbles-append ms ns r' r b c)

  Garbles-one : (m : List ℕ) → Garbles (m ∷ []) m
  Garbles-one m = (0, [], sym (append-nil m), refl)

  abbrev pub Fresh : Node → Type 0
  Fresh d = d.cur_len ≡ 0

  Garbles-unsent : (q : List Node) → All Fresh q → Garbles (map (λ d. d.msg) q) (unsent q)
  Garbles-unsent [] f = refl
  Garbles-unsent (d ∷ q) f =
      (0, unsent q, ap (λ c. drop c d.msg ++ unsent q) f.0, Garbles-unsent q f.1)

  -- The first operation on a message runs, on the freed memory, and the others wait.
  pub record First (ms : List (List ℕ)) (w : Writes) : Type 0 where
    pub front : Node
    pub behind : List Node
    pub done : List (List ℕ)
    pub is : w ≡ writes (front ∷ behind) true ((write_callback, freed front.msg) ∷ []) w.wire
    pub filled : All Filled (front ∷ behind)
    pub fresh : All Fresh (front ∷ behind)
    pub asked : ms ≡ done ++ front.msg ∷ map (λ d. d.msg) behind
    pub wired : Garbles done w.wire

  abbrev pub State : List (List ℕ) → Writes → Type 0
  State ms w = Garbles ms (stream w) × (Flows w ⊎ First ms w)

  -- The call goes through, and what the session then shows are those messages.
  abbrev pub Keeps : List (List ℕ) → Result Writes → Type 0
  Keeps ms r = (w : Writes) × (r ≡ ok w) × State ms w

  Shows-Keeps :
      (ms : List (List ℕ)) (l : List ℕ) (r : Result Writes) → Shows l r → Garbles ms l → Keeps ms r
  Shows-Keeps ms l (ok w) (f, e) g = (w, refl, (subst (λ x. Garbles ms x) (sym e) g, inl f))
  Shows-Keeps ms l threw s g = absurd s
  Shows-Keeps ms l underrun s g = absurd s
  Shows-Keeps ms l fault s g = absurd s

  bind-Keeps :
      (ms ms' : List (List ℕ)) (r : Result Writes) (rest : Writes → Result Writes)
      → Keeps ms r
      → ((w : Writes) → State ms w → Keeps ms' (rest w))
      → Keeps ms' (r >>= rest)
  bind-Keeps ms ms' r rest (w, e, v) f = rw e (f w v)

  begun :
      (ms : List (List ℕ)) (buf wire : List ℕ)
      → Garbles ms wire
      → State
          (ms ++ buf ∷ [])
          (writes (copy_node buf ∷ []) true ((write_callback, freed buf) ∷ []) wire)
  unfolding copy_node
  begun ms buf wire g = (
    subst (λ x. Garbles (ms ++ buf ∷ []) (wire ++ x)) (sym (append-nil buf))
        (Garbles-append ms (buf ∷ []) wire buf g (Garbles-one buf)),
    inr (record {
      front = copy_node buf;
      behind = [];
      done = ms;
      is = refl;
      filled = (copy_node-Filled buf, tt);
      fresh = (refl, tt);
      asked = refl;
      wired = g;
    }),
  )

  -- A call of `WriteToSocket`.
  asked_at :
      (ms : List (List ℕ)) (buf : List ℕ) (q : List Node) (p : Bool) (ops : List (Handler × List ℕ))
      (wire : List ℕ)
      → Garbles ms (wire ++ unsent q)
      → Flow q p ops
      → Keeps (ms ++ buf ∷ []) (ok (write_to_socket freed buf (writes q p ops wire)))
  unfolding write_to_socket begin
  asked_at ms buf [] false [] wire g f =
      (_, refl, begun ms buf wire (subst (λ x. Garbles ms x) (append-nil wire) g))
  asked_at ms buf (d ∷ q) true ((write_callback, b) ∷ []) wire g f =
      Shows-Keeps (ms ++ buf ∷ []) ((wire ++ unsent (d ∷ q)) ++ buf) _
        (queued freed buf d q b wire f)
        (Garbles-append ms (buf ∷ []) (wire ++ unsent (d ∷ q)) buf g (Garbles-one buf))
  asked_at ms buf [] false (o ∷ ops) wire g f = absurd f
  asked_at ms buf [] true ops wire g f = absurd f
  asked_at ms buf (d ∷ q) false ops wire g f = absurd f
  asked_at ms buf (d ∷ q) true [] wire g f = absurd f
  asked_at ms buf (d ∷ q) true ((write_all_callback, b) ∷ ops) wire g f = absurd f
  asked_at ms buf (d ∷ q) true ((write_callback, b) ∷ o ∷ ops) wire g f = absurd f

  map-append_msg :
      (q r : List Node) → map (λ d. d.msg) (q ++ r) ≡ map (λ d. d.msg) q ++ map (λ d. d.msg) r
  map-append_msg [] r = refl
  map-append_msg (d ∷ q) r = ap (λ l. d.msg ∷ l) (map-append_msg q r)

  asked-First :
      (ms : List (List ℕ)) (buf : List ℕ) (w : Writes)
      → Garbles ms (stream w)
      → (f : First ms w)
      → Keeps (ms ++ buf ∷ []) (
          ok (
            write_to_socket freed buf
              (writes (f.front ∷ f.behind) true ((write_callback, freed f.front.msg) ∷ []) w.wire)))
  unfolding write_to_socket copy_node
  asked-First ms buf w g f =
      let shown : stream w ++ buf ≡ w.wire ++ unsent ((f.front ∷ f.behind) ++ copy_node buf ∷ []) =
        ap (λ y. stream y ++ buf) f.is ∙ simp (unsent-append, append-nil, append_assoc) in
      (
        _,
        refl,
        (
          subst (λ x. Garbles (ms ++ buf ∷ []) x) shown
              (Garbles-append ms (buf ∷ []) (stream w) buf g (Garbles-one buf)),
          inr (record {
            front = f.front;
            behind = f.behind ++ copy_node buf ∷ [];
            done = f.done;
            is = refl;
            filled =
                (f.filled.0, All-append Filled f.behind _ f.filled.1 (copy_node-Filled buf, tt));
            fresh = (f.fresh.0, All-append Fresh f.behind _ f.fresh.1 (refl, tt));
            asked =
                ap (λ l. l ++ buf ∷ []) f.asked
                ∙ append_assoc f.done _ (buf ∷ [])
                ∙ ap (λ l. f.done ++ f.front.msg ∷ l)
                    (sym (map-append_msg f.behind (copy_node buf ∷ [])));
            wired = f.wired;
          }),
        ),
      )

  asked-Keeps :
      (ms : List (List ℕ)) (buf : List ℕ) (w : Writes)
      → State ms w
      → Keeps (ms ++ buf ∷ []) (ok (write_to_socket freed buf w))
  asked-Keeps ms buf w (g, inl f) = asked_at ms buf w.send_queue w.send_pending w.ops w.wire g f
  asked-Keeps ms buf w (g, inr f) =
      subst (λ y. Keeps (ms ++ buf ∷ []) (ok (write_to_socket freed buf y))) (sym f.is)
        (asked-First ms buf w g f)

  module _ (sized : (l : List ℕ) → length (freed l) ≡ length l) where
    -- The first operation on a message completes.
    completed_first :
        (n : ℕ) (ms : List (List ℕ)) (d : Node) (q : List Node) (done : List (List ℕ))
        (wire : List ℕ)
        → All Filled (d ∷ q)
        → All Fresh (d ∷ q)
        → ms ≡ done ++ d.msg ∷ map (λ d. d.msg) q
        → Garbles done wire
        → Keeps ms (
            complete
              ((write_callback, freed d.msg) ∷ [])
              false
              n
              (writes (d ∷ q) true ((write_callback, freed d.msg) ∷ []) wire))
    unfolding complete handle
    completed_first n ms d q done wire (f, fs) (c, cs) e g =
        let k : ℕ = min n (length (freed d.msg)) in
        let whole : left d ≡ d.msg = ap (λ i. drop i d.msg) c in
        let bound : k ≤ length (left d) = rw whole (omega (arith, sized d.msg)) in
        let sent = take n (freed d.msg) in
        let shows = advanced d q k (wire ++ sent) f fs bound in
        let parts : sent ++ (drop k (left d) ++ unsent q)
            ≡ take k (freed d.msg) ++ (drop k d.msg ++ unsent q) =
          rw (whole, take-min n (freed d.msg)) refl in
        let rest : Garbles (d.msg ∷ map (λ d. d.msg) q) (sent ++ (drop k (left d) ++ unsent q)) =
          (k, unsent q, parts, Garbles-unsent q cs) in
        let all : Garbles ms ((wire ++ sent) ++ (drop k (left d) ++ unsent q)) =
          subst (λ l. Garbles l ((wire ++ sent) ++ (drop k (left d) ++ unsent q))) (sym e)
            (subst (λ l. Garbles (done ++ d.msg ∷ map (λ d. d.msg) q) l)
              (sym (append_assoc wire sent _))
              (Garbles-append done (d.msg ∷ map (λ d. d.msg) q) wire _ g rest)) in
        Shows-Keeps ms _ _ shows all

    completed-Keeps :
        (n : ℕ) (ms : List (List ℕ)) (w : Writes) → State ms w → Keeps ms (complete w.ops false n w)
    completed-Keeps n ms w (g, inl f) =
        Shows-Keeps ms (stream w) _ (completed n w.send_queue w.send_pending w.ops w.wire f) g
    completed-Keeps n ms w (g, inr f) =
        subst (λ y. Keeps ms (complete y.ops false n y)) (sym f.is)
          (completed_first n ms f.front f.behind f.done w.wire f.filled f.fresh f.asked f.wired)

    run-Keeps :
        (es : List Event) (ms : List (List ℕ)) (w : Writes)
        → All Plain es
        → State ms w
        → Keeps (ms ++ requests es) (run freed es w)
    unfolding run step
    run-Keeps [] ms w p v = subst (λ l. Keeps l (ok w)) (sym (append-nil ms)) (w, refl, v)
    run-Keeps (asks buf ∷ es) ms w p v =
        subst (λ l. Keeps l (run freed (asks buf ∷ es) w))
          (append_assoc ms (buf ∷ []) (requests es))
          (bind-Keeps (ms ++ buf ∷ []) ((ms ++ buf ∷ []) ++ requests es)
            (ok (write_to_socket freed buf w)) (run freed es) (asked-Keeps ms buf w v)
            (λ w' v'. run-Keeps es (ms ++ buf ∷ []) w' p.1 v'))
    run-Keeps (completes n ∷ es) ms w p v =
        let (w', e, v') = completed-Keeps n ms w v in rw e (run-Keeps es ms w' p.1 v')
    run-Keeps (asks_all buf ∷ es) ms w p v = absurd p.0
    run-Keeps (fails ∷ es) ms w p v = absurd p.0

    -- `WriteToSocket` in any order with operations that complete, each on as much of its buffer as the
    -- socket takes, whatever the freed memory holds that the first operation on a message reads, which is as
    -- long as the message: no handler fails, and the bytes on the wire and those that the queue still
    -- holds are together the messages asked for, in order and each in its length, but that of a message
    -- some first bytes, which the first operation took, may be those of the freed memory.
    pub run-idle-Keeps : (es : List Event) → All Plain es → Keeps (requests es) (run freed es idle)
    run-idle-Keeps es p = run-Keeps es [] idle p (refl, inl tt)
