-- ===== src/AsyncServer/Session/Safety.antt =====
-- No call of `HandleRead` in Network/asyncServer/src/CSession.cpp reads or writes outside a buffer,
-- whatever bytes come, except through a length of -1.
use boost_net_programing.Base.{
  ℕ, zero, suc, ◌+◌, ◌-◌, ◌*◌, ◌≤◌, ◌<◌, ◌≡◌, sym, ◌∙◌, List, ◌++◌, false, ◌||◌, ◌⊎◌, ◌==◌, ltb,
  length, drop, read_at_total, Result, ok, threw, underrun, fault, ◌>>=◌, count_sub, short_gt,
  load_short, arith, length-append, length-drop, ltb→lt, ltb→le, subst, Bool-cases, inl, inr,
}
use boost_net_programing.AsyncServer.MsgNode.{max_length, ByteOrder, make_node, make_recv}
use boost_net_programing.AsyncServer.Session.Steps.{step-body_rest, step-head_rest, step-head_part}
use boost_net_programing.AsyncServer.Session.{
  Rx, Outcome, Next, leave, again, accept_fields, head_fields, head_rest, step, follow, loop,
  handle_read, receive,
}
use boost_net_programing.AsyncServer.Session.Validity.{
  IsValid, fresh_node, flag, NextSafe, CallSafe, append_bytes_total,
}
use boost_net_programing.AsyncServer.Session.Branches.{
  head_part-safe, body_start-safe, body_rest-safe,
}

-- A new node has an accepted length, or there is none.
make_recv-cases :
    (len id : ℕ)
    → short_gt len max_length ≡ false
    → (make_recv len id ≡ underrun)
      ⊎ ((make_recv len id ≡ threw)
          ⊎ ((make_recv len id ≡ ok (fresh_node id len)) × (len ≤ max_length)))
unfolding make_recv make_node
make_recv-cases len id h = ground arith

module _ (o : ByteOrder) (s : Rx) (c n k : ℕ) (v : IsValid s) (room : c + n ≤ max_length) where
  accept_fields-safe :
      (id len : ℕ) → s.head_parsed ≡ false → 2 * n < k → NextSafe k (accept_fields o s id len c n)
  unfolding accept_fields
  accept_fields-safe id len p lt =
      elim (Bool-cases (short_gt id max_length || short_gt len max_length)) [
        | inl e ↦ rw e (v, λ q. cc)
        | inr e ↦ rw e (elim (make_recv-cases len id (ground arith)) [
          | inl u ↦ rw u tt
          | inr (inl t) ↦ rw t tt
          | inr (inr f) ↦ rw (f.0) (body_start-safe s c n k v room len id f.1 lt)
        ])
      ]

  head_fields-safe : s.head_parsed ≡ false → 2 * n < k → NextSafe k (head_fields o s c n)
  unfolding head_fields
  head_fields-safe p lt =
      let (id, e, i) = read_at_total s.head.buf 0 2 (omega (arith, v.head_len)) in
      let (len, f, j) = read_at_total s.head.buf 2 2 (omega (arith, v.head_len)) in
      rw (e, f)
        (accept_fields-safe (o.network_to_host (load_short id)) (o.network_to_host (load_short len))
          p lt)

module _ (o : ByteOrder) where
  head_rest-safe :
      (s : Rx) (c n : ℕ)
      → IsValid s
      → c + n ≤ max_length
      → s.head_parsed ≡ false
      → 4 ≤ n + s.head.cur_len
      → NextSafe (2 * n) (head_rest o s c n)
  unfolding head_rest
  head_rest-safe s c n v room p h =
      let remain : ℕ = 4 - s.head.cur_len in
      let counted : count_sub 4 s.head.cur_len ≡ ok remain = ground (arith, v.head_cur) in
      let (r, e, l) =
        append_bytes_total s.head s.recv_buf c remain (omega (arith, v.recv_len, v.head_cur))
          (omega (arith, v.head_len, v.head_cur)) in
      rw (counted, e)
        (head_fields-safe o (record s { head = record (s.head) { buf = r } }) (c + remain)
          (n - remain) (2 * n)
          (record {
            recv_len = v.recv_len;
            head_len = l ∙ v.head_len;
            head_total = v.head_total;
            head_cur = v.head_cur;
            filling = v.filling;
          })
          (omega (arith, v.head_cur)) p (omega (arith, v.head_cur)))

  step-safe :
      (s : Rx) (c n : ℕ) → IsValid s → c + n ≤ max_length → NextSafe (2 * n + flag s) (step o s c n)
  step-safe s c n v room = elim (Bool-cases s.head_parsed) [
    | inl p ↦
        subst (NextSafe (2 * n + flag s)) (sym (step-body_rest o s c n p))
          (body_rest-safe s c n (2 * n + flag s) v room p (ground arith))
    | inr p ↦ elim (Bool-cases (ltb (n + s.head.cur_len) 4)) [
      | inl e ↦
          subst (NextSafe (2 * n + flag s)) (sym (step-head_part o s c n p (ltb→lt _ _ e)))
            (head_part-safe s c n (2 * n + flag s) v room (ltb→lt _ _ e))
      | inr e ↦
          subst (NextSafe (2 * n + flag s)) (sym (step-head_rest o s c n p (ltb→le _ _ e)))
            (rw (flag-zero s p) (head_rest-safe s c n v room p (ltb→le _ _ e)))
    ]
  ]
    where
      flag-zero : (s : Rx) → s.head_parsed ≡ false → 2 * n + flag s ≡ 2 * n
      flag-zero s p = ground arith

  followed :
      (k : ℕ) (r : Result Next) (rounds : Rx → ℕ → ℕ → Result (Outcome × Rx))
      → NextSafe k r
      → ((t : Rx) (c m : ℕ)
          → IsValid t
          → c + m ≤ max_length
          → 2 * m + flag t < k
          → CallSafe (rounds t c m))
      → CallSafe (r >>= follow o rounds)
  followed k (ok (leave out t)) rounds h ih = h
  followed k (ok (again t c m)) rounds h ih = ih t c m h.0 h.1 h.2
  followed k threw rounds h ih = tt
  followed k underrun rounds h ih = tt
  followed k fault rounds h ih = h

  loop-safe :
      (f : ℕ) (s : Rx) (c n : ℕ)
      → IsValid s
      → c + n ≤ max_length
      → 2 * n + flag s < f
      → CallSafe (loop o f s c n)
  unfolding loop
  loop-safe zero s c n v room lt = absurd (omega arith)
  loop-safe (suc f) s c n v room lt = elim (Bool-cases (n == 0)) [
    | inl e ↦ rw e (v, λ q. cc)
    | inr e ↦ rw e (
        followed (2 * n + flag s) (step o s c n) (loop o f) (step-safe s c n v room)
          (λ t c' m vt rt mt. loop-safe f t c' m vt rt (omega arith)))
  ]

  -- Whatever a read brings, `HandleRead` makes no access outside a buffer but for a length of -1,
  -- ends within its fuel, and leaves a valid state.
  pub receive-safe :
      (s : Rx) (bytes : List ℕ)
      → IsValid s
      → length bytes ≤ max_length
      → CallSafe (receive o s bytes)
  unfolding receive handle_read
  receive-safe s bytes v h =
      loop-safe (2 * length bytes + 2)
        (record s { recv_buf = bytes ++ drop (length bytes) s.recv_buf }) 0 (length bytes)
        (record {
          recv_len = omega (
            arith,
            length-append bytes (drop (length bytes) s.recv_buf),
            length-drop (length bytes) s.recv_buf,
            v.recv_len,
          );
          head_len = v.head_len;
          head_total = v.head_total;
          head_cur = v.head_cur;
          filling = v.filling;
        })
        (omega arith) (flag-small s)
    where
      flag-small : (s : Rx) → 2 * length bytes + flag s < 2 * length bytes + 2
      flag-small s = ground arith
