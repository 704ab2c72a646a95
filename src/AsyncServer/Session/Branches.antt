-- ===== src/AsyncServer/Session/Branches.antt =====
-- The branches of the loop in `HandleRead` of Network/asyncServer/src/CSession.cpp stay in bounds.
use boost_net_programing.Base.{
  ℕ, ◌+◌, ◌-◌, ◌*◌, ◌≤◌, ◌<◌, ◌≡◌, refl, ◌∙◌, [], ◌∷◌, true, some, ltb, length, get_elem?, ok,
  count_sub, short, arith, length-replicate, get_elem?-append_at, get_elem?-set_self,
  lt_of_get_elem?, ltb→lt, ltb→le, write_at_total, Bool-cases, inl, inr,
}
use boost_net_programing.AsyncServer.MsgNode.{max_length, RecvNode}
use boost_net_programing.AsyncServer.Session.{
  Rx, rearm, head_part, body_part, body_whole, rest_part, rest_whole, body_rest, deref, body_start,
}
use boost_net_programing.AsyncServer.Session.Validity.{
  IsFilling, IsValid, fresh_node, NextSafe, append_bytes_total, clear_total, zeros, next_round-safe,
}

module _ (s : Rx) (c n k : ℕ) (v : IsValid s) (room : c + n ≤ max_length) where
  pub head_part-safe : n + s.head.cur_len < 4 → NextSafe k (head_part s c n)
  unfolding head_part rearm
  head_part-safe h =
      let (r, e, l) =
        append_bytes_total s.head s.recv_buf c n (omega (arith, v.recv_len))
          (omega (arith, v.head_len)) in
      rw e (
        record {
          recv_len = zeros;
          head_len = l ∙ v.head_len;
          head_total = v.head_total;
          head_cur = omega arith;
          filling = v.filling;
        },
        λ q. cc,
      )

  body_part-safe :
      (len id : ℕ) → len ≤ max_length → n < len → NextSafe k (body_part s (fresh_node id len) c n)
  unfolding body_part rearm
  body_part-safe len id h lt =
      let (r, e, l) =
        append_bytes_total (fresh_node id len).node s.recv_buf c n (omega (arith, v.recv_len))
          (omega (arith, length-replicate {A = ℕ} (len + 1) 0)) in
      rw e (
        record {
          recv_len = zeros;
          head_len = v.head_len;
          head_total = v.head_total;
          head_cur = v.head_cur;
          filling = λ q. (
            length s.heap,
            _,
            refl,
            get_elem?-append_at s.heap [] _,
            record {
              begun = omega arith;
              total_fits = h;
              buf_len = l ∙ length-replicate {A = ℕ} (len + 1) 0;
            },
          );
        },
        λ q. cc,
      )

  body_whole-safe :
      (len id : ℕ)
      → len ≤ max_length
      → len ≤ n
      → 2 * (n - len) < k
      → NextSafe k (body_whole s (fresh_node id len) c n)
  unfolding body_whole
  body_whole-safe len id h le lt =
      let (r, e, l) =
        append_bytes_total (fresh_node id len).node s.recv_buf c len (omega (arith, v.recv_len))
          (omega (arith, length-replicate {A = ℕ} (len + 1) 0)) in
      let (r', e', l') =
        write_at_total r len (0 ∷ []) (omega (arith, length-replicate {A = ℕ} (len + 1) 0)) in
      let (hd, eh, lh) = clear_total s.head (omega (arith, v.head_len, v.head_total)) in
      rw (e, e', eh)
        (next_round-safe k _ (c + len) (n - len)
          (record {
            recv_len = v.recv_len;
            head_len = lh ∙ v.head_len;
            head_total = v.head_total;
            head_cur = omega arith;
            filling = λ q. cc;
          })
          (omega arith) (omega arith))

  pub body_start-safe :
      (len id : ℕ)
      → len ≤ max_length
      → 2 * n < k
      → NextSafe k (body_start s (fresh_node id len) c n)
  unfolding body_start
  body_start-safe len id h lt = elim (Bool-cases (ltb n len)) [
    | inl e ↦ rw e (body_part-safe len id h (ltb→lt n len e))
    | inr e ↦ rw e (body_whole-safe len id h (ltb→le n len e) (omega arith))
  ]

  module _ (p : ℕ) (m : RecvNode) (at : get_elem? s.heap p ≡ some m) (w : s.msg ≡ some p)
      (g : IsFilling m) where
    rest_part-safe : n < m.total_len - m.cur_len → NextSafe k (rest_part s p m c n)
    unfolding rest_part rearm
    rest_part-safe lt =
        let (r, e, l) =
          append_bytes_total m.node s.recv_buf c n (omega (arith, v.recv_len))
            (omega (arith, g.buf_len, g.begun)) in
        rw e (
          record {
            recv_len = zeros;
            head_len = v.head_len;
            head_total = v.head_total;
            head_cur = v.head_cur;
            filling = λ q. (
              p,
              _,
              w,
              get_elem?-set_self s.heap p _ (lt_of_get_elem? s.heap p at),
              record { begun = g.begun; total_fits = g.total_fits; buf_len = l ∙ g.buf_len },
            );
          },
          λ q. cc,
        )

    rest_whole-safe :
        m.total_len - m.cur_len ≤ n
        → 2 * n < k
        → NextSafe k (rest_whole s p m (m.total_len - m.cur_len) c n)
    unfolding rest_whole
    rest_whole-safe le lt =
        let remain : ℕ = m.total_len - m.cur_len in
        let (r, e, l) =
          append_bytes_total m.node s.recv_buf c remain (omega (arith, v.recv_len))
            (omega (arith, g.buf_len, g.begun)) in
        let (r', e', l') = write_at_total r m.total_len (0 ∷ []) (omega (arith, g.buf_len)) in
        let (hd, eh, lh) = clear_total s.head (omega (arith, v.head_len, v.head_total)) in
        let (b, eb, lb) =
          clear_total
            (record { buf = r'; cur_len = short (m.cur_len + remain); total_len = m.total_len })
            (omega (arith, g.buf_len)) in
        rw (e, e', eh, eb)
          (next_round-safe k _ c (n - remain)
            (record {
              recv_len = v.recv_len;
              head_len = lh ∙ v.head_len;
              head_total = v.head_total;
              head_cur = omega arith;
              filling = λ q. cc;
            })
            (omega arith) (omega arith))

  deref-filling :
      {p : ℕ} {m : RecvNode} → s.msg ≡ some p → get_elem? s.heap p ≡ some m → deref s ≡ ok (p, m)
  unfolding deref
  deref-filling w at = ground (arith, w, at)

  pub body_rest-safe : s.head_parsed ≡ true → 2 * n < k → NextSafe k (body_rest s c n)
  unfolding body_rest
  body_rest-safe parsed lt =
      let (p, m, w, at, g) = v.filling parsed in
      let counted : count_sub m.total_len m.cur_len ≡ ok (m.total_len - m.cur_len) =
        ground (arith, g.begun) in
      rw (deref-filling w at, counted)
        (elim (Bool-cases (ltb n (m.total_len - m.cur_len))) [
          | inl e ↦ rw e (rest_part-safe p m at w g (ltb→lt n (m.total_len - m.cur_len) e))
          | inr e ↦ rw e (rest_whole-safe p m at w g (ltb→le n (m.total_len - m.cur_len) e) lt)
        ])
