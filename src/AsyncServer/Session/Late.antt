-- ===== src/AsyncServer/Session/Late.antt =====
-- The second half of `HandleRead` in Network/asyncServer/src/CSession.cpp: a body whose header came
-- in an earlier read.
use boost_net_programing.Base.{
  ℕ, zero, suc, ◌+◌, ◌-◌, ◌*◌, ◌≤◌, ◌<◌, ◌≡◌, refl, ◌∙◌, List, [], ◌∷◌, ◌++◌, true, false, some,
  ◌==◌, lt→ltb, le→ltb, length, get_elem?, set, drop, replicate, ok, count_sub, short, arith, All,
  length-append, get_elem?-set_self, lt_of_get_elem?, write_at_total,
}
use boost_net_programing.AsyncServer.MsgNode.{max_length, ByteOrder, RecvNode}
use boost_net_programing.AsyncServer.Session.Steps.{step-body_rest, loop-leave}
use boost_net_programing.AsyncServer.Session.{
  Rx, reading, leave, rearm, next_round, rest_part, rest_whole, body_rest, deref, loop, handle_read,
  receive, lookup_message, after_read, receive_each,
}
use boost_net_programing.AsyncServer.Session.Validity.{append_bytes_total, clear_total, IsFilling}

-- The body of the node at `p`, of `total` bytes, is to come from byte `cur` on.
pub record Waits (s : Rx) (p cur total : ℕ) : Type 0 where
  pub parsed : s.head_parsed ≡ true
  pub points : s.msg ≡ some p
  pub node : RecvNode
  pub at : get_elem? s.heap p ≡ some node
  pub filling : IsFilling node
  pub cur_is : node.cur_len ≡ cur
  pub total_is : node.total_len ≡ total

module _ (o : ByteOrder) (s : Rx) (p : ℕ) (m : RecvNode) (bytes : List ℕ)
    (parsed : s.head_parsed ≡ true) (points : s.msg ≡ some p) (at : get_elem? s.heap p ≡ some m)
    (filling : IsFilling m) (pos : 0 < length bytes) where
  abbrev missing : ℕ
  missing = m.total_len - m.cur_len

  abbrev filled : Rx
  filled = record s { recv_buf = bytes ++ drop (length bytes) s.recv_buf }

  counted : count_sub m.total_len m.cur_len ≡ ok missing
  counted = ground (arith, filling.begun)

  found : deref filled ≡ ok (p, m)
  unfolding deref
  found = ground (arith, points, at)

  in_chunk : 0 + length bytes ≤ length filled.recv_buf
  in_chunk = omega (arith, length-append bytes (drop (length bytes) s.recv_buf))

  receive-round :
      {t : Rx}
      → body_rest filled 0 (length bytes) ≡ ok (leave reading t)
      → receive o s bytes ≡ ok (reading, t)
  unfolding receive handle_read
  receive-round {t} e = fuel_pos (2 * length bytes + 2) (omega arith)
    where
      fuel_pos : (k : ℕ) → 0 < k → loop o k filled 0 (length bytes) ≡ ok (reading, t)
      fuel_pos zero h = absurd (omega arith)
      fuel_pos (suc k) h =
          loop-leave o k filled t 0 (length bytes) reading pos
            (step-body_rest o filled 0 (length bytes) parsed ∙ e)

  -- The rest of a body in one read: the node is posted, but cleared before the call returns, so
  -- the pointer in the logic queue reads an empty message.
  pub receive-late_body :
      length bytes ≡ missing
      → s.head.total_len ≤ length s.head.buf
      → (t : Rx) × (receive o s bytes ≡ ok (reading, t))
        × (t.posted ≡ s.posted ++ p ∷ [])
        × (lookup_message t.heap p ≡ some (m.msg_id, []))
  unfolding body_rest rest_whole next_round rearm
  receive-late_body all hb =
      let (r, e, l) =
        append_bytes_total m.node filled.recv_buf 0 missing (omega (arith, in_chunk))
          (omega (arith, filling.buf_len, filling.begun)) in
      let (r', e', l') = write_at_total r m.total_len (0 ∷ []) (omega (arith, filling.buf_len)) in
      let (hd, eh, lh) = clear_total s.head hb in
      let (b, eb, lb) =
        clear_total
          (record { buf = r'; cur_len = short (m.cur_len + missing); total_len = m.total_len })
          (omega (arith, filling.buf_len)) in
      let none_left : (length bytes - missing == 0) ≡ true = ground arith in
      (
        record s {
          recv_buf = replicate max_length 0;
          heap = set s.heap p (record m { node = record (m.node) { buf = b; cur_len = 0 } });
          posted = s.posted ++ p ∷ [];
          head_parsed = false;
          head = record (s.head) { buf = hd; cur_len = 0 };
        },
        receive-round (
            rw (
              found,
              counted,
              le→ltb (length bytes) missing (omega arith),
              e,
              e',
              eh,
              eb,
              none_left,
            )),
        refl,
        rw (lookup_message, get_elem?-set_self s.heap p _ (lt_of_get_elem? s.heap p at)),
      )

  -- A further part of a body is stored, but not counted.
  part_kept :
      length bytes < missing
      → (t : Rx) × (receive o s bytes ≡ ok (reading, t))
        × (t.posted ≡ s.posted)
        × Waits t p m.cur_len m.total_len
  unfolding body_rest rest_part rearm
  part_kept part =
      let (r, e, l) =
        append_bytes_total m.node filled.recv_buf 0 (length bytes) in_chunk
          (omega (arith, filling.buf_len, filling.begun)) in
      let m' : RecvNode = record m { node = record (m.node) { buf = r } } in
      (
        record s { recv_buf = replicate max_length 0; heap = set s.heap p m' },
        receive-round (rw (found, counted, lt→ltb (length bytes) missing part, e)),
        refl,
        record {
          parsed = parsed;
          points = points;
          node = m';
          at = get_elem?-set_self s.heap p m' (lt_of_get_elem? s.heap p at);
          filling = record {
            begun = filling.begun;
            total_fits = filling.total_fits;
            buf_len = l ∙ filling.buf_len;
          };
          cur_is = refl;
          total_is = refl;
        },
      )

-- However many parts of a body come, each in a read of its own and each shorter than what was missing
-- after the header's read, also if they are together the whole body or more: the session reads on, posts
-- nothing, and misses as many bytes of that body as before the first of them.
pub receive_each-Waits :
    (o : ByteOrder) (parts : List (List ℕ)) (s : Rx) (p cur total : ℕ)
    → Waits s p cur total
    → All (λ bytes. (0 < length bytes) × (length bytes < total - cur)) parts
    → (t : Rx) × (receive_each o parts s ≡ ok (reading, t))
      × (t.posted ≡ s.posted)
      × Waits t p cur total
unfolding receive_each after_read
receive_each-Waits o [] s p cur total v h = (s, refl, refl, v)
receive_each-Waits o (bytes ∷ parts) s p cur total v h =
    let (t, e, same, k) =
      part_kept o s p v.node bytes v.parsed v.points v.at v.filling h.0.0
        (omega (arith, h.0.1, v.cur_is, v.total_is)) in
    let k' : Waits t p cur total = record {
      parsed = k.parsed;
      points = k.points;
      node = k.node;
      at = k.at;
      filling = k.filling;
      cur_is = k.cur_is ∙ v.cur_is;
      total_is = k.total_is ∙ v.total_is;
    } in
    let (t', e', same', k'') = receive_each-Waits o parts t p cur total k' h.1 in
    (t', rw e e', same' ∙ same, k'')
