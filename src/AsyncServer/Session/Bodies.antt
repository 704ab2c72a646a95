-- ===== src/AsyncServer/Session/Bodies.antt =====
-- The body of a message in `HandleRead` of Network/asyncServer/src/CSession.cpp, when the chunk has all
-- of it.
use boost_net_programing.Base.{
  ℕ, ◌+◌, ◌-◌, ◌≤◌, ◌<◌, ◌≡◌, refl, List, [], ◌∷◌, ◌++◌, false, some, length, drop, replicate, ok,
  write_at, short, arith, length-replicate, read_at_here, write_at_here, drop-replicate, >>=-ok,
  All,
}
use boost_net_programing.AsyncServer.MsgNode.{head_total_len, MsgNode, RecvNode, clear, make_recv}
use boost_net_programing.AsyncServer.Session.{Rx, next_round, append_bytes, body_whole, idle_head}

-- The header node when the bytes `got` of a header have come.
abbrev pub held_head : List ℕ → MsgNode
held_head got = record {
  buf = got ++ replicate (5 - length got) 0;
  cur_len = length got;
  total_len = head_total_len;
}

-- Between two messages, with `got` of the next header.
pub record Holds (s : Rx) (got : List ℕ) : Type 0 where
  pub head_held : s.head ≡ held_head got
  pub not_parsed : s.head_parsed ≡ false
  pub in_heap : All (λ p. p < length s.heap) s.posted

-- A node as it comes from a header, and as it is posted.
abbrev pub fresh_node : ℕ → ℕ → RecvNode
fresh_node id len = record {
  node = record { buf = replicate (len + 1) 0; cur_len = 0; total_len = len };
  msg_id = id;
}

abbrev pub full_node : ℕ → List ℕ → RecvNode
full_node id body = record {
  node = record { buf = body ++ 0 ∷ []; cur_len = length body; total_len = length body };
  msg_id = id;
}

abbrev pub posted_state : Rx → ℕ → List ℕ → Rx
posted_state s id body = record s {
  head = idle_head;
  msg = some (length s.heap);
  head_parsed = false;
  heap = s.heap ++ full_node id body ∷ [];
  posted = s.posted ++ length s.heap ∷ [];
}

pub make_recv-ok : (len id : ℕ) → len ≤ 2048 → make_recv len id ≡ ok (fresh_node id len)
unfolding make_recv
make_recv-ok len id h = ground arith

pub append_bytes-here :
    (node : MsgNode) (before xs behind got zs : List ℕ)
    → node.buf ≡ got ++ zs
    → node.cur_len ≡ length got
    → length xs ≤ length zs
    → append_bytes node (before ++ (xs ++ behind)) (length before) (length xs)
      ≡ ok (got ++ (xs ++ drop (length xs) zs))
unfolding append_bytes
append_bytes-here node before xs behind got zs b c h =
    rw (read_at_here before xs behind, b, c) (write_at_here got xs zs h)

-- The body of a fresh node.
module _ (s : Rx) (id : ℕ) (before body behind : List ℕ) (n : ℕ) (small : length body ≤ 2048)
    (rb : s.recv_buf ≡ before ++ (body ++ behind)) where
  filled :
      append_bytes (fresh_node id (length body)).node s.recv_buf (length before) (length body)
      ≡ ok (body ++ 0 ∷ [])
  filled = rw (
    rb,
    append_bytes-here (fresh_node id (length body)).node before body behind []
        (replicate (length body + 1) 0) refl refl
        (omega (arith, length-replicate {A = ℕ} (length body + 1) 0)),
    drop-replicate {A = ℕ} (length body) (length body + 1) 0,
    one,
  )
    where
      one : length body + 1 - length body ≡ 1
      one = omega arith

  ended : write_at (body ++ 0 ∷ []) (length body) (0 ∷ []) ≡ ok (body ++ 0 ∷ [])
  ended = write_at_here body (0 ∷ []) (0 ∷ []) (omega arith)

  pub body_whole-here :
      clear s.head ≡ ok idle_head
      → body_whole s (fresh_node id (length body)) (length before) n
        ≡ ok (next_round (posted_state s id body) (length before + length body) (n - length body))
  unfolding body_whole
  body_whole-here cleared = >>=-ok _ filled (>>=-ok _ ended (>>=-ok _ cleared (rw whole)))
    where
      whole : short (0 + length body) ≡ length body
      whole = omega arith

pub clear-head :
    (a b c d k : ℕ)
    → clear (record { buf = a ∷ b ∷ c ∷ d ∷ 0 ∷ []; cur_len = k; total_len = 4 }) ≡ ok idle_head
unfolding clear
clear-head a b c d k = refl
