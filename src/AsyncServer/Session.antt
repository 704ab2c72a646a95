-- ===== src/AsyncServer/Session.antt =====
-- Network/asyncServer/inc/CSession.h and src/CSession.cpp: the reading side of `CSession`, the
-- frames that `HandleRead` cuts out of a TCP stream and posts to the logic thread.
pub mod Steps
pub mod Bodies
pub mod Frames
pub mod Stream
pub mod Validity
mod Branches
pub mod Safety
pub mod Late
mod Tests
use boost_net_programing.Base.{
  ℕ, zero, suc, ◌+◌, ◌-◌, ◌*◌, List, [], ◌∷◌, ◌++◌, Bool, true, false, ◌||◌, Option, none, some,
  if◌then◌else◌, ◌==◌, ltb, length, get_elem?, set, take, drop, replicate, map, Result, ok, fault,
  ◌>>=◌, read_at, write_at, count_sub, short, short_gt, load_short,
}
use boost_net_programing.AsyncServer.MsgNode.{
  max_length, head_total_len, head_id_len, head_data_len, ByteOrder, MsgNode, RecvNode, clear,
  make_recv,
}

-- What `HandleRead` touches. `recv_buf` is `_data`; `msg` is the pointer `_recv_msg_node`, an
-- index into the nodes that were allocated, which the logic thread shares; `posted` holds the
-- pointers handed to `LogicSystem::PostMsgToQue`, in order.
pub record Rx : Type 0 where
  pub recv_buf : List ℕ
  pub head : MsgNode
  pub msg : Option ℕ
  pub head_parsed : Bool
  pub heap : List RecvNode
  pub posted : List ℕ

-- How a call ends: with another `async_read_some` under way, with the session taken out of the
-- server by `ClearSession`, or with neither. `exhausted` is the model's: the fuel ran out.
pub data Outcome : Type 0 where
  reading closed stalled exhausted : Outcome

-- How a round of the loop ends: by `return`, or with the next `copy_len` and `bytes_transferred`.
pub data Next : Type 0 where
  leave : Outcome → Rx → Next
  again : Rx → ℕ → ℕ → Next

-- `memset(_data, 0, MAX_LENGTH)` and `async_read_some`.
unfoldable pub rearm : Rx → Next
rearm s = leave reading (record s { recv_buf = replicate max_length 0 })

unfoldable pub deref : Rx → Result (ℕ × RecvNode)
deref s = elim s.msg [
  | none ↦ fault
  | some p ↦ elim (get_elem? s.heap p) [ none ↦ fault | some m ↦ ok (p, m) ]
]

-- The end of a round: `if (bytes_transferred <= 0) { ...; return; } continue;`.
unfoldable pub next_round : Rx → ℕ → ℕ → Next
next_round s copy_len n = if n == 0 then rearm s else again s copy_len n

-- `memcpy(node._data + node._cur_len, _data + copy_len, n)`.
unfoldable pub append_bytes : MsgNode → List ℕ → ℕ → ℕ → Result (List ℕ)
append_bytes node recv_buf copy_len n = do
  bytes ← read_at recv_buf copy_len n
  write_at node.buf node.cur_len bytes

-- The part of a header that the chunk ends in.
unfoldable pub head_part : Rx → ℕ → ℕ → Result Next
head_part s copy_len n = do
  buf ← append_bytes s.head s.recv_buf copy_len n
  let head = record (s.head) { buf = buf; cur_len = short (s.head.cur_len + n) }
  ok (rearm (record s { head = head }))

-- The body behind a header, into the node `m` just allocated: part of it, and more is waited for.
unfoldable pub body_part : Rx → RecvNode → ℕ → ℕ → Result Next
body_part s m copy_len n = do
  buf ← append_bytes m.node s.recv_buf copy_len n
  let node = record (m.node) { buf = buf; cur_len = short (m.cur_len + n) }
  ok (
      rearm (record s {
        msg = some (length s.heap);
        heap = s.heap ++ record m { node = node } ∷ [];
        head_parsed = true;
      }))

-- All of it, and the node is posted.
unfoldable pub body_whole : Rx → RecvNode → ℕ → ℕ → Result Next
body_whole s m copy_len n = do
  buf ← append_bytes m.node s.recv_buf copy_len m.total_len
  ended ← write_at buf m.total_len (0 ∷ [])
  head ← clear s.head
  let node = record (m.node) { buf = ended; cur_len = short (m.cur_len + m.total_len) }
  ok (
      next_round
        (record s {
          msg = some (length s.heap);
          heap = s.heap ++ record m { node = node } ∷ [];
          posted = s.posted ++ length s.heap ∷ [];
          head_parsed = false;
          head = head;
        })
        (copy_len + m.total_len) (n - m.total_len))

unfoldable pub body_start : Rx → RecvNode → ℕ → ℕ → Result Next
body_start s m copy_len n =
    if ltb n m.total_len then body_part s m copy_len n else body_whole s m copy_len n

-- More of a body whose header came in an earlier read, and still not all: `_cur_len` stays.
unfoldable pub rest_part : Rx → ℕ → RecvNode → ℕ → ℕ → Result Next
rest_part s p m copy_len n = do
  buf ← append_bytes m.node s.recv_buf copy_len n
  ok (rearm (record s { heap = set s.heap p (record m { node = record (m.node) { buf = buf } }) }))

-- All that was missing: the node is posted and then cleared, and `copy_len` stays.
unfoldable pub rest_whole : Rx → ℕ → RecvNode → ℕ → ℕ → ℕ → Result Next
rest_whole s p m remain copy_len n = do
  buf ← append_bytes m.node s.recv_buf copy_len remain
  ended ← write_at buf m.total_len (0 ∷ [])
  head ← clear s.head
  cleared ← clear (record (m.node) { buf = ended; cur_len = short (m.cur_len + remain) })
  ok (
      next_round
        (record s {
          heap = set s.heap p (record m { node = cleared });
          posted = s.posted ++ p ∷ [];
          head_parsed = false;
          head = head;
        })
        copy_len (n - remain))

unfoldable pub body_rest : Rx → ℕ → ℕ → Result Next
body_rest s copy_len n = do
  (p, m) ← deref s
  remain ← count_sub m.total_len m.cur_len
  if ltb n remain then rest_part s p m copy_len n else rest_whole s p m remain copy_len n

module _ (o : ByteOrder) where
  open o use {network_to_host}

  -- The checks on the fields of a header, and the new node for the body.
  unfoldable pub accept_fields : Rx → ℕ → ℕ → ℕ → ℕ → Result Next
  accept_fields s msg_id data_len copy_len n =
      if short_gt msg_id max_length || short_gt data_len max_length
      then ok (leave closed s)
      else (make_recv data_len msg_id >>= λ m. body_start s m copy_len n)

  -- Both fields are read out of the header's buffer.
  unfoldable pub head_fields : Rx → ℕ → ℕ → Result Next
  unfolding accept_fields
  head_fields s copy_len n = do
    id ← read_at s.head.buf 0 head_id_len
    len ← read_at s.head.buf head_id_len head_data_len
    accept_fields s (network_to_host (load_short id)) (network_to_host (load_short len)) copy_len n

  unfoldable pub head_rest : Rx → ℕ → ℕ → Result Next
  head_rest s copy_len n = do
    remain ← count_sub head_total_len s.head.cur_len
    buf ← append_bytes s.head s.recv_buf copy_len remain
    head_fields (record s { head = record (s.head) { buf = buf } }) (copy_len + remain) (n - remain)

  -- One round of `while (bytes_transferred)`.
  unfoldable pub step : Rx → ℕ → ℕ → Result Next
  step s copy_len n =
      if s.head_parsed
      then body_rest s copy_len n
      else if ltb (n + s.head.cur_len) head_total_len
      then head_part s copy_len n
      else head_rest s copy_len n

  abbrev pub follow : (Rx → ℕ → ℕ → Result (Outcome × Rx)) → Next → Result (Outcome × Rx)
  follow rounds (leave out s) = ok (out, s)
  follow rounds (again s copy_len n) = rounds s copy_len n

  unfoldable pub loop : ℕ → Rx → ℕ → ℕ → Result (Outcome × Rx)
  loop zero s copy_len n = ok (exhausted, s)
  loop (suc fuel) s copy_len n =
      if n == 0 then ok (stalled, s) else (step s copy_len n >>= follow (loop fuel))

  -- `HandleRead`, with `failed` for an error code that is set.
  unfoldable pub handle_read : Bool → Rx → ℕ → Result (Outcome × Rx)
  handle_read true s n = ok (closed, s)
  handle_read false s n = loop (2 * n + 2) s 0 n

  -- A read that completes: the bytes stand at the start of `_data`.
  unfoldable pub receive : Rx → List ℕ → Result (Outcome × Rx)
  receive s bytes =
      handle_read false (record s { recv_buf = bytes ++ drop (length bytes) s.recv_buf })
        (length bytes)

  -- Reads that complete one after the other, until one of them begins no further read.
  unfoldable pub after_read : (Rx → Result (Outcome × Rx)) → Outcome × Rx → Result (Outcome × Rx)
  after_read next (reading, s) = next s
  after_read next (closed, s) = ok (closed, s)
  after_read next (stalled, s) = ok (stalled, s)
  after_read next (exhausted, s) = ok (exhausted, s)

  unfoldable pub receive_each : List (List ℕ) → Rx → Result (Outcome × Rx)
  receive_each [] s = ok (reading, s)
  receive_each (bytes ∷ reads) s = receive s bytes >>= after_read (receive_each reads)

-- A message as the logic thread takes it: `std::string(_data, _cur_len)` under its id.
abbrev pub message : RecvNode → ℕ × List ℕ
message m = (m.msg_id, take m.cur_len m.buf)

abbrev pub lookup_message : List RecvNode → ℕ → Option (ℕ × List ℕ)
lookup_message heap p = elim (get_elem? heap p) [ none ↦ none | some m ↦ some (message m) ]

-- What was posted, read through the pointers.
abbrev pub inbox : Rx → List (Option (ℕ × List ℕ))
inbox s = map (lookup_message s.heap) s.posted

abbrev pub idle_head : MsgNode
idle_head = record { buf = replicate 5 0; cur_len = 0; total_len = head_total_len }

-- The state that the constructor sets up, after `Start`.
abbrev pub start : Rx
start = record {
  recv_buf = replicate max_length 0;
  head = idle_head;
  msg = none;
  head_parsed = false;
  heap = [];
  posted = [];
}
