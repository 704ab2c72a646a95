-- ===== src/CoroutineServer/Reader.antt =====
-- Network/coroutineServer/src/CSession.cpp: the coroutine that `Start` spawns.
pub mod Ending
pub mod Messages
use boost_net_programing.Base.{
  ℕ, zero, suc, ◌+◌, ◌-◌, Bool, true, false, List, [], ◌∷◌, ◌++◌, Result, ok, threw, underrun,
  fault, ◌>>=◌, if◌then◌else◌, ◌==◌, ltb, length, take, drop, read_at, write_at, short_gt,
  load_short,
}
use boost_net_programing.AsyncServer.MsgNode.{
  ByteOrder, MsgNode, RecvNode, max_length, head_total_len,
}
use boost_net_programing.CoroutineServer.Nodes.{new_node, clear_node, new_recv}

-- `stream` is what the peer will send before it closes. `posts` holds the nodes given to the logic
-- system, which the session does not touch again; `cleared` says that `ClearSession` was called.
pub record Reader : Type 0 where
  pub stream : List ℕ
  pub head : MsgNode
  pub posts : List RecvNode
  pub closed : Bool
  pub cleared : Bool

-- A round of the loop goes on or ends the coroutine.
pub data Round : Type 0 where
  goes_on : Reader → Round
  returns : Reader → Round

-- `Close` and `ClearSession`.
unfoldable pub close : Reader → Reader
close s = record s { closed = true; cleared = true }

-- `co_await async_read` of `n` bytes into the front of a buffer: all of them, with `n` as the value,
-- or an exception if the stream ends before.
unfoldable pub async_read : ℕ → List ℕ → Reader → Result (List ℕ × Reader)
async_read n buf s =
    if ltb (length s.stream) n
    then threw
    else (write_at buf 0 (take n s.stream) >>= λ filled.
        ok (filled, record s { stream = drop n s.stream }))

-- The end of a round: a body of no bytes is `n == 0`; else its end is marked, and the node posted.
unfoldable pub end_body : RecvNode → List ℕ → Reader → Result Round
unfolding close
end_body m buf s =
    if m.total_len == 0
    then ok (returns (close s))
    else (write_at buf m.total_len (0 ∷ []) >>= λ ended. ok (
        goes_on (record s {
          posts = s.posts ++ record m { node = record (m.node) { buf = ended } } ∷ [];
        })))

-- The read of the body, behind `make_shared<RecvNode>`.
unfoldable pub read_body : RecvNode → Reader → Result Round
read_body m s = do (buf, s') ← async_read m.total_len m.buf s; end_body m buf s'

-- What a round comes to: an exception is caught, closes the session and ends the coroutine.
unfoldable pub caught : Reader → Result Round → Result Round
unfolding close
caught s (ok r) = ok r
caught s threw = ok (returns (close s))
caught s underrun = underrun
caught s fault = fault

unfoldable pub after_round : (Reader → Result Round) → Round → Result Round
after_round rounds (goes_on s) = rounds s
after_round rounds (returns s) = ok (returns s)

-- The checks on the fields of a header, and the node for the body.
unfoldable pub accept_head : ℕ → ℕ → Reader → Result Round
unfolding close read_body new_recv
accept_head msg_id msg_length s =
    if short_gt msg_id max_length
    then ok (returns (close s))
    else if short_gt msg_length max_length
    then ok (returns (close s))
    else (new_recv msg_length msg_id >>= λ m. read_body m s)

module _ (o : ByteOrder) where
  -- The two fields of a header, read out of its buffer.
  unfoldable pub parse_head : Reader → Result Round
  unfolding accept_head
  parse_head s = do
    id ← read_at s.head.buf 0 2
    len ← read_at s.head.buf 2 2
    accept_head (o.network_to_host (load_short id)) (o.network_to_host (load_short len)) s

  -- One round. The read of the header gives HEAD_TOTAL bytes, so that `n == 0` does not occur.
  unfoldable pub read_message : Reader → Result Round
  unfolding clear_node async_read parse_head
  read_message s = do
    cleared ← clear_node s.head
    (buf, s') ← async_read head_total_len cleared.buf s
    parse_head (record s' { head = record cleared { buf = buf } })

  -- The loop `for (;; _b_close)`, which has no condition. Out of fuel it is still going on.
  unfoldable pub serve : ℕ → Reader → Result Round
  serve zero s = ok (goes_on s)
  serve (suc fuel) s = caught s (read_message s) >>= after_round (serve fuel)
