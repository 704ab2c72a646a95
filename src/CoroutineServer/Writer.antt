-- ===== src/CoroutineServer/Writer.antt =====
-- Network/coroutineServer/src/CSession.cpp: `Send` and `HandleWrite`. The lock is given back before
-- `async_write`; no other write begins in between, since the queue is not empty.
use boost_net_programing.Base.{
  ℕ, ◌+◌, ◌-◌, Bool, true, false, List, [], ◌∷◌, ◌++◌, Result, ok, fault, ◌>>=◌, if◌then◌else◌, ltb,
  length, short,
}
use boost_net_programing.AsyncServer.MsgNode.{ByteOrder, SendNode, max_sendque}
use boost_net_programing.CoroutineServer.Nodes.{new_send}

-- `writes` has the nodes given to `async_write`, of which `writing` are under way.
pub record Writer : Type 0 where
  pub send_que : List SendNode
  pub writes : List SendNode
  pub writing : ℕ
  pub closed : Bool
  pub cleared : Bool

unfoldable pub begin_write : SendNode → Writer → Writer
begin_write n w = record w { writes = w.writes ++ n ∷ []; writing = w.writing + 1 }

unfoldable pub push_node : List SendNode → SendNode → Writer → Writer
unfolding begin_write
push_node [] n w = begin_write n (record w { send_que = n ∷ [] })
push_node (front ∷ q) n w = record w { send_que = (front ∷ q) ++ n ∷ [] }

module _ (o : ByteOrder) where
  -- `Send(const char*, short, short)`.
  unfoldable pub send_message : List ℕ → ℕ → ℕ → Writer → Result Writer
  send_message msg msg_length msg_id w =
      if ltb max_sendque (length w.send_que)
      then ok w
      else (new_send o msg msg_length msg_id >>= λ n. ok (push_node w.send_que n w))

  -- `Send(std::string, short)`: the length becomes a short.
  unfoldable pub send_string : List ℕ → ℕ → Writer → Result Writer
  send_string msg msg_id = send_message msg (short (length msg)) msg_id

unfoldable pub write_front : List SendNode → Writer → Writer
unfolding begin_write
write_front [] w = record w { send_que = [] }
write_front (n ∷ q) w = begin_write n (record w { send_que = n ∷ q })

unfoldable pub pop_written : List SendNode → Writer → Result Writer
unfolding write_front
pop_written [] w = fault
pop_written (n ∷ q) w = ok (write_front q w)

-- `HandleWrite`, with `failed` for an error code that is set.
unfoldable pub written : Bool → Writer → Result Writer
unfolding pop_written
written true w = ok (record w { writing = w.writing - 1; closed = true; cleared = true })
written false w = pop_written w.send_que (record w { writing = w.writing - 1 })
