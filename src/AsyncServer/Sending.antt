-- ===== src/AsyncServer/Sending.antt =====
-- Network/asyncServer/src/CSession.cpp: `Send` and `HandleWrite`, the sending side of `CSession`.
pub mod Order
mod Tests
use boost_net_programing.Base.{
  ℕ, zero, suc, ◌+◌, ◌-◌, Bool, true, false, List, [], ◌∷◌, ◌++◌, if◌then◌else◌, ltb, length,
  Result, ok, threw, underrun, fault, ◌>>=◌, short,
}
use boost_net_programing.AsyncServer.MsgNode.{max_sendque, ByteOrder, SendNode, make_send}

-- `que` is `_send_que`. `writes` holds the nodes given to `async_write` so far, and `writing` how
-- many of those have not completed; `cleared` says that `ClearSession` was called.
pub record Tx : Type 0 where
  pub que : List SendNode
  pub writes : List SendNode
  pub writing : ℕ
  pub cleared : Bool

unfoldable pub async_write : SendNode → Tx → Tx
async_write n t = record t { writes = t.writes ++ n ∷ []; writing = t.writing + 1 }

-- `push`, and `async_write` of the front unless a write was pending.
unfoldable pub enqueue : List SendNode → SendNode → Tx → Tx
unfolding async_write
enqueue [] n t = async_write n (record t { que = n ∷ [] })
enqueue (front ∷ q) n t = record t { que = (front ∷ q) ++ n ∷ [] }

module _ (o : ByteOrder) where
  -- `Send(char*, int, short)`: `make_shared<SendNode>` takes the length as a short.
  unfoldable pub send : List ℕ → ℕ → ℕ → Tx → Result Tx
  send msg len msg_id t =
      if ltb max_sendque (length t.que)
      then ok t
      else (make_send o msg (short len) msg_id >>= λ n. ok (enqueue t.que n t))

-- The next write behind a `pop`.
unfoldable pub write_next : List SendNode → Tx → Tx
unfolding async_write
write_next [] t = record t { que = [] }
write_next (n ∷ q) t = async_write n (record t { que = n ∷ q })

unfoldable pub pop_front : List SendNode → Tx → Result Tx
unfolding write_next
pop_front [] t = fault
pop_front (n ∷ q) t = ok (write_next q t)

-- `HandleWrite`, called once for each write, with `failed` for an error code that is set.
unfoldable pub handle_write : Bool → Tx → Result Tx
unfolding pop_front
handle_write true t = ok (record t { writing = t.writing - 1; cleared = true })
handle_write false t = pop_front t.que (record t { writing = t.writing - 1 })
