-- ===== src/AsyncServer/HeadFirst.antt =====
-- Network/asyncServer/src/CSession.cpp: `HandleReadHead` and `HandleReadMsg`, which read a header and
-- a body by turns. `Start` does not use them.
pub mod Turns
mod Tests
use boost_net_programing.Base.{
  ℕ, ◌+◌, Bool, true, false, Option, none, some, List, [], ◌∷◌, Result, ok, threw, underrun, fault,
  ◌>>=◌, if◌then◌else◌, ltb, write_at, read_at, short_gt, load_short,
}
use boost_net_programing.AsyncServer.MsgNode.{
  ByteOrder, MsgNode, RecvNode, max_length, head_total_len, head_id_len, head_data_len, clear,
  make_recv,
}
use boost_net_programing.AsyncServer.Sending.{Tx, send}

-- The read that is under way.
pub data Awaits : Type 0 where
  head_bytes msg_bytes no_bytes : Awaits

-- `msg` is `_recv_msg_node`, and `tx` the sending side.
pub record Turn : Type 0 where
  pub head : MsgNode
  pub msg : Option RecvNode
  pub awaits : Awaits
  pub tx : Tx
  pub closed : Bool
  pub cleared : Bool

-- `Close` and `ClearSession`.
unfoldable pub give_up : Turn → Turn
give_up s = record s { awaits = no_bytes; closed = true; cleared = true }

-- The check of the length, and the node for the body.
unfoldable pub begin_body : ℕ → ℕ → Turn → Result Turn
unfolding make_recv
begin_body msg_id data_len s =
    if short_gt data_len max_length
    then ok (record s { awaits = no_bytes; cleared = true })
    else (make_recv data_len msg_id >>= λ m. ok (record s { msg = some m; awaits = msg_bytes }))

module _ (o : ByteOrder) where
  -- Both handlers find the bytes in their buffer; `failed` says that the error code is set.
  unfoldable pub handle_read_head : Bool → ℕ → Turn → Result Turn
  unfolding give_up begin_body
  handle_read_head true n s = ok (give_up s)
  handle_read_head false n s =
      if ltb n head_total_len
      then ok (give_up s)
      else (read_at s.head.buf 0 head_id_len >>= λ id.
          read_at s.head.buf head_id_len head_data_len >>= λ len.
          begin_body (o.network_to_host (load_short id)) (o.network_to_host (load_short len)) s)

  -- The end of the body is marked, the body sent back, and the next header read.
  unfoldable pub send_back : Option RecvNode → Turn → Result Turn
  unfolding send clear
  send_back none s = fault
  send_back (some m) s = do
    buf ← write_at m.buf m.total_len (0 ∷ [])
    tx ← send o buf m.total_len m.msg_id s.tx
    head ← clear s.head
    ok (record s {
      msg = some (record m { node = record (m.node) { buf = buf } });
      tx = tx;
      head = head;
      awaits = head_bytes;
    })

  unfoldable pub handle_read_msg : Bool → ℕ → Turn → Result Turn
  unfolding give_up send_back
  handle_read_msg true n s = ok (give_up s)
  handle_read_msg false n s = send_back s.msg s
