-- ===== src/CoroutineServer/Nodes.antt =====
-- Network/coroutineServer/inc/MsgNode.h and src/MsgNode.cpp: the buffers, which have the fields of
-- those of Network/asyncServer.
use boost_net_programing.Base.{
  ℕ, ◌+◌, List, Result, ok, threw, fault, ◌>>=◌, if◌then◌else◌, replicate, read_at, write_at, short,
  is_negative, store_short,
}
use boost_net_programing.AsyncServer.MsgNode.{
  ByteOrder, MsgNode, RecvNode, SendNode, head_total_len, head_id_len,
}

-- `MsgNode(short)`: for a negative length, `new char[_total_len + 1](0)` has no room for its one
-- initializer and throws `std::bad_array_new_length`.
unfoldable pub new_node : ℕ → Result MsgNode
new_node max_len =
    if is_negative max_len
    then threw
    else ok (record { buf = replicate (max_len + 1) 0; cur_len = 0; total_len = max_len })

-- `MsgNode::Clear`: the whole array.
unfoldable pub clear_node : MsgNode → Result MsgNode
clear_node n = do
  buf ← write_at n.buf 0 (replicate (n.total_len + 1) 0)
  ok (record n { buf = buf; cur_len = 0 })

unfoldable pub new_recv : ℕ → ℕ → Result RecvNode
unfolding new_node
new_recv max_len msg_id = do n ← new_node max_len; ok (record { node = n; msg_id = msg_id })

module _ (o : ByteOrder) where
  -- `SendNode`: the id is converted into `msg_id_net`, but `msg_id` is what is copied.
  unfoldable pub new_send : List ℕ → ℕ → ℕ → Result SendNode
  unfolding new_node
  new_send msg max_len msg_id = do
    n ← new_node (short (max_len + head_total_len))
    let msg_id_net = o.host_to_network msg_id
    with_id ← write_at n.buf 0 (store_short msg_id)
    with_len ← write_at with_id head_id_len (store_short (o.host_to_network max_len))
    payload ← if is_negative max_len then fault else read_at msg 0 max_len
    whole ← write_at with_len head_total_len payload
    ok (record { node = record n { buf = whole }; msg_id = msg_id })
