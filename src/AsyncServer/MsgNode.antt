-- ===== src/AsyncServer/MsgNode.antt =====
-- Network/asyncServer/inc/Const.h, inc/MsgNode.h and src/MsgNode.cpp: message buffers.
pub mod Wire
use boost_net_programing.Base.{
  ℕ, ◌+◌, ◌*◌, ◌<◌, ◌≡◌, List, Result, ok, threw, underrun, fault, ◌>>=◌, if◌then◌else◌, ◌==◌,
  length, take, replicate, read_at, write_at, short, is_negative, store_short, ◌++◌,
}

-- The macros of Const.h.
abbrev pub max_length : ℕ
max_length = 1024 * 2

abbrev pub max_sendque : ℕ
max_sendque = 1000

abbrev pub head_total_len : ℕ
head_total_len = 4

abbrev pub head_id_len : ℕ
head_id_len = 2

abbrev pub head_data_len : ℕ
head_data_len = 2

-- `network_to_host_short` and `host_to_network_short` of boost::asio, on the bit patterns of
-- shorts. They undo one another, on a host of either byte order.
pub record ByteOrder : Type 0 where
  pub network_to_host : ℕ → ℕ
  pub host_to_network : ℕ → ℕ
  pub to_host-to_network : (v : ℕ) → v < 65536 → network_to_host (host_to_network v) ≡ v

-- `class MsgNode`: `buf` is the array behind `_data`; the two shorts are bit patterns.
pub record MsgNode : Type 0 where
  pub buf : List ℕ
  pub cur_len : ℕ
  pub total_len : ℕ

-- `class RecvNode` and `class SendNode`.
pub record RecvNode : Type 0 where
  pub node : MsgNode
  pub open node use *
  pub msg_id : ℕ

pub record SendNode : Type 0 where
  pub node : MsgNode
  pub open node use *
  pub msg_id : ℕ

-- `MsgNode(short)`. `new char[-1 + 1]` gives no byte for `_data[-1] = 0`; a size below that makes
-- `new` throw `std::bad_array_new_length`.
unfoldable pub make_node : ℕ → Result MsgNode
make_node total_len =
    if total_len == 65535
    then underrun
    else if is_negative total_len
    then threw
    else ok (record { buf = replicate (total_len + 1) 0; cur_len = 0; total_len = total_len })

-- `MsgNode::Clear`: `memset(_data, 0, _total_len)` leaves the byte behind the message.
unfoldable pub clear : MsgNode → Result MsgNode
clear n = do
  buf ← write_at n.buf 0 (replicate n.total_len 0)
  ok (record n { buf = buf; cur_len = 0 })

unfoldable pub make_recv : ℕ → ℕ → Result RecvNode
unfolding make_node
make_recv total_len msg_id = do n ← make_node total_len; ok (record { node = n; msg_id = msg_id })

module _ (o : ByteOrder) where
  open o use {host_to_network}

  -- `SendNode(msg, total_len, msg_id)`: a negative `total_len` is a huge count for `memcpy`.
  unfoldable pub make_send : List ℕ → ℕ → ℕ → Result SendNode
  unfolding make_node
  make_send msg total_len msg_id = do
    n ← make_node (short (total_len + head_total_len))
    with_id ← write_at n.buf 0 (store_short (host_to_network msg_id))
    with_len ← write_at with_id head_id_len (store_short (host_to_network total_len))
    payload ← if is_negative total_len then fault else read_at msg 0 total_len
    whole ← write_at with_len head_total_len payload
    ok (record { node = record n { buf = whole }; msg_id = msg_id })

  -- What `async_write` is given: the first `_total_len` bytes.
  abbrev pub wire : SendNode → List ℕ
  wire n = take n.total_len n.buf

  -- The frame of a message: type, length, value.
  abbrev pub frame : ℕ → List ℕ → List ℕ
  frame id body =
      store_short (host_to_network id) ++ (store_short (host_to_network (length body)) ++ body)
