-- ===== src/AsycApi/Node.antt =====
-- Network/asycApi/inc/Session.h: `MsgNode`, with lengths of type int that are not negative.
use boost_net_programing.Base.{ℕ, List, Result, ◌>>=◌, length, replicate, read_at, count_sub}

-- `msg` is the array behind `_msg`.
pub record Node : Type 0 where
  pub total_len : ℕ
  pub cur_len : ℕ
  pub msg : List ℕ

-- `MsgNode(const char*, int)`, which copies the bytes.
unfoldable pub copy_node : List ℕ → Node
copy_node bytes = record { total_len = length bytes; cur_len = 0; msg = bytes }

-- `MsgNode(int)`.
unfoldable pub blank_node : ℕ → Node
blank_node total_len = record { total_len = total_len; cur_len = 0; msg = replicate total_len 0 }

-- `buffer(_msg + _cur_len, _total_len - _cur_len)`.
unfoldable pub rest_buffer : Node → Result (List ℕ)
rest_buffer n = count_sub n.total_len n.cur_len >>= λ count. read_at n.msg n.cur_len count
