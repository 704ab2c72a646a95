-- ===== src/AsyncServer/Sending/Tests.antt =====
-- The theorems on the sending side of Network/asyncServer at concrete inputs.
use boost_net_programing.Base.{◌≤◌, ◌<◌, ◌≡◌, ◌⊎◌, refl, [], ◌∷◌, false, arith, ok, length}
use boost_net_programing.AsyncServer.MsgNode.{ByteOrder, SendNode, make_node, make_send}
use boost_net_programing.AsyncServer.Sending.{Tx, send, handle_write}
use boost_net_programing.AsyncServer.Sending.Order.{Keeps, send-Keeps, handle_write-Keeps}

-- A host of network byte order.
abbrev big_endian : ByteOrder
big_endian = record {
  network_to_host = λ v. v;
  host_to_network = λ v. v;
  to_host-to_network = λ v h. refl;
}

abbrev node : SendNode
node = record {
  node = record { buf = 233 ∷ 3 ∷ 1 ∷ 0 ∷ 104 ∷ 0 ∷ []; cur_len = 0; total_len = 5 };
  msg_id = 1001;
}

abbrev idle : Tx
idle = record { que = []; writes = []; writing = 0; cleared = false }

abbrev busy : Tx
busy = record { que = node ∷ node ∷ []; writes = node ∷ []; writing = 1; cleared = false }

send-Keeps_example :
    (u : Tx) × (send big_endian (104 ∷ []) 1 1001 idle ≡ ok u)
    × (((1000 < 0) × (u ≡ idle)) ⊎ ((length idle.que ≤ 1000) × Keeps idle (node ∷ []) u))
unfolding make_send make_node
send-Keeps_example =
    send-Keeps big_endian (104 ∷ []) 1 1001 idle
      (record { one_write = λ c. refl; at_most_one = omega arith; bounded = omega arith }) node refl

handle_write-Keeps_example : (u : Tx) × (handle_write false busy ≡ ok u) × Keeps busy [] u
handle_write-Keeps_example =
    handle_write-Keeps false busy
      (record { one_write = λ c. refl; at_most_one = omega arith; bounded = omega arith })
      (omega arith)
