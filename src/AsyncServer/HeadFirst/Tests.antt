-- ===== src/AsyncServer/HeadFirst/Tests.antt =====
-- `HandleReadHead` of Network/asyncServer at a concrete header, with shorts in host order.
use boost_net_programing.Base.{refl, arith, false, none, [], ◌∷◌}
use boost_net_programing.AsyncServer.MsgNode.{ByteOrder}
use boost_net_programing.AsyncServer.HeadFirst.{Turn, head_bytes, handle_read_head}
use boost_net_programing.AsyncServer.HeadFirst.Turns.{HeadSafe, handle_read_head-HeadSafe}

abbrev no_swap : ByteOrder
no_swap = record {
  network_to_host = λ v. v;
  host_to_network = λ v. v;
  to_host-to_network = λ v h. refl;
}

-- The id 3 and the length 2, least byte first.
abbrev first_header : Turn
first_header = record {
  head = record { buf = 3 ∷ 0 ∷ 2 ∷ 0 ∷ 0 ∷ []; cur_len = 0; total_len = 4 };
  msg = none;
  awaits = head_bytes;
  tx = record { que = []; writes = []; writing = 0; cleared = false };
  closed = false;
  cleared = false;
}

handle_read_head-HeadSafe_example : HeadSafe (handle_read_head no_swap false 4 first_header)
handle_read_head-HeadSafe_example =
    handle_read_head-HeadSafe no_swap false 4 first_header (omega arith)
