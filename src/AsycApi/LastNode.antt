-- ===== src/AsycApi/LastNode.antt =====
-- Network/asycApi/src/Session.cpp: `WriteToSocketErr` and `WriteCallbackErr`, which keep one pointer to
-- the node that is being sent.
pub mod Overlap
pub mod Single
use boost_net_programing.Base.{
  ℕ, ◌+◌, Option, none, some, List, [], ◌∷◌, ◌++◌, Result, ok, threw, underrun, fault, ◌>>=◌,
  if◌then◌else◌, ltb, take, min, length, get_elem?, set,
}
use boost_net_programing.AsycApi.Node.{Node, copy_node, rest_buffer}

-- `nodes` are the nodes allocated, and a pointer is an index into them. `ops` are the operations under
-- way, each with the node bound to its handler and the bytes in its buffer, and `wire` holds the bytes
-- that the socket has taken.
pub record LastWrites : Type 0 where
  pub nodes : List Node
  pub send_node : Option ℕ
  pub ops : List (ℕ × List ℕ)
  pub wire : List ℕ

unfoldable pub write_to_socket_err : List ℕ → LastWrites → LastWrites
unfolding copy_node
write_to_socket_err buf w = record w {
  nodes = w.nodes ++ copy_node buf ∷ [];
  send_node = some (length w.nodes);
  ops = w.ops ++ (length w.nodes, buf) ∷ [];
}

-- The node behind a pointer; a null pointer is dereferenced.
unfoldable pub deref_node : List Node → Option ℕ → Result Node
deref_node nodes none = fault
deref_node nodes (some i) = elim (get_elem? nodes i) [ none ↦ fault | some m ↦ ok m ]

-- The next write, of the rest of `*_send_node`, which is at index `j`.
unfoldable pub write_last : ℕ → ℕ → LastWrites → Node → Result LastWrites
unfolding rest_buffer
write_last n j w last = rest_buffer (record last { cur_len = last.cur_len + n }) >>= λ bytes.
    ok (record w {
      nodes = set w.nodes j (record last { cur_len = last.cur_len + n });
      ops = w.ops ++ (j, bytes) ∷ [];
    })

unfoldable pub write_send_node : ℕ → Option ℕ → LastWrites → Result LastWrites
unfolding write_last deref_node
write_send_node n none w = fault
write_send_node n (some j) w = deref_node w.nodes (some j) >>= write_last n j w

-- `WriteCallbackErr` with the node that was bound to it. It does not look at the error code.
unfoldable pub write_callback_err : ℕ → ℕ → LastWrites → Result LastWrites
unfolding write_send_node deref_node
write_callback_err n i w = deref_node w.nodes (some i) >>= λ m.
    (if ltb (n + m.cur_len) m.total_len then write_send_node n w.send_node w else ok w)

-- The first operation under way takes `n` bytes, or as many as there are.
unfoldable pub complete_err : List (ℕ × List ℕ) → ℕ → LastWrites → Result LastWrites
unfolding write_callback_err
complete_err [] n w = ok w
complete_err ((i, bytes) ∷ ops) n w =
    write_callback_err (min n (length bytes)) i
      (record w { ops = ops; wire = w.wire ++ take n bytes })

pub data Event : Type 0 where
  asks : List ℕ → Event
  completes : ℕ → Event

unfoldable pub step : Event → LastWrites → Result LastWrites
unfolding complete_err
step (asks buf) w = ok (write_to_socket_err buf w)
step (completes n) w = complete_err w.ops n w

unfoldable pub run : List Event → LastWrites → Result LastWrites
run [] w = ok w
run (e ∷ es) w = step e w >>= run es

abbrev pub nothing_sent : LastWrites
nothing_sent = record { nodes = []; send_node = none; ops = []; wire = [] }
