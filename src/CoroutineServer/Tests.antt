-- ===== src/CoroutineServer/Tests.antt =====
-- Network/coroutineServer at concrete inputs, on a little-endian host.
use boost_net_programing.Base.{
  ℕ, ◌*◌, ◌+◌, ◌/◌, ◌%◌, ◌<◌, ◌≤◌, ◌≡◌, refl, false, some, List, [], ◌∷◌, ok, take, short_gt,
  length, arith,
}
use boost_net_programing.AsyncServer.MsgNode.{ByteOrder, SendNode, max_length}
use boost_net_programing.AsyncServer.Server.{Connection}
use boost_net_programing.CoroutineServer.Reader.{Reader, serve}
use boost_net_programing.CoroutineServer.Reader.Ending.{Ended, serve-Ended}
use boost_net_programing.CoroutineServer.Reader.Messages.{Reads, received}
use boost_net_programing.CoroutineServer.RoundTrip.{written, serve-written, serve-new_send}
use boost_net_programing.CoroutineServer.Nodes.{new_send}
use boost_net_programing.CoroutineServer.Accept.{CoServer, accept_done, session_ends, co_run}
use boost_net_programing.CoroutineServer.Accept.Once.{spawned-co_run-le}

unfoldable swap : ℕ → ℕ
swap v = v % 256 * 256 + v / 256

swap-swap : (v : ℕ) → v < 65536 → swap (swap v) ≡ v
unfolding swap
swap-swap v h = omega arith

abbrev little_endian : ByteOrder
little_endian = record {
  network_to_host = swap;
  host_to_network = swap;
  to_host-to_network = swap-swap;
}

-- One message of two bytes with the id 3, then a header and no body.
abbrev new_session : Reader
new_session = record {
  stream = 0 ∷ 3 ∷ 0 ∷ 2 ∷ 65 ∷ 66 ∷ 0 ∷ 3 ∷ 0 ∷ 9 ∷ [];
  head = record { buf = 0 ∷ 0 ∷ 0 ∷ 0 ∷ 0 ∷ []; cur_len = 0; total_len = 4 };
  posts = [];
  closed = false;
  cleared = false;
}

serve-Ended_example : Ended (serve little_endian 11 new_session)
serve-Ended_example =
    serve-Ended little_endian 11 new_session (record { total = refl; size = refl }) (omega arith)

abbrev two_messages : List (ℕ × List ℕ)
two_messages = (3, 65 ∷ 66 ∷ []) ∷ (1001, 7 ∷ []) ∷ []

serve-written_example :
    (bytes : List ℕ) × (written little_endian two_messages ≡ ok bytes)
    × Reads little_endian 3
        (record new_session { stream = bytes })
        (received 3 (65 ∷ 66 ∷ []) ∷ received 1001 (7 ∷ []) ∷ [])
serve-written_example =
    serve-written little_endian two_messages new_session
      ((omega arith, omega arith, omega arith), ((omega arith, omega arith, omega arith), tt))
      (record { total = refl; size = refl })

id_passes : short_gt (swap 768) max_length ≡ false
unfolding swap
id_passes = refl

-- The id 768 comes back as 3.
serve-new_send_example :
    (n : SendNode) × (new_send little_endian (5 ∷ []) 1 768 ≡ ok n)
    × Reads little_endian 2
        (record new_session { stream = take n.total_len n.buf })
        (received (swap 768) (5 ∷ []) ∷ [])
serve-new_send_example =
    serve-new_send little_endian (5 ∷ []) 768 (omega arith) new_session id_passes (omega arith)
      (record { total = refl; size = refl })

abbrev client : Connection
client = record { uuid = 7; io_service = 0 }

abbrev listening : CoServer
listening = record {
  pool = record { io_services = 2; next_io_service = 1 };
  sessions = [];
  accepting = some client;
  spawned = [];
}

spawned-co_run-le_example :
    length (co_run (accept_done false ∷ session_ends 7 ∷ accept_done false ∷ []) listening).spawned
    ≤ 1
spawned-co_run-le_example =
    spawned-co_run-le (accept_done false ∷ session_ends 7 ∷ accept_done false ∷ []) listening
