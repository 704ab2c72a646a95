-- ===== src/AsyncServer/Session/Tests.antt =====
-- Runs of the session's code of Network/asyncServer, and the theorems at concrete inputs.
use boost_net_programing.Base.{
  ℕ, ◌+◌, ◌*◌, ◌/◌, ◌%◌, ◌<◌, ◌≡◌, refl, List, [], ◌∷◌, ◌++◌, true, some, arith, ok, threw,
  underrun,
}
use boost_net_programing.AsyncServer.MsgNode.{
  ByteOrder, RecvNode, SendNode, make_send, make_node, clear, make_recv, wire,
}
use boost_net_programing.AsyncServer.MsgNode.Wire.{wire-make_send}
use boost_net_programing.AsyncServer.Session.{
  Rx, reading, rearm, deref, next_round, append_bytes, head_part, body_part, body_whole, body_start,
  rest_part, rest_whole, body_rest, accept_fields, head_fields, head_rest, step, loop, handle_read,
  receive, receive_each, lookup_message, inbox, start,
}
use boost_net_programing.AsyncServer.Session.Bodies.{Holds}
use boost_net_programing.AsyncServer.Session.Stream.{wires, receive-frames}
use boost_net_programing.AsyncServer.Session.Validity.{IsValid, CallSafe, IsFilling}
use boost_net_programing.AsyncServer.Session.Safety.{receive-safe}
use boost_net_programing.AsyncServer.Session.Late.{receive-late_body, receive_each-Waits, Waits}

swap : ℕ → ℕ
swap v = v % 256 * 256 + v / 256

swap-swap : (v : ℕ) → v < 65536 → swap (swap v) ≡ v
unfolding swap
swap-swap v h = omega arith

-- A little-endian host.
abbrev little_endian : ByteOrder
little_endian = record {
  network_to_host = swap;
  host_to_network = swap;
  to_host-to_network = swap-swap;
}

-- Names all that a run computes with.
session_code : Unit {0}
unfolding swap rearm deref next_round append_bytes head_part body_part body_whole body_start
    rest_part rest_whole body_rest accept_fields head_fields head_rest step loop handle_read receive
    make_node clear make_recv make_send
session_code = tt

abbrev greetings : List (ℕ × List ℕ)
greetings = (1001, 104 ∷ 105 ∷ []) ∷ (7, []) ∷ []

-- Two frames and the start of a third header.
abbrev chunk : List ℕ
chunk = 3 ∷ 233 ∷ 0 ∷ 2 ∷ 104 ∷ 105 ∷ 0 ∷ 7 ∷ 0 ∷ 0 ∷ 3 ∷ []

chunk-wires : wires little_endian greetings ++ 3 ∷ [] ≡ chunk
unfolding swap
chunk-wires = refl

-- A length of -1 writes before its buffer, and one of -2 throws.
receive-negative :
    (receive little_endian start (3 ∷ 233 ∷ 255 ∷ 255 ∷ []) ≡ underrun)
    × (receive little_endian start (3 ∷ 233 ∷ 255 ∷ 254 ∷ []) ≡ threw)
unfolding session_code
receive-negative = (refl, refl)

receive-frames_example :
    (s' : Rx) × (receive little_endian start chunk ≡ ok (reading, s'))
    × Holds s' (3 ∷ [])
    × (inbox s' ≡ some (1001, 104 ∷ 105 ∷ []) ∷ some (7, []) ∷ [])
unfolding swap
receive-frames_example =
    receive-frames little_endian greetings start [] chunk (3 ∷ [])
      (record { head_held = refl; not_parsed = refl; in_heap = tt }) (omega arith) (omega arith)
      (
        record { id_fits = omega arith; body_fits = omega arith },
        (record { id_fits = omega arith; body_fits = omega arith }, tt),
      )
      refl (omega arith)

start-IsValid : IsValid start
start-IsValid = record {
  recv_len = refl;
  head_len = refl;
  head_total = refl;
  head_cur = omega arith;
  filling = λ q. cc;
}

receive-safe_example : CallSafe (receive little_endian start (3 ∷ 233 ∷ 255 ∷ 255 ∷ []))
receive-safe_example =
    receive-safe little_endian start (3 ∷ 233 ∷ 255 ∷ 255 ∷ []) start-IsValid (omega arith)

-- One byte of a body of three has come.
abbrev begun_node : RecvNode
begun_node = record {
  node = record { buf = 104 ∷ 0 ∷ 0 ∷ 0 ∷ []; cur_len = 1; total_len = 3 };
  msg_id = 1001;
}

abbrev begun : Rx
begun = record start { msg = some 0; head_parsed = true; heap = begun_node ∷ [] }

begun-IsFilling : IsFilling begun_node
begun-IsFilling = record { begun = omega arith; total_fits = omega arith; buf_len = refl }

receive-late_body_example :
    (t : Rx) × (receive little_endian begun (105 ∷ 33 ∷ []) ≡ ok (reading, t))
    × (t.posted ≡ 0 ∷ [])
    × (lookup_message t.heap 0 ≡ some (1001, []))
receive-late_body_example =
    receive-late_body little_endian begun 0 begun_node (105 ∷ 33 ∷ []) refl refl refl
      begun-IsFilling (omega arith) (omega arith) (omega arith)

-- Two reads of a byte each, which are together what is missing.
receive_each-Waits_example :
    (t : Rx) × (receive_each little_endian ((105 ∷ []) ∷ (33 ∷ []) ∷ []) begun ≡ ok (reading, t))
    × (t.posted ≡ [])
    × Waits t 0 begun_node.cur_len begun_node.total_len
receive_each-Waits_example =
    receive_each-Waits little_endian ((105 ∷ []) ∷ (33 ∷ []) ∷ []) begun 0 begun_node.cur_len
      begun_node.total_len
      (record {
        parsed = refl;
        points = refl;
        node = begun_node;
        at = refl;
        filling = begun-IsFilling;
        cur_is = refl;
        total_is = refl;
      })
      ((omega arith, omega arith), ((omega arith, omega arith), tt))

wire-make_send_example :
    (n : SendNode) × (make_send little_endian (104 ∷ 105 ∷ []) 2 1001 ≡ ok n)
    × (wire little_endian n ≡ 3 ∷ 233 ∷ 0 ∷ 2 ∷ 104 ∷ 105 ∷ [])
unfolding swap
wire-make_send_example = wire-make_send little_endian (104 ∷ 105 ∷ []) 1001 (omega arith)
