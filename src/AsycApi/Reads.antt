-- ===== src/AsycApi/Reads.antt =====
-- Network/asycApi/src/Session.cpp: reading with `ReadFromSocket` and `ReadAllFromSocket`.
pub mod Bounds
use boost_net_programing.Base.{
  ℕ, ◌+◌, Bool, true, false, Option, none, some, List, [], ◌∷◌, ◌++◌, Result, ok, threw, underrun,
  fault, ◌>>=◌, if◌then◌else◌, ltb, take, drop, length, count_sub, write_at,
}
use boost_net_programing.AsycApi.Node.{Node, copy_node, blank_node, rest_buffer}

abbrev pub recv_size : ℕ
recv_size = 1024

pub data Handler : Type 0 where
  read_callback read_all_callback : Handler

-- `reads` are the operations under way: the handler, and how many bytes the buffer holds.
pub record Reads : Type 0 where
  pub recv_node : Option Node
  pub recv_pending : Bool
  pub reads : List (Handler × ℕ)

-- `async_read_some` and `async_receive` into the rest of the node.
unfoldable pub begin_read : Handler → Node → Reads → Result Reads
begin_read h m r = count_sub m.total_len m.cur_len >>= λ room.
    ok (record r { recv_node = some m; reads = r.reads ++ (h, room) ∷ [] })

unfoldable pub read_with : Handler → Reads → Result Reads
unfolding begin_read
read_with h r =
    if r.recv_pending
    then ok r
    else begin_read h (blank_node recv_size) (record r { recv_pending = true })

-- `ReadFromSocket` and `ReadAllFromSocket`.
unfoldable pub read_from_socket : Reads → Result Reads
unfolding read_with
read_from_socket r = read_with read_callback r

unfoldable pub read_all_from_socket : Reads → Result Reads
unfolding read_with
read_all_from_socket r = read_with read_all_callback r

-- The handlers, with the node that `_recv_node` points to. They do not look at the error code.
unfoldable pub handle_read : Handler → ℕ → Node → Reads → Result Reads
unfolding begin_read
handle_read read_callback n m r =
    if ltb (m.cur_len + n) m.total_len
    then begin_read read_callback (record m { cur_len = m.cur_len + n }) r
    else ok (record r { recv_pending = false; recv_node = none })
handle_read read_all_callback n m r = ok (record r { recv_node = none; recv_pending = false })

-- The socket writes the bytes that came into the node, and calls the handler.
unfoldable pub arrive : Handler → List ℕ → Option Node → Reads → Result Reads
unfolding handle_read
arrive h bytes none r = fault
arrive h bytes (some m) r = write_at m.msg m.cur_len bytes >>= λ msg.
    handle_read h (length bytes) (record m { msg = msg }) r

-- The first operation takes what fits of the bytes that are there; an error brings none.
unfoldable pub complete_read : List (Handler × ℕ) → List ℕ → Reads → Result Reads
unfolding arrive
complete_read [] bytes r = ok r
complete_read ((h, room) ∷ ops) bytes r =
    arrive h (take room bytes) r.recv_node (record r { reads = ops })

pub data Event : Type 0 where
  reads_some reads_all : Event
  brings : List ℕ → Event

unfoldable pub step : Event → Reads → Result Reads
unfolding read_from_socket read_all_from_socket complete_read
step reads_some r = read_from_socket r
step reads_all r = read_all_from_socket r
step (brings bytes) r = complete_read r.reads bytes r

unfoldable pub run : List Event → Reads → Result Reads
run [] r = ok r
run (e ∷ es) r = step e r >>= run es

abbrev pub not_reading : Reads
not_reading = record { recv_node = none; recv_pending = false; reads = [] }
