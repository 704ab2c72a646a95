-- ===== src/AsycApi/Writes.antt =====
-- Network/asycApi/src/Session.cpp: the two ways to write through the queue, `WriteToSocket` with
-- `WriteCallback` and `WriteAllToSocket` with `WriteAllCallback`.
pub mod Stream
pub mod Failure
pub mod Garbled
use boost_net_programing.Base.{
  ℕ, ◌+◌, Bool, true, false, List, [], ◌∷◌, ◌++◌, Result, ok, threw, underrun, fault, ◌>>=◌,
  if◌then◌else◌, ltb, take, min, length,
}
use boost_net_programing.AsycApi.Node.{Node, copy_node, rest_buffer}

-- The handler that an operation of the socket will call.
pub data Handler : Type 0 where
  write_callback write_all_callback : Handler

-- `ops` are the operations under way, each with the bytes in its buffer, and `wire` holds the bytes
-- that the socket has taken.
pub record Writes : Type 0 where
  pub send_queue : List Node
  pub send_pending : Bool
  pub ops : List (Handler × List ℕ)
  pub wire : List ℕ

-- `async_write_some` and `async_send`: either may take a part of the buffer.
unfoldable pub begin : Handler → List ℕ → Writes → Writes
begin h bytes w = record w { ops = w.ops ++ (h, bytes) ∷ [] }

-- The buffer of a first write is that of the parameter `buf`, which is gone when the operation reads
-- it; `freed` is what its memory then holds.
module _ (freed : List ℕ → List ℕ) where
  unfoldable pub write_to_socket : List ℕ → Writes → Writes
  unfolding begin copy_node
  write_to_socket buf w =
      if w.send_pending
      then (record w { send_queue = w.send_queue ++ copy_node buf ∷ [] })
      else begin write_callback (freed buf)
          (record w { send_queue = w.send_queue ++ copy_node buf ∷ []; send_pending = true })

  unfoldable pub write_all_to_socket : List ℕ → Writes → Writes
  unfolding begin copy_node
  write_all_to_socket buf w =
      if w.send_pending
      then (record w { send_queue = w.send_queue ++ copy_node buf ∷ [] })
      else begin write_all_callback (freed buf)
          (record w { send_queue = w.send_queue ++ copy_node buf ∷ []; send_pending = true })

-- Behind a `pop`: the next node, written under `WriteCallback` in both handlers.
unfoldable pub write_front : List Node → Writes → Result Writes
unfolding begin rest_buffer
write_front [] w = ok (record w { send_queue = []; send_pending = false })
write_front (d ∷ q) w =
    rest_buffer d >>= λ bytes. ok (begin write_callback bytes (record w { send_queue = d ∷ q }))

-- `WriteCallback` on the front of the queue.
unfoldable pub front_written : List Node → ℕ → Writes → Result Writes
unfolding begin rest_buffer write_front
front_written [] n w = fault
front_written (d ∷ q) n w =
    if ltb (d.cur_len + n) d.total_len
    then (rest_buffer (record d { cur_len = d.cur_len + n }) >>= λ bytes. ok (
        begin write_callback bytes
          (record w { send_queue = record d { cur_len = d.cur_len + n } ∷ q })))
    else write_front q w

-- `WriteAllCallback`, which pops without a look at `bytes_tranferred`.
unfoldable pub front_sent : List Node → Writes → Result Writes
unfolding write_front
front_sent [] w = fault
front_sent (d ∷ q) w = write_front q w

-- The two handlers, `failed` for an error code that is set.
unfoldable pub handle : Handler → Bool → ℕ → Writes → Result Writes
unfolding front_written front_sent
handle h true n w = ok w
handle write_callback false n w = front_written w.send_queue n w
handle write_all_callback false n w = front_sent w.send_queue w

-- What the socket does: the first operation takes `n` bytes, or as many as there are, or fails.
unfoldable pub complete : List (Handler × List ℕ) → Bool → ℕ → Writes → Result Writes
unfolding handle
complete [] failed n w = ok w
complete ((h, bytes) ∷ ops) true n w = handle h true 0 (record w { ops = ops })
complete ((h, bytes) ∷ ops) false n w =
    handle h false (min n (length bytes)) (record w { ops = ops; wire = w.wire ++ take n bytes })

-- A caller writes, by `WriteToSocket` or by `WriteAllToSocket`, or the operation under way completes.
pub data Event : Type 0 where
  asks : List ℕ → Event
  asks_all : List ℕ → Event
  completes : ℕ → Event
  fails : Event

unfoldable pub step : (List ℕ → List ℕ) → Event → Writes → Result Writes
unfolding complete
step freed (asks buf) w = ok (write_to_socket freed buf w)
step freed (asks_all buf) w = ok (write_all_to_socket freed buf w)
step freed (completes n) w = complete w.ops false n w
step freed fails w = complete w.ops true 0 w

unfoldable pub run : (List ℕ → List ℕ) → List Event → Writes → Result Writes
run freed [] w = ok w
run freed (e ∷ es) w = step freed e w >>= run freed es

abbrev pub idle : Writes
idle = record { send_queue = []; send_pending = false; ops = []; wire = [] }
