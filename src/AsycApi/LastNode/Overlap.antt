-- ===== src/AsycApi/LastNode/Overlap.antt =====
-- Two writes at a time with `WriteToSocketErr` of Network/asycApi/src/Session.cpp.
use boost_net_programing.Base.{
  ℕ, ◌+◌, ◌-◌, ◌≤◌, ◌<◌, ◌≡◌, refl, some, List, [], ◌∷◌, ok, lt→ltb, le→leb, take_past, length-drop,
  take, drop, min, length, arith,
}
use boost_net_programing.AsycApi.Node.{copy_node}
use boost_net_programing.AsycApi.LastNode.{
  write_to_socket_err, deref_node, write_last, write_send_node, write_callback_err, complete_err,
  asks, completes, step, run, nothing_sent,
}

-- When a second message is written while the first is under way, and of the first the socket takes a
-- part only, which is no longer than the second, then the rest of the first is in no operation that
-- is under way; the two that are under way hold the second message, and the end of it once more.
pub run-overlap :
    (a b : List ℕ) (n : ℕ)
    → n < length a
    → n ≤ length b
    → run (asks a ∷ asks b ∷ completes n ∷ []) nothing_sent
      ≡ ok (record {
        nodes = copy_node a ∷ record (copy_node b) { cur_len = n } ∷ [];
        send_node = some 1;
        ops = (1, b) ∷ (1, drop n b) ∷ [];
        wire = take n a;
      })
unfolding run step write_to_socket_err complete_err write_callback_err write_send_node write_last
    deref_node copy_node
run-overlap a b n h k =
    let m : min n (length a) ≡ n = omega (arith, h) in
    let z : 0 + n ≡ n = omega arith in
    let all : n + (length b - n) ≤ length b = omega (arith, k) in
    let end : length (drop n b) ≤ length b - n = omega (arith, length-drop n b) in
    rw
      (
        m,
        lt→ltb (n + 0) (length a) (omega (arith, h)),
        z,
        le→leb n (length b) k,
        le→leb (n + (length b - n)) (length b) all,
        take_past (length b - n) (drop n b) end,
      )
      refl
