-- ===== src/AsyncServer/MsgNode/Wire.antt =====
-- `SendNode` of Network/asyncServer/src/MsgNode.cpp: the bytes that go on the wire.
use boost_net_programing.Base.{
  ℕ, ◌+◌, ◌≤◌, ◌≡◌, refl, ap, ◌∙◌, List, [], ◌∷◌, ◌++◌, ok, fault, false, if◌then◌else◌, arith,
  length, take, replicate, length-replicate, read_at, write_at, short, is_negative, store_short,
  take-all, le→leb, write_at_here, drop-replicate, take-append, >>=-ok,
}
use boost_net_programing.AsyncServer.MsgNode.{
  ByteOrder, SendNode, make_node, make_send, wire, frame,
}

-- The three copies into a buffer with room for the message, for an id that stands there as `raw_id`.
module _ (o : ByteOrder) (msg : List ℕ) (raw_id : ℕ) (small : length msg ≤ 32763) where
  open o use {host_to_network}

  abbrev pub total : ℕ
  total = length msg + 4

  abbrev pub id_bytes : List ℕ
  id_bytes = store_short raw_id

  abbrev pub len_bytes : List ℕ
  len_bytes = store_short (host_to_network (length msg))

  pub with_id :
      write_at (replicate (total + 1) 0) 0 id_bytes ≡ ok (id_bytes ++ replicate (length msg + 3) 0)
  with_id =
      write_at_here [] id_bytes (replicate (total + 1) 0)
        (omega (arith, length-replicate {A = ℕ} (total + 1) 0))
      ∙ ap (λ l. ok (id_bytes ++ l))
          (drop-replicate {A = ℕ} 2 (total + 1) 0 ∙ ap (λ k. replicate k 0) (omega arith))

  pub with_len :
      write_at (id_bytes ++ replicate (length msg + 3) 0) 2 len_bytes
      ≡ ok (id_bytes ++ (len_bytes ++ replicate (length msg + 1) 0))
  with_len =
      write_at_here id_bytes len_bytes (replicate (length msg + 3) 0)
        (omega (arith, length-replicate {A = ℕ} (length msg + 3) 0))
      ∙ ap (λ l. ok (id_bytes ++ (len_bytes ++ l)))
          (drop-replicate {A = ℕ} 2 (length msg + 3) 0 ∙ ap (λ k. replicate k 0) (omega arith))

  pub payload : read_at msg 0 (length msg) ≡ ok msg
  payload = rw (le→leb (0 + length msg) (length msg) (omega arith), take-all msg)

  pub whole :
      write_at (id_bytes ++ (len_bytes ++ replicate (length msg + 1) 0)) 4 msg
      ≡ ok ((id_bytes ++ (len_bytes ++ msg)) ++ 0 ∷ [])
  whole =
      write_at_here (id_bytes ++ len_bytes) msg (replicate (length msg + 1) 0)
        (omega (arith, length-replicate {A = ℕ} (length msg + 1) 0))
      ∙ ap (λ l. ok (id_bytes ++ (len_bytes ++ (msg ++ l))))
          (drop-replicate {A = ℕ} (length msg) (length msg + 1) 0
            ∙ ap (λ k. replicate k 0) {y = 1} (omega arith))

  pub unnegated : (if is_negative (length msg) then fault else read_at msg 0 (length msg)) ≡ ok msg
  unnegated = rw positive payload
    where
      positive : is_negative (length msg) ≡ false
      positive = ground arith

module _ (o : ByteOrder) (msg : List ℕ) (id : ℕ) (small : length msg ≤ 32763) where
  open o use {host_to_network}

  made :
      make_node (short (length msg + 4))
      ≡ ok (record {
        buf = replicate (length msg + 4 + 1) 0;
        cur_len = 0;
        total_len = length msg + 4;
      })
  unfolding make_node
  made = ground arith

  abbrev sent : SendNode
  sent = record {
    node = record { buf = frame o id msg ++ 0 ∷ []; cur_len = 0; total_len = length msg + 4 };
    msg_id = id;
  }

  make_send-ok : make_send o msg (length msg) id ≡ ok sent
  unfolding make_send
  make_send-ok = >>=-ok _ made (
      >>=-ok _ (with_id o msg (host_to_network id) small) (
        >>=-ok _ (with_len o msg (host_to_network id) small) (
          >>=-ok _ (unnegated o msg (host_to_network id) small)
            (>>=-ok _ (whole o msg (host_to_network id) small) refl))))

  -- A message of at most 32763 bytes goes out as its frame: the id, the length, both in network
  -- order, and the bytes.
  pub wire-make_send :
      (n : SendNode) × (make_send o msg (length msg) id ≡ ok n) × (wire o n ≡ frame o id msg)
  wire-make_send = (
    sent,
    make_send-ok,
    ap (λ k. take k (frame o id msg ++ 0 ∷ [])) {y = length (frame o id msg)} (omega arith)
        ∙ take-append (frame o id msg) (0 ∷ []),
  )
