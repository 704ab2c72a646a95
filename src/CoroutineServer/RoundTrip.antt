-- ===== src/CoroutineServer/RoundTrip.antt =====
-- The nodes of Network/asyncServer/src/MsgNode.cpp and Network/coroutineServer/src/MsgNode.cpp, written
-- to a stream that the coroutine of Network/coroutineServer/src/CSession.cpp reads.
use boost_net_programing.Base.{
  ℕ, suc, ◌+◌, ◌≤◌, ◌<◌, ◌≡◌, refl, sym, ap, ◌∙◌, subst, false, List, [], ◌∷◌, ◌++◌, Result, ok,
  ◌>>=◌, >>=-ok, length, take, replicate, take-append, short, short_gt, append-nil, map, All, arith,
}
use boost_net_programing.AsyncServer.MsgNode.{
  ByteOrder, RecvNode, SendNode, max_length, make_send, wire,
}
use boost_net_programing.AsyncServer.MsgNode.Wire.{
  wire-make_send, with_id, with_len, unnegated, whole,
}
use boost_net_programing.CoroutineServer.Nodes.{new_node, new_send}
use boost_net_programing.CoroutineServer.Reader.{Reader}
use boost_net_programing.CoroutineServer.Reader.Ending.{HeadIsValid}
use boost_net_programing.CoroutineServer.Reader.Messages.{
  clear_node-head, packet, packets, Passes, Reads, received, read_node, serve-reads,
}

-- An id of at most MAX_LENGTH, and a body of at least one byte and at most MAX_LENGTH.
abbrev pub Fits : ℕ × List ℕ → Type 0
Fits (id, body) = (id ≤ 2048) × (0 < length body) × (length body ≤ 2048)

module _ (o : ByteOrder) where
  open o use {host_to_network, network_to_host, to_host-to_network}

  -- The bytes of messages that are sent one after the other: as Network/asyncServer builds them.
  abbrev pub written : List (ℕ × List ℕ) → Result (List ℕ)
  written [] = ok []
  written ((id, body) ∷ ms) = do
    n ← make_send o body (length body) id
    rest ← written ms
    ok (wire o n ++ rest)

  abbrev on_wire : ℕ × List ℕ → ℕ × List ℕ
  on_wire m = (host_to_network m.0, m.1)

  abbrev pub sent_node : ℕ × List ℕ → RecvNode
  sent_node (id, body) = received id body

  written-packets :
      (ms : List (ℕ × List ℕ)) → All Fits ms → written ms ≡ ok (packets o (map on_wire ms))
  written-packets [] f = refl
  written-packets ((id, body) ∷ ms) ((i, pos, small), f) =
      let (n, e, w) = wire-make_send o body id (omega (arith, small)) in
      >>=-ok _ e
        (>>=-ok _ (written-packets ms f) (ap (λ l. ok (l ++ packets o (map on_wire ms))) w))

  Passes-on_wire : (ms : List (ℕ × List ℕ)) → All Fits ms → All (Passes o) (map on_wire ms)
  Passes-on_wire [] f = tt
  Passes-on_wire ((id, body) ∷ ms) ((i, pos, small), f) = (
    (rw (to_host-to_network id (omega (arith, i))) (ground arith), pos, small),
    Passes-on_wire ms f,
  )

  read_node-on_wire :
      (ms : List (ℕ × List ℕ)) → All Fits ms → map (read_node o) (map on_wire ms) ≡ map sent_node ms
  read_node-on_wire [] f = refl
  read_node-on_wire ((id, body) ∷ ms) ((i, pos, small), f) =
      rw (to_host-to_network id (omega (arith, i)), read_node-on_wire ms f) refl

  length-map :
      (f : ℕ × List ℕ → ℕ × List ℕ) (ms : List (ℕ × List ℕ)) → length (map f ms) ≡ length ms
  length-map f [] = refl
  length-map f (m ∷ ms) = ap suc (length-map f ms)

  -- Messages that Network/asyncServer builds with `SendNode`, each with an id of at most MAX_LENGTH and
  -- a body of at least one byte and at most MAX_LENGTH, and sends one after the other: the nodes are
  -- built, and when their bytes are the stream of a session of Network/coroutineServer, its coroutine
  -- posts the messages, in order, each with its id and its whole body, and ends with the session closed.
  pub serve-written :
      (ms : List (ℕ × List ℕ)) (s : Reader)
      → All Fits ms
      → HeadIsValid s
      → (bytes : List ℕ) × (written ms ≡ ok bytes)
        × Reads o (suc (length ms)) (record s { stream = bytes }) (s.posts ++ map sent_node ms)
  serve-written ms s f v = (
    packets o (map on_wire ms),
    written-packets ms f,
    subst
        (λ k.
          Reads o (suc k) (record s { stream = packets o (map on_wire ms) })
            (s.posts ++ map sent_node ms))
        (length-map on_wire ms)
        (subst
          (λ l.
            Reads o (suc (length (map on_wire ms)))
              (record s { stream = packets o (map on_wire ms) }) (s.posts ++ l))
          (read_node-on_wire ms f)
          (serve-reads o (map on_wire ms) (record s { stream = packets o (map on_wire ms) })
            (Passes-on_wire ms f) (clear_node-head s.head v.total v.size) refl)),
  )

  module _ (msg : List ℕ) (id : ℕ) (small : length msg ≤ 2048) where
    abbrev sent : SendNode
    sent = record {
      node = record { buf = packet o (id, msg) ++ 0 ∷ []; cur_len = 0; total_len = length msg + 4 };
      msg_id = id;
    }

    made :
        new_node (short (length msg + 4))
        ≡ ok (record {
          buf = replicate (length msg + 4 + 1) 0;
          cur_len = 0;
          total_len = length msg + 4;
        })
    unfolding new_node
    made = ground arith

    new_send-sent : new_send o msg (length msg) id ≡ ok sent
    unfolding new_send
    new_send-sent =
        let fits : length msg ≤ 32763 = omega (arith, small) in
        >>=-ok _ made (
          >>=-ok _ (with_id o msg id fits) (
            >>=-ok _ (with_len o msg id fits)
              (>>=-ok _ (unnegated o msg id fits) (>>=-ok _ (whole o msg id fits) refl))))

    sent-packet : take (length msg + 4) (packet o (id, msg) ++ 0 ∷ []) ≡ packet o (id, msg) ++ []
    sent-packet =
        ap (λ k. take k (packet o (id, msg) ++ 0 ∷ [])) {y = length (packet o (id, msg))}
          (omega arith)
        ∙ take-append (packet o (id, msg)) (0 ∷ [])
        ∙ sym (append-nil (packet o (id, msg)))

    -- A message that `SendNode` of Network/coroutineServer builds and its own coroutine reads, with a
    -- body of at least one byte and at most MAX_LENGTH, and an id that passes the reader's check: the
    -- body comes back whole, but the id comes back as what `network_to_host_short` makes of it, since
    -- it was not converted when it was written.
    pub serve-new_send :
        (s : Reader)
        → short_gt (network_to_host id) max_length ≡ false
        → 0 < length msg
        → HeadIsValid s
        → (n : SendNode) × (new_send o msg (length msg) id ≡ ok n)
          × Reads o 2
              (record s { stream = take n.total_len n.buf })
              (s.posts ++ received (network_to_host id) msg ∷ [])
    serve-new_send s p pos v = (
      sent,
      new_send-sent,
      serve-reads o ((id, msg) ∷ [])
          (record s { stream = take (length msg + 4) (packet o (id, msg) ++ 0 ∷ []) })
          ((p, pos, small), tt) (clear_node-head s.head v.total v.size) sent-packet,
    )
