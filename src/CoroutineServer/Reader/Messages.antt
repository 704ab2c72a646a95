-- ===== src/CoroutineServer/Reader/Messages.antt =====
-- The messages that the coroutine of Network/coroutineServer/src/CSession.cpp takes from its stream.
use boost_net_programing.Base.{
  ℕ, suc, ◌+◌, ◌-◌, ◌≤◌, ◌<◌, ◌≡◌, refl, sym, ◌∙◌, true, false, List, [], ◌∷◌, ◌++◌, ok, threw,
  >>=-ok, ◌==◌, le→ltb, leb, length, length-append, length-replicate, drop, replicate,
  drop-replicate, drop-append, take-append, drop_past, write_at_here, short_gt, store_short,
  load_short, load_short-store_short, append_assoc, append-nil, map, All, arith,
}
use boost_net_programing.AsyncServer.MsgNode.{ByteOrder, MsgNode, RecvNode, max_length}
use boost_net_programing.CoroutineServer.Nodes.{new_node, clear_node, new_recv}
use boost_net_programing.CoroutineServer.Reader.{
  Reader, goes_on, returns, close, async_read, end_body, read_body, accept_head, parse_head,
  read_message, caught, after_round, serve,
}

abbrev pub clean_head : MsgNode
clean_head = record { buf = replicate 5 0; cur_len = 0; total_len = 4 }

pub clear_node-head :
    (n : MsgNode) → n.total_len ≡ 4 → length n.buf ≡ 5 → clear_node n ≡ ok clean_head
unfolding clear_node
clear_node-head n t h =
    let d : drop 5 n.buf ≡ [] = drop_past 5 n.buf (omega (arith, h)) in rw (t, h, d) refl

-- A node of the logic system: the body, its end, and the id.
abbrev pub received : ℕ → List ℕ → RecvNode
received id body = record {
  node = record { buf = body ++ 0 ∷ []; cur_len = 0; total_len = length body };
  msg_id = id;
}

abbrev fresh : ℕ → ℕ → RecvNode
fresh id len = record {
  node = record { buf = replicate (len + 1) 0; cur_len = 0; total_len = len };
  msg_id = id;
}

new_recv-fresh : (len id : ℕ) → len ≤ 2048 → new_recv len id ≡ ok (fresh id len)
unfolding new_recv new_node
new_recv-fresh len id h = ground arith

async_read-here :
    (xs rest zs : List ℕ) (s : Reader)
    → s.stream ≡ xs ++ rest
    → length xs ≤ length zs
    → async_read (length xs) zs s ≡ ok (xs ++ drop (length xs) zs, record s { stream = rest })
unfolding async_read
async_read-here xs rest zs s e h =
    rw
      (
        e,
        le→ltb (length (xs ++ rest)) (length xs) (omega (arith, length-append xs rest)),
        take-append xs rest,
        write_at_here [] xs zs h,
        drop-append xs rest,
      )
      refl

read_body-here :
    (id : ℕ) (body rest : List ℕ) (s : Reader)
    → s.stream ≡ body ++ rest
    → 0 < length body
    → read_body (fresh id (length body)) s
      ≡ ok (goes_on (record s { stream = rest; posts = s.posts ++ received id body ∷ [] }))
unfolding read_body end_body
read_body-here id body rest s e pos =
    rw
      (
        async_read-here body rest (replicate (length body + 1) 0) s e
            (omega (arith, length-replicate {A = ℕ} (length body + 1) 0)),
        drop-replicate {A = ℕ} (length body) (length body + 1) 0,
        one,
        some_bytes,
        write_at_here body (0 ∷ []) (0 ∷ []) (omega arith),
      )
      refl
  where
    one : length body + 1 - length body ≡ 1
    one = omega arith

    some_bytes : (length body == 0) ≡ false
    some_bytes = ground arith

module _ (o : ByteOrder) where
  open o use {network_to_host, host_to_network, to_host-to_network}

  -- The four bytes of a header, with the id as it stands on the wire, and a message behind its header.
  abbrev pub head_bytes : ℕ → ℕ → List ℕ
  head_bytes raw_id len = store_short raw_id ++ store_short (host_to_network len)

  abbrev pub packet : ℕ × List ℕ → List ℕ
  packet (raw_id, body) =
      store_short raw_id ++ (store_short (host_to_network (length body)) ++ body)

  abbrev pub packets : List (ℕ × List ℕ) → List ℕ
  packets [] = []
  packets (m ∷ ms) = packet m ++ packets ms

  -- The id passes the check, and the body has at least one byte and at most MAX_LENGTH.
  abbrev pub Passes : ℕ × List ℕ → Type 0
  Passes (raw_id, body) =
      (short_gt (network_to_host raw_id) max_length ≡ false)
      × (0 < length body)
      × (length body ≤ 2048)

  abbrev pub read_node : ℕ × List ℕ → RecvNode
  read_node (raw_id, body) = received (network_to_host raw_id) body

  abbrev taken_head : ℕ × List ℕ → MsgNode
  taken_head (raw_id, body) = record {
    buf = head_bytes raw_id (length body) ++ 0 ∷ [];
    cur_len = 0;
    total_len = 4;
  }

  parse_head-here :
      (m : ℕ × List ℕ) (rest : List ℕ) (s : Reader)
      → Passes m
      → s.head ≡ taken_head m
      → s.stream ≡ m.1 ++ rest
      → parse_head o s
        ≡ ok (goes_on (record s { stream = rest; posts = s.posts ++ read_node m ∷ [] }))
  unfolding parse_head accept_head read_body new_recv new_node
  parse_head-here (raw_id, body) rest s (i, pos, small) h e =
      fields
      ∙ rw
          (
            h,
            load_short-store_short raw_id [],
            load_short-store_short (host_to_network (length body)) [],
            to_host-to_network (length body) (omega arith),
            i,
            positive,
            le→ltb max_length (length body) small,
          )
          (read_body-here (network_to_host raw_id) body rest
            (record s { head = taken_head (raw_id, body) }) e pos)
    where
      fields :
          parse_head o s
          ≡ accept_head
              (network_to_host (load_short (store_short raw_id ++ [])))
              (network_to_host (load_short (store_short (host_to_network (length body)) ++ [])))
              s
      fields = rw h refl

      positive : leb 32768 (length body) ≡ false
      positive = ground arith

  read_message-here :
      (m : ℕ × List ℕ) (rest : List ℕ) (s : Reader)
      → Passes m
      → clear_node s.head ≡ ok clean_head
      → s.stream ≡ packet m ++ rest
      → read_message o s
        ≡ ok (
            goes_on (record s {
              stream = rest;
              head = taken_head m;
              posts = s.posts ++ read_node m ∷ [];
            }))
  unfolding read_message
  read_message-here (raw_id, body) rest s p c e = >>=-ok _ c (
      >>=-ok _
        (async_read-here (head_bytes raw_id (length body)) (body ++ rest) (replicate 5 0) s e
          (omega arith))
        (parse_head-here (raw_id, body) rest
          (record s { stream = body ++ rest; head = taken_head (raw_id, body) }) p refl refl))

  -- The end of the stream.
  read_message-end :
      (s : Reader) → clear_node s.head ≡ ok clean_head → s.stream ≡ [] → read_message o s ≡ threw
  unfolding read_message async_read
  read_message-end s c e = rw (c, e) refl

  abbrev pub Reads : ℕ → Reader → List RecvNode → Type 0
  Reads fuel s nodes =
      (s' : Reader) × (serve o fuel s ≡ ok (returns s'))
      × (s'.posts ≡ nodes)
      × (s'.closed ≡ true)
      × (s'.cleared ≡ true)

  pub serve-reads :
      (ms : List (ℕ × List ℕ)) (s : Reader)
      → All Passes ms
      → clear_node s.head ≡ ok clean_head
      → s.stream ≡ packets ms
      → Reads (suc (length ms)) s (s.posts ++ map read_node ms)
  unfolding serve caught after_round close
  serve-reads [] s p c e =
      rw (read_message-end s c e) (_, refl, sym (append-nil s.posts), refl, refl)
  serve-reads (m ∷ ms) s p c e = rw (read_message-here m (packets ms) s p.0 c e) (
      let (s', r, q, k, l) =
        serve-reads ms
          (record s {
            stream = packets ms;
            head = taken_head m;
            posts = s.posts ++ read_node m ∷ [];
          })
          p.1 (clear_node-head (taken_head m) refl refl) refl in
      (s', r, q ∙ append_assoc s.posts (read_node m ∷ []) (map read_node ms), k, l))
