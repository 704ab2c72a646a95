-- ===== src/AsyncServer/Session/Frames.antt =====
-- `HandleRead` of Network/asyncServer/src/CSession.cpp on a stream of whole frames, however the
-- stream was cut inside headers.
use boost_net_programing.Base.{
  ℕ, ◌+◌, ◌-◌, ◌≤◌, ◌<◌, ◌≡◌, refl, sym, ap, ◌∙◌, List, [], ◌∷◌, ◌++◌, false, some, le→ltb, length,
  replicate, map, ok, count_sub, short_gt, load_short, store_short, arith, append_assoc,
  length-append, length-replicate, take-append, drop-replicate, get_elem?-append_at,
  get_elem?-append_lt, >>=-ok, All, All-append, All-map,
}
use boost_net_programing.AsyncServer.MsgNode.{max_length, ByteOrder, MsgNode, RecvNode, clear}
use boost_net_programing.AsyncServer.Session.Steps.{step-head_rest}
use boost_net_programing.AsyncServer.Session.{
  Rx, next_round, append_bytes, body_start, accept_fields, head_fields, head_rest, step,
  lookup_message, inbox,
}
use boost_net_programing.AsyncServer.Session.Bodies.{
  Holds, fresh_node, full_node, posted_state, make_recv-ok, append_bytes-here, body_whole-here,
  clear-head,
}

module _ (o : ByteOrder) where
  open o use {network_to_host, host_to_network, to_host-to_network}

  -- The four bytes of a header.
  abbrev pub header : ℕ → ℕ → List ℕ
  header id len = store_short (host_to_network id) ++ store_short (host_to_network len)

  -- A message that the session accepts.
  pub record Fits (m : ℕ × List ℕ) : Type 0 where
    pub id_fits : m.0 ≤ max_length
    pub body_fits : length m.1 ≤ max_length

  abbrev head_of : ℕ → ℕ → ℕ → MsgNode
  head_of id len k = record { buf = header id len ++ 0 ∷ []; cur_len = k; total_len = 4 }

  head_fields-header :
      (s : Rx) (id len k copy_len n : ℕ)
      → id ≤ max_length
      → len ≤ max_length
      → s.head ≡ head_of id len k
      → head_fields o s copy_len n ≡ body_start s (fresh_node id len) copy_len n
  unfolding head_fields accept_fields
  head_fields-header s id len k copy_len n hi hl e =
      fields
      ∙ rw
          (
            load_id,
            load_len,
            to_host-to_network id (omega arith),
            to_host-to_network len (omega arith),
            not_over id hi,
            not_over len hl,
          )
          (>>=-ok _ (make_recv-ok len id hl) refl)
    where
      fields :
          head_fields o s copy_len n
          ≡ accept_fields o s
              (network_to_host (load_short (store_short (host_to_network id))))
              (network_to_host (load_short (store_short (host_to_network len))))
              copy_len
              n
      fields = rw e refl

      load_id : load_short (store_short (host_to_network id)) ≡ host_to_network id
      load_id = omega arith

      load_len : load_short (store_short (host_to_network len)) ≡ host_to_network len
      load_len = omega arith

      not_over : (v : ℕ) → v ≤ max_length → short_gt v max_length ≡ false
      not_over v h = ground arith

  -- One round of the loop on a frame whose first bytes came before.
  module _ (s : Rx) (id : ℕ) (got q before body behind : List ℕ) (n m : ℕ) (holds : Holds s got)
      (short_got : length got < 4) (id_fits : id ≤ max_length)
      (body_fits : length body ≤ max_length) (cut : header id (length body) ≡ got ++ q)
      (rb : s.recv_buf ≡ before ++ (q ++ (body ++ behind)))
      (count : n ≡ length q + length body + m) where
    four : length got + length q ≡ 4
    four = omega (arith, ap length cut, length-append got q)

    joined :
        append_bytes s.head s.recv_buf (length before) (length q)
        ≡ ok (header id (length body) ++ 0 ∷ [])
    joined =
        rw
          (
            rb,
            append_bytes-here s.head before q (body ++ behind) got (replicate (5 - length got) 0)
                (ap (λ h. h.buf) holds.head_held) (ap (λ h. h.cur_len) holds.head_held)
                (omega (arith, four, length-replicate {A = ℕ} (5 - length got) 0)),
            drop-replicate {A = ℕ} (length q) (5 - length got) 0,
            one,
          )
          (ap ok (sym (append_assoc got q (0 ∷ [])) ∙ ap (λ l. l ++ 0 ∷ []) (sym cut)))
      where
        one : 5 - length got - length q ≡ 1
        one = omega (arith, four)

    with_header : Rx
    with_header = record s { head = record (s.head) { buf = header id (length body) ++ 0 ∷ [] } }

    head_at : with_header.head ≡ head_of id (length body) (length got)
    unfolding with_header
    head_at = rw (holds.head_held)

    body_at :
        body_start with_header
          (fresh_node id (length body))
          (length before + length q)
          (n - length q)
        ≡ ok (next_round (posted_state s id body) (length before + length q + length body) m)
    unfolding body_start with_header
    body_at =
        rw (le→ltb (n - length q) (length body) (omega (arith, count)), ← length-append before q)
          (body_whole-here with_header id (before ++ q) body behind (n - length q) body_fits
              (rb ∙ sym (append_assoc before q (body ++ behind)))
              (ap clear head_at ∙ clear-head _ _ _ _ (length got))
            ∙ ap
                (λ k.
                  ok (next_round (posted_state s id body) (length (before ++ q) + length body) k))
                rest)
      where
        rest : n - length q - length body ≡ m
        rest = omega (arith, count)

    pub step-frame :
        step o s (length before) n
        ≡ ok (next_round (posted_state s id body) (length before + length q + length body) m)
    unfolding head_rest with_header
    step-frame =
        step-head_rest o s (length before) n holds.not_parsed
          (omega (arith, four, count, ap (λ h. h.cur_len) holds.head_held))
        ∙ >>=-ok _ remain (
            >>=-ok _ joined (
              head_fields-header with_header id (length body) (length got) _ _ id_fits body_fits
                head_at
              ∙ body_at))
      where
        remain : count_sub 4 s.head.cur_len ≡ ok (length q)
        remain = rw (ap (λ h. h.cur_len) holds.head_held) (ground (arith, four))

-- The pointers posted earlier still read the same messages.
inbox-grow :
    (heap : List RecvNode) (m : RecvNode) (ps : List ℕ)
    → All (λ p. p < length heap) ps
    → map (lookup_message (heap ++ m ∷ [])) ps ≡ map (lookup_message heap) ps
inbox-grow heap m [] h = refl
inbox-grow heap m (p ∷ ps) h =
    rw (inbox-grow heap m ps h.1, lookup_message, get_elem?-append_lt heap (m ∷ []) p h.0)

map-snoc {ℓ κ} :
    {A : Type ℓ} {B : Type κ} (f : A → B) (xs : List A) (x : A)
    → map f (xs ++ x ∷ []) ≡ map f xs ++ f x ∷ []
map-snoc f [] x = refl
map-snoc f (y ∷ xs) x = ap (λ l. f y ∷ l) (map-snoc f xs x)

pub inbox-posted :
    (s : Rx) (id : ℕ) (body : List ℕ)
    → All (λ p. p < length s.heap) s.posted
    → inbox (posted_state s id body) ≡ inbox s ++ some (id, body) ∷ []
inbox-posted s id body h = rw (
  map-snoc (lookup_message (s.heap ++ full_node id body ∷ [])) s.posted (length s.heap),
  inbox-grow s.heap (full_node id body) s.posted h,
  lookup_message,
  get_elem?-append_at s.heap [] (full_node id body),
  take-append body (0 ∷ []),
)

pub Holds-posted :
    (s : Rx) (id : ℕ) (body : List ℕ)
    → All (λ p. p < length s.heap) s.posted
    → Holds (posted_state s id body) []
Holds-posted s id body h = record {
  head_held = refl;
  not_parsed = refl;
  in_heap =
      All-append (λ p. p < length (s.heap ++ full_node id body ∷ [])) s.posted (length s.heap ∷ [])
        (All-map (λ p. p < length s.heap) (λ p. p < length (s.heap ++ full_node id body ∷ []))
          (λ p lt. omega (arith, length-append s.heap (full_node id body ∷ []))) s.posted h)
        (omega (arith, length-append s.heap (full_node id body ∷ [])));
}
