-- ===== src/CoroutineServer/Reader/Ending.antt =====
-- The coroutine of Network/coroutineServer/src/CSession.cpp ends when its stream does.
use boost_net_programing.Base.{
  ℕ, zero, suc, ◌+◌, ◌≤◌, ◌<◌, ◌≡◌, ◌⊎◌, refl, ◌∙◌, true, List, [], ◌∷◌, Result, ok, threw,
  underrun, fault, ◌>>=◌, ◌==◌, ltb, length, take, drop, read_at_total, replicate, short_gt,
  load_short, write_at_total, length-take, length-drop, length-replicate, arith, Bool-cases, inl,
  inr, ltb→le, is_negative,
}
use boost_net_programing.AsyncServer.MsgNode.{ByteOrder, RecvNode, max_length}
use boost_net_programing.CoroutineServer.Nodes.{new_node, clear_node, new_recv}
use boost_net_programing.CoroutineServer.Reader.{
  Reader, Round, goes_on, returns, async_read, end_body, read_body, accept_head, parse_head,
  read_message, caught, after_round, serve,
}

-- The buffer of the header has its four bytes and one.
pub record HeadIsValid (s : Reader) : Type 0 where
  pub total : s.head.total_len ≡ 4
  pub size : length s.head.buf ≡ 5

-- After a round on `n` bytes: it was in bounds, and it has ended the session or taken bytes.
abbrev RoundSafe : ℕ → Result Round → Type 0
RoundSafe n (ok (goes_on t)) = HeadIsValid t × (length t.stream < n)
RoundSafe n (ok (returns t)) = (t.closed ≡ true) × (t.cleared ≡ true)
RoundSafe n threw = Unit
RoundSafe n underrun = ⊥
RoundSafe n fault = ⊥

async_read-cases :
    (n : ℕ) (buf : List ℕ) (s : Reader)
    → n ≤ length buf
    → (async_read n buf s ≡ threw)
      ⊎ ((filled : List ℕ) × (async_read n buf s
            ≡ ok (filled, record s { stream = drop n s.stream }))
          × (length filled ≡ length buf)
          × (n ≤ length s.stream))
unfolding async_read
async_read-cases n buf s h = elim (Bool-cases (ltb (length s.stream) n)) [
  | inl e ↦ inl (rw e refl)
  | inr e ↦
      let (r, w, l) =
        write_at_total buf 0 (take n s.stream) (omega (arith, length-take n s.stream)) in
      inr (r, rw (e, w) refl, l, ltb→le (length s.stream) n e)
]

read_body-safe :
    (m : RecvNode) (s : Reader) (n : ℕ)
    → length m.buf ≡ m.total_len + 1
    → HeadIsValid s
    → length s.stream < n
    → RoundSafe n (read_body m s)
unfolding read_body end_body
read_body-safe m s n l v h = elim (async_read-cases m.total_len m.buf s (omega (arith, l))) [
  | inl e ↦ rw e tt
  | inr (buf, e, k, room) ↦ rw e (elim (Bool-cases (m.total_len == 0)) [
    | inl z ↦ rw z (refl, refl)
    | inr z ↦
        let (r, w, _) = write_at_total buf m.total_len (0 ∷ []) (omega (arith, l)) in
        rw (z, w)
          (
            record { total = v.total; size = v.size },
            omega (arith, length-drop m.total_len s.stream),
          )
  ])
]

accept_head-safe :
    (id len : ℕ) (s : Reader) (n : ℕ)
    → HeadIsValid s
    → length s.stream < n
    → RoundSafe n (accept_head id len s)
unfolding accept_head new_recv new_node
accept_head-safe id len s n v h = elim (Bool-cases (short_gt id max_length)) [
  | inl e ↦ rw e (refl, refl)
  | inr e ↦ rw e (elim (Bool-cases (short_gt len max_length)) [
    | inl f ↦ rw f (refl, refl)
    | inr f ↦ rw f (elim (Bool-cases (is_negative len)) [
      | inl g ↦ rw g tt
      | inr g ↦ rw g (read_body-safe _ s n (length-replicate {A = ℕ} (len + 1) 0) v h)
    ])
  ])
]

parse_head-safe :
    (o : ByteOrder) (s : Reader) (n : ℕ)
    → HeadIsValid s
    → length s.stream < n
    → RoundSafe n (parse_head o s)
unfolding parse_head
parse_head-safe o s n v h =
    let (id, e, i) = read_at_total s.head.buf 0 2 (omega (arith, v.size)) in
    let (len, f, j) = read_at_total s.head.buf 2 2 (omega (arith, v.size)) in
    rw (e, f)
      (accept_head-safe (o.network_to_host (load_short id)) (o.network_to_host (load_short len)) s n
        v h)

read_message-safe :
    (o : ByteOrder) (s : Reader) → HeadIsValid s → RoundSafe (length s.stream) (read_message o s)
unfolding read_message clear_node
read_message-safe o s v =
    let (r, w, l) =
      write_at_total s.head.buf 0 (replicate (s.head.total_len + 1) 0)
        (omega (arith, v.total, v.size, length-replicate {A = ℕ} (s.head.total_len + 1) 0)) in
    rw w (elim (async_read-cases 4 r s (omega (arith, v.size))) [
      | inl e ↦ rw e tt
      | inr (buf, e, k, room) ↦ rw e (
          parse_head-safe o _ (length s.stream) (record { total = v.total; size = k ∙ l ∙ v.size })
            (omega (arith, length-drop 4 s.stream)))
    ])

-- What `serve` comes to: the coroutine has ended, and the session is closed and off the table.
abbrev pub Ended : Result Round → Type 0
Ended (ok (returns t)) = (t.closed ≡ true) × (t.cleared ≡ true)
Ended _ = ⊥

ends :
    (rounds : Reader → Result Round) (s : Reader) (n : ℕ) (r : Result Round)
    → RoundSafe n r
    → ((t : Reader) → HeadIsValid t → length t.stream < n → Ended (rounds t))
    → Ended (caught s r >>= after_round rounds)
unfolding caught after_round
ends rounds s n (ok (goes_on t)) h ih = ih t h.0 h.1
ends rounds s n (ok (returns t)) h ih = h
ends rounds s n threw h ih = (refl, refl)
ends rounds s n underrun h ih = h
ends rounds s n fault h ih = h

-- Whatever the peer sends before it closes, the coroutine makes no access outside a buffer, and ends
-- after at most one round a byte and one with the session closed and taken off the server's table.
pub serve-Ended :
    (o : ByteOrder) (fuel : ℕ) (s : Reader)
    → HeadIsValid s
    → length s.stream < fuel
    → Ended (serve o fuel s)
unfolding serve
serve-Ended o zero s v h = absurd (omega arith)
serve-Ended o (suc fuel) s v h =
    ends (serve o fuel) s (length s.stream) (read_message o s) (read_message-safe o s v)
      (λ t w k. serve-Ended o fuel t w (omega arith))
