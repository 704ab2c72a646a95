-- ===== src/AsyncServer/HeadFirst/Turns.antt =====
-- The handlers `HandleReadHead` and `HandleReadMsg` of Network/asyncServer/src/CSession.cpp.
use boost_net_programing.Base.{
  ℕ, ◌+◌, ◌≤◌, ◌≡◌, Bool, true, false, Option, none, some, Result, ok, threw, underrun, fault, ◌==◌,
  ltb, read_at_total, length, short_gt, load_short, is_negative, length-replicate, arith,
  Bool-cases, inl, inr,
}
use boost_net_programing.AsyncServer.MsgNode.{
  ByteOrder, RecvNode, max_length, head_total_len, make_recv, make_node,
}
use boost_net_programing.AsyncServer.HeadFirst.{
  Awaits, msg_bytes, Turn, give_up, begin_body, handle_read_head,
}

-- A body is read into a node that has room for it and for its end.
abbrev pub HasRoom : Awaits → Option RecvNode → Type 0
HasRoom msg_bytes (some m) = (length m.buf ≡ m.total_len + 1) × (m.total_len ≤ max_length)
HasRoom msg_bytes none = ⊥
HasRoom _ m = Unit

-- An exception or the write behind a length of -1, or else a read that fits.
abbrev pub HeadSafe : Result Turn → Type 0
HeadSafe (ok t) = HasRoom t.awaits t.msg
HeadSafe threw = Unit
HeadSafe underrun = Unit
HeadSafe fault = ⊥

begin_body-HeadSafe : (msg_id len : ℕ) (s : Turn) → HeadSafe (begin_body msg_id len s)
unfolding begin_body make_recv make_node
begin_body-HeadSafe msg_id len s = elim (Bool-cases (short_gt len max_length)) [
  | inl f ↦ rw f tt
  | inr f ↦ rw f (elim (Bool-cases (len == 65535)) [
    | inl g ↦ rw g tt
    | inr g ↦ rw g (elim (Bool-cases (is_negative len)) [
      | inl i ↦ rw i tt
      | inr i ↦ rw i (length-replicate {A = ℕ} (len + 1) 0, ground arith)
    ])
  ])
]

-- From a buffer that has room for a header, whatever its bytes, `HandleReadHead` makes no access
-- outside a buffer other than the write behind a length of -1, and if it then reads a body, that
-- is of at most MAX_LENGTH bytes, into a node that has room for it and for its end.
pub handle_read_head-HeadSafe :
    (o : ByteOrder) (failed : Bool) (n : ℕ) (s : Turn)
    → head_total_len ≤ length s.head.buf
    → HeadSafe (handle_read_head o failed n s)
unfolding handle_read_head give_up
handle_read_head-HeadSafe o true n s h = tt
handle_read_head-HeadSafe o false n s h = elim (Bool-cases (ltb n head_total_len)) [
  | inl e ↦ rw e tt
  | inr e ↦
      let (id, f, l) = read_at_total s.head.buf 0 2 (omega arith) in
      let (len, g, k) = read_at_total s.head.buf 2 2 (omega arith) in
      rw (e, f, g)
        (begin_body-HeadSafe (o.network_to_host (load_short id))
          (o.network_to_host (load_short len)) s)
]
