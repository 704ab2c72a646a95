-- ===== src/AsyncServer/Session/Validity.antt =====
-- What a session of Network/asyncServer/src/CSession.cpp keeps between two calls of `HandleRead`, and
-- what a round of the loop has to come to.
use boost_net_programing.Base.{
  ℕ, ◌+◌, ◌*◌, ◌≤◌, ◌<◌, ◌≡◌, ◌≢◌, refl, List, true, some, if◌then◌else◌, ◌==◌, length, get_elem?,
  replicate, Result, ok, threw, underrun, fault, arith, length-replicate, write_at_total,
  read_at_total, >>=-ok, Bool-cases, inl, inr,
}
use boost_net_programing.AsyncServer.MsgNode.{max_length, head_total_len, MsgNode, RecvNode, clear}
use boost_net_programing.AsyncServer.Session.{
  Rx, Outcome, Next, leave, again, rearm, next_round, append_bytes, exhausted,
}

-- A node that waits for the rest of its body.
pub record IsFilling (m : RecvNode) : Type 0 where
  pub begun : m.cur_len < m.total_len
  pub total_fits : m.total_len ≤ max_length
  pub buf_len : length m.buf ≡ m.total_len + 1

abbrev pub Filling : Rx → Type 0
Filling s =
    (p : ℕ) × (m : RecvNode) × (s.msg ≡ some p) × (get_elem? s.heap p ≡ some m) × IsFilling m

-- The state between two calls: the lengths of the buffers, and what the flags promise.
pub record IsValid (s : Rx) : Type 0 where
  pub recv_len : length s.recv_buf ≡ max_length
  pub head_len : length s.head.buf ≡ 5
  pub head_total : s.head.total_len ≡ head_total_len
  pub head_cur : s.head.cur_len < head_total_len
  pub filling : s.head_parsed ≡ true → Filling s

abbrev pub fresh_node : ℕ → ℕ → RecvNode
fresh_node id len = record {
  node = record { buf = replicate (len + 1) 0; cur_len = 0; total_len = len };
  msg_id = id;
}

abbrev pub flag : Rx → ℕ
flag s = if s.head_parsed then 1 else 0

-- After a round: no fault, the invariant, and a measure that falls if the loop goes on.
abbrev pub NextSafe : ℕ → Result Next → Type 0
NextSafe k (ok (leave out t)) = IsValid t × (out ≢ exhausted)
NextSafe k (ok (again t c m)) = IsValid t × (c + m ≤ max_length) × (2 * m + flag t < k)
NextSafe k threw = Unit
NextSafe k underrun = Unit
NextSafe k fault = ⊥

-- After a call: no fault, the invariant, and the loop came to its end.
abbrev pub CallSafe : Result (Outcome × Rx) → Type 0
CallSafe (ok (out, t)) = IsValid t × (out ≢ exhausted)
CallSafe threw = Unit
CallSafe underrun = Unit
CallSafe fault = ⊥

pub append_bytes_total :
    (node : MsgNode) (rb : List ℕ) (c n : ℕ)
    → c + n ≤ length rb
    → node.cur_len + n ≤ length node.buf
    → (r : List ℕ) × (append_bytes node rb c n ≡ ok r) × (length r ≡ length node.buf)
unfolding append_bytes
append_bytes_total node rb c n h k =
    let (xs, e, l) = read_at_total rb c n h in
    let (r, e', l') = write_at_total node.buf node.cur_len xs (omega arith) in
    (r, >>=-ok _ e e', l')

pub clear_total :
    (node : MsgNode)
    → node.total_len ≤ length node.buf
    → (r : List ℕ) × (clear node ≡ ok (record node { buf = r; cur_len = 0 }))
      × (length r ≡ length node.buf)
unfolding clear
clear_total node h =
    let (r, e, l) =
      write_at_total node.buf 0 (replicate node.total_len 0)
        (omega (arith, length-replicate {A = ℕ} node.total_len 0)) in
    (r, >>=-ok _ e refl, l)

pub zeros : length (replicate {A = ℕ} max_length 0) ≡ max_length
zeros = length-replicate {A = ℕ} max_length 0

pub rearm-IsValid : (t : Rx) → IsValid t → IsValid (record t { recv_buf = replicate max_length 0 })
rearm-IsValid t v = record {
  recv_len = zeros;
  head_len = v.head_len;
  head_total = v.head_total;
  head_cur = v.head_cur;
  filling = v.filling;
}

pub next_round-safe :
    (k : ℕ) (t : Rx) (c m : ℕ)
    → IsValid t
    → c + m ≤ max_length
    → 2 * m + flag t < k
    → NextSafe k (ok (next_round t c m))
unfolding next_round rearm
next_round-safe k t c m v h lt = elim (Bool-cases (m == 0)) [
  | inl e ↦ rw e (rearm-IsValid t v, λ q. cc)
  | inr e ↦ rw e (v, h, lt)
]
