-- ===== src/AsyncServer/Session/Steps.antt =====
-- The rounds of `HandleRead`'s loop in Network/asyncServer/src/CSession.cpp, case by case.
use boost_net_programing.Base.{ℕ, suc, ◌+◌, ◌≤◌, ◌<◌, ◌≡◌, true, false, ◌==◌, ok, arith}
use boost_net_programing.AsyncServer.MsgNode.{ByteOrder}
use boost_net_programing.AsyncServer.Session.{
  Rx, Outcome, leave, again, head_part, head_rest, body_rest, step, loop,
}

module _ (o : ByteOrder) where
  pub step-body_rest :
      (s : Rx) (copy_len n : ℕ)
      → s.head_parsed ≡ true
      → step o s copy_len n ≡ body_rest s copy_len n
  unfolding step
  step-body_rest s copy_len n p = ground arith

  pub step-head_rest :
      (s : Rx) (copy_len n : ℕ)
      → s.head_parsed ≡ false
      → 4 ≤ n + s.head.cur_len
      → step o s copy_len n ≡ head_rest o s copy_len n
  unfolding step
  step-head_rest s copy_len n p h = ground arith

  pub step-head_part :
      (s : Rx) (copy_len n : ℕ)
      → s.head_parsed ≡ false
      → n + s.head.cur_len < 4
      → step o s copy_len n ≡ head_part s copy_len n
  unfolding step
  step-head_part s copy_len n p h = ground arith

  pub loop-leave :
      (f : ℕ) (s s' : Rx) (copy_len n : ℕ) (out : Outcome)
      → 0 < n
      → step o s copy_len n ≡ ok (leave out s')
      → loop o (suc f) s copy_len n ≡ ok (out, s')
  unfolding loop
  loop-leave f s s' copy_len n out pos e = let ne : (n == 0) ≡ false = ground arith in rw (ne, e)

  pub loop-again :
      (f : ℕ) (s s' : Rx) (copy_len n copy_len' n' : ℕ)
      → 0 < n
      → step o s copy_len n ≡ ok (again s' copy_len' n')
      → loop o (suc f) s copy_len n ≡ loop o f s' copy_len' n'
  unfolding loop
  loop-again f s s' copy_len n copy_len' n' pos e =
      let ne : (n == 0) ≡ false = ground arith in rw (ne, e)
