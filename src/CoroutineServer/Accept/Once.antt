-- ===== src/CoroutineServer/Accept/Once.antt =====
-- The server of Network/coroutineServer takes one connection.
use boost_net_programing.Base.{
  ℕ, ◌+◌, ◌≤◌, ◌≡◌, refl, ap, Bool, true, false, Option, none, some, List, [], ◌∷◌, length,
  length-append, arith,
}
use boost_net_programing.AsyncServer.Server.{Connection}
use boost_net_programing.CoroutineServer.Accept.{
  CoServer, accepted_one, forget_session, CoEvent, accept_done, session_ends, accept_completes,
  co_step, co_run,
}

-- How many accepts are outstanding.
abbrev outstanding : Option Connection → ℕ
outstanding none = 0
outstanding (some c) = 1

-- The sessions started and those that may still be.
abbrev reach : CoServer → ℕ
reach s = length s.spawned + outstanding s.accepting

completes :
    (a : Option Connection) (failed : Bool) (s : CoServer)
    → s.accepting ≡ a
    → reach (accept_completes a failed s) ≤ reach s
unfolding accept_completes accepted_one
completes none failed s e = omega arith
completes (some c) true s e = omega (arith, ap outstanding e)
completes (some c) false s e = omega (arith, ap outstanding e, length-append s.spawned (c ∷ []))

co_run-reach : (es : List CoEvent) (s : CoServer) → reach (co_run es s) ≤ reach s
unfolding co_run co_step forget_session
co_run-reach [] s = omega arith
co_run-reach (accept_done failed ∷ es) s = omega (
  arith,
  co_run-reach es (accept_completes s.accepting failed s),
  completes s.accepting failed s refl,
)
co_run-reach (session_ends uuid ∷ es) s = co_run-reach es (forget_session uuid s)

-- Whatever happens after the server is made, it starts at most one session more than it has started.
pub spawned-co_run-le :
    (es : List CoEvent) (s : CoServer) → length (co_run es s).spawned ≤ length s.spawned + 1
spawned-co_run-le es s = omega (arith, co_run-reach es s, at_most s.accepting)
  where
    at_most : (a : Option Connection) → outstanding a ≤ 1
    at_most none = omega arith
    at_most (some c) = omega arith
