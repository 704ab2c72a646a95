-- ===== src/CoroutineServer/Accept.antt =====
-- Network/coroutineServer/src/CServer.cpp: `HandleAccept` does not call `StartAccept` again.
pub mod Once
use boost_net_programing.Base.{
  ℕ, ◌≡◌, refl, Bool, true, false, Option, none, some, List, [], ◌∷◌, ◌++◌, Result, ok, threw,
  underrun, fault, ◌>>=◌,
}
use boost_net_programing.AsyncServer.Pool.{Pool, get_io_service}
use boost_net_programing.AsyncServer.Server.{Connection, insert, erase}

pub record CoServer : Type 0 where
  pub pool : Pool
  pub sessions : List (ℕ × Connection)
  pub accepting : Option Connection
  pub spawned : List Connection

-- `StartAccept`, with the uuid that the constructor of the session draws.
unfoldable pub accept_next : ℕ → CoServer → Result CoServer
accept_next uuid s = do
  (i, pool) ← get_io_service s.pool
  ok (record s { pool = pool; accepting = some (record { uuid = uuid; io_service = i }) })

-- `HandleAccept`, with `failed` for an error code that is set.
unfoldable pub accepted_one : Bool → Connection → CoServer → CoServer
accepted_one true c s = record s { accepting = none }
accepted_one false c s = record s {
  accepting = none;
  spawned = s.spawned ++ c ∷ [];
  sessions = insert c.uuid c s.sessions;
}

unfoldable pub forget_session : ℕ → CoServer → CoServer
forget_session uuid s = record s { sessions = erase uuid s.sessions }

-- What happens at the server after its constructor: accepts that complete, and sessions that end.
pub data CoEvent : Type 0 where
  accept_done : Bool → CoEvent
  session_ends : ℕ → CoEvent

-- An accept completes only if one is outstanding.
unfoldable pub accept_completes : Option Connection → Bool → CoServer → CoServer
accept_completes none failed s = s
accept_completes (some c) failed s = accepted_one failed c s

unfoldable pub co_step : CoEvent → CoServer → CoServer
co_step (accept_done failed) s = accept_completes s.accepting failed s
co_step (session_ends uuid) s = forget_session uuid s

unfoldable pub co_run : List CoEvent → CoServer → CoServer
co_run [] s = s
co_run (e ∷ es) s = co_run es (co_step e s)
