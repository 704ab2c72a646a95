-- ===== src/AsyncServer/Server.antt =====
-- Network/asyncServer/src/CServer.cpp: the accept loop and the table of sessions.
pub mod Table
mod Tests
use boost_net_programing.Base.{
  ℕ, Bool, true, false, Option, none, some, List, [], ◌∷◌, ◌++◌, if◌then◌else◌, ◌==◌, Result, ok,
  threw, underrun, fault, ◌>>=◌,
}
use boost_net_programing.AsyncServer.Pool.{Pool, get_io_service}

-- A session is known by its uuid, here a number, and runs on a context of the pool.
pub record Connection : Type 0 where
  pub uuid : ℕ
  pub io_service : ℕ

-- `sessions` is the std::map, as an association list; `accepting` is the session that the
-- outstanding `async_accept` will connect, and `started` has the sessions that `Start` was called on.
pub record Server : Type 0 where
  pub pool : Pool
  pub sessions : List (ℕ × Connection)
  pub accepting : Option Connection
  pub started : List Connection

-- `std::map::find`, `insert` (which keeps an entry that is there) and `erase`.
unfoldable pub lookup : ℕ → List (ℕ × Connection) → Option Connection
lookup k [] = none
lookup k ((j, c) ∷ m) = if j == k then some c else lookup k m

unfoldable pub insert : ℕ → Connection → List (ℕ × Connection) → List (ℕ × Connection)
insert k c [] = (k, c) ∷ []
insert k c ((j, d) ∷ m) = if j == k then (j, d) ∷ m else (j, d) ∷ insert k c m

unfoldable pub erase : ℕ → List (ℕ × Connection) → List (ℕ × Connection)
erase k [] = []
erase k ((j, d) ∷ m) = if j == k then erase k m else (j, d) ∷ erase k m

-- `start_accept`; the random generator's uuid is an argument.
unfoldable pub start_accept : ℕ → Server → Result Server
start_accept uuid s = do
  (i, pool) ← get_io_service s.pool
  ok (record s { pool = pool; accepting = some (record { uuid = uuid; io_service = i }) })

-- `handle_accept`, with `failed` for an error code that is set.
unfoldable pub handle_accept : Bool → Connection → ℕ → Server → Result Server
handle_accept true c uuid s = start_accept uuid (record s { accepting = none })
handle_accept false c uuid s = start_accept uuid (record s {
  accepting = none;
  started = s.started ++ c ∷ [];
  sessions = insert c.uuid c s.sessions;
})

unfoldable pub clear_session : ℕ → Server → Server
clear_session uuid s = record s { sessions = erase uuid s.sessions }
