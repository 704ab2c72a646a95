-- ===== src/AsyncServer/Pool.antt =====
-- Network/asyncServer/inc/AsioIOServicePool.h and src/AsioIOServicePool.cpp: io_contexts handed out
-- in turn. A context is its index.
pub mod RoundRobin
use boost_net_programing.Base.{
  ℕ, zero, suc, ◌+◌, Bool, true, List, [], ◌∷◌, if◌then◌else◌, ltb, ◌==◌, Result, ok, threw,
  underrun, fault, ◌>>=◌,
}

pub record Pool : Type 0 where
  pub io_services : ℕ
  pub next_io_service : ℕ

-- The constructor.
unfoldable pub make_pool : ℕ → Pool
make_pool size = record { io_services = size; next_io_service = 0 }

-- `GetIOService`: an index past the vector is out of bounds.
unfoldable pub get_io_service : Pool → Result (ℕ × Pool)
get_io_service p =
    let taken = p.next_io_service in
    if ltb taken p.io_services
    then ok
        (taken, record p { next_io_service = if taken + 1 == p.io_services then 0 else taken + 1 })
    else fault

-- `n` calls in a row.
unfoldable pub get_io_services : ℕ → Pool → Result (List ℕ)
get_io_services zero p = ok []
get_io_services (suc n) p = do (i, p') ← get_io_service p; is ← get_io_services n p'; ok (i ∷ is)
