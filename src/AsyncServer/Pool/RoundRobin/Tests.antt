-- ===== src/AsyncServer/Pool/RoundRobin/Tests.antt =====
-- The pool of Network/asyncServer with three contexts.
use boost_net_programing.Base.{◌≡◌, refl, [], ◌∷◌, arith, ok, fault}
use boost_net_programing.AsyncServer.Pool.{make_pool, get_io_service, get_io_services}
use boost_net_programing.AsyncServer.Pool.RoundRobin.{round_robin}

round_robin_example : get_io_services 5 (make_pool 3) ≡ ok (0 ∷ 1 ∷ 2 ∷ 0 ∷ 1 ∷ [])
round_robin_example = round_robin 5 3 (omega arith)

-- On a machine that reports no concurrency the vector is empty.
no_services : get_io_services 1 (make_pool 0) ≡ fault
unfolding get_io_services get_io_service make_pool
no_services = refl
