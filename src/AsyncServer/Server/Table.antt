-- ===== src/AsyncServer/Server/Table.antt =====
-- The table of sessions in Network/asyncServer/src/CServer.cpp.
use boost_net_programing.Base.{
  ℕ, ◌+◌, ◌<◌, ◌≡◌, refl, ap, ◌∙◌, Bool, true, false, none, some, List, [], ◌∷◌, ◌++◌,
  if◌then◌else◌, ◌==◌, lt→ltb, ok, arith,
}
use boost_net_programing.AsyncServer.Pool.{Pool, get_io_service}
use boost_net_programing.AsyncServer.Server.{
  Connection, Server, lookup, insert, start_accept, handle_accept,
}

lookup-insert :
    (k j : ℕ) (c : Connection) (m : List (ℕ × Connection))
    → lookup k m ≡ none
    → lookup j (insert k c m) ≡ (if k == j then some c else lookup j m)
unfolding lookup insert
lookup-insert k j c [] h = refl
lookup-insert k j c ((i, d) ∷ m) h = ground (arith, lookup-insert k j c m)

-- A valid index into the pool.
abbrev pub InPool : Pool → Type 0
InPool p = p.next_io_service < p.io_services

-- What `handle_accept` leaves, whether it failed or not: the next `async_accept` under way, on the
-- context whose turn it is, with the pool valid.
abbrev pub Accepts : ℕ → Server → Server → Type 0
Accepts uuid s t =
    (t.accepting ≡ some (record { uuid = uuid; io_service = s.pool.next_io_service }))
    × InPool t.pool

start_accept-Accepts :
    (uuid : ℕ) (s : Server)
    → InPool s.pool
    → (t : Server) × (start_accept uuid s ≡ ok t)
      × Accepts uuid s t
      × (t.sessions ≡ s.sessions)
      × (t.started ≡ s.started)
unfolding start_accept get_io_service
start_accept-Accepts uuid s h =
    let next : ℕ =
      if s.pool.next_io_service + 1 == s.pool.io_services then 0 else s.pool.next_io_service + 1 in
    (
      record s {
        pool = record (s.pool) { next_io_service = next };
        accepting = some (record { uuid = uuid; io_service = s.pool.next_io_service });
      },
      rw (lt→ltb s.pool.next_io_service s.pool.io_services h),
      (refl, ground arith),
      refl,
      refl,
    )

-- A connection whose uuid is new is started and found in the table afterwards and the others stay; a failed
-- accept starts nothing and leaves the table. In both cases the server accepts on.
pub handle_accept-Accepts :
    (failed : Bool) (c : Connection) (uuid : ℕ) (s : Server)
    → InPool s.pool
    → lookup c.uuid s.sessions ≡ none
    → (t : Server) × (handle_accept failed c uuid s ≡ ok t)
      × Accepts uuid s t
      × (t.started ≡ (if failed then s.started else s.started ++ c ∷ []))
      × ((j : ℕ)
          → lookup j t.sessions ≡ (
              if failed
              then lookup j s.sessions
              else if c.uuid == j
              then some c
              else lookup j s.sessions))
unfolding handle_accept
handle_accept-Accepts true c uuid s h new =
    let (t, e, a, same, begun) = start_accept-Accepts uuid (record s { accepting = none }) h in
    (t, e, a, begun, λ j. ap (lookup j) same)
handle_accept-Accepts false c uuid s h new =
    let (t, e, a, same, begun) =
      start_accept-Accepts uuid
        (record s {
          accepting = none;
          started = s.started ++ c ∷ [];
          sessions = insert c.uuid c s.sessions;
        })
        h in
    (t, e, a, begun, λ j. ap (lookup j) same ∙ lookup-insert c.uuid j c s.sessions new)
