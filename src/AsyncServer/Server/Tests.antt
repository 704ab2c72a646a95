-- ===== src/AsyncServer/Server/Tests.antt =====
-- The theorems on the server of Network/asyncServer at concrete inputs.
use boost_net_programing.Base.{ℕ, ◌≡◌, refl, some, [], ◌∷◌, if◌then◌else◌, ◌==◌, arith, ok, false}
use boost_net_programing.AsyncServer.Server.{Connection, Server, lookup, handle_accept}
use boost_net_programing.AsyncServer.Server.Table.{Accepts, handle_accept-Accepts}

abbrev first : Connection
first = record { uuid = 11; io_service = 0 }

abbrev second : Connection
second = record { uuid = 12; io_service = 1 }

abbrev serving : Server
serving = record {
  pool = record { io_services = 2; next_io_service = 0 };
  sessions = (11, first) ∷ [];
  accepting = some second;
  started = first ∷ [];
}

handle_accept-Accepts_example :
    (t : Server) × (handle_accept false second 13 serving ≡ ok t)
    × Accepts 13 serving t
    × (t.started ≡ first ∷ second ∷ [])
    × ((j : ℕ) → lookup j t.sessions ≡ (if 12 == j then some second else lookup j serving.sessions))
unfolding lookup
handle_accept-Accepts_example = handle_accept-Accepts false second 13 serving (omega arith) refl
