-- ===== src/AsycApi/Writes/Failure.antt =====
-- What an error leaves of the sending side of Network/asycApi/src/Session.cpp.
use boost_net_programing.Base.{ℕ, ◌≡◌, true, List, [], ◌∷◌, ◌++◌, ok, append_assoc, ◌∙◌, append-nil}
use boost_net_programing.AsycApi.Node.{Node, copy_node}
use boost_net_programing.AsycApi.Writes.{
  Handler, Writes, write_to_socket, write_all_to_socket, handle, complete, Event, asks, asks_all,
  completes, fails, step, run,
}

-- The messages that callers ask for.
abbrev pub messages : List Event → List Node
messages [] = []
messages (asks buf ∷ es) = copy_node buf ∷ messages es
messages (asks_all buf ∷ es) = copy_node buf ∷ messages es
messages (completes n ∷ es) = messages es
messages (fails ∷ es) = messages es

module _ (freed : List ℕ → List ℕ) where
  stuck :
      (es : List Event) (q : List Node) (wire : List ℕ)
      → run freed es (record { send_queue = q; send_pending = true; ops = []; wire = wire })
        ≡ ok (record { send_queue = q ++ messages es; send_pending = true; ops = []; wire = wire })
  unfolding run step write_to_socket write_all_to_socket complete
  stuck [] q wire = rw (append-nil q)
  stuck (asks buf ∷ es) q wire =
      stuck es (q ++ copy_node buf ∷ []) wire
      ∙ rw (append_assoc q (copy_node buf ∷ []) (messages es))
  stuck (asks_all buf ∷ es) q wire =
      stuck es (q ++ copy_node buf ∷ []) wire
      ∙ rw (append_assoc q (copy_node buf ∷ []) (messages es))
  stuck (completes n ∷ es) q wire = stuck es q wire
  stuck (fails ∷ es) q wire = stuck es q wire

  -- When an operation under way fails, be it of `WriteToSocket` or of `WriteAllToSocket`, the handler
  -- begins none, and no later event starts another: what callers go on to ask for, by either call, is
  -- queued, the flag stays set, and no further byte reaches the wire.
  pub run-fails :
      (es : List Event) (w : Writes) (h : Handler) (bytes : List ℕ)
      → w.send_pending ≡ true
      → w.ops ≡ (h, bytes) ∷ []
      → run freed (fails ∷ es) w
        ≡ ok (record w { send_queue = w.send_queue ++ messages es; send_pending = true; ops = [] })
  unfolding run step complete handle
  run-fails es w h bytes p e = rw (e, p) (stuck es w.send_queue w.wire)
