-- ===== src/Actor/Dispatcher.antt =====
-- Concurrent/day08-Actor/Actor/dispatcher.h: `dispatcher`, and `TemplateDispatcher`, which are
-- chained by `.handle<Message>(f)`.
use boost_net_programing.Base.{Option, none, some, List, [], ◌∷◌}
use boost_net_programing.Actor.Message.{Message, close_queue}

-- A handler takes the messages of one type.
abbrev pub Handler : Type 0 → Type 0
Handler R = Message → Option R

-- `dispatch` of a whole chain: the handler's effect, `false`, or the exception `close_queue`.
pub data Dispatched (R : Type 0) : Type 0 where
  handled : R → Dispatched R
  ignored : Dispatched R
  closed : Dispatched R

-- `dispatcher::dispatch`, the end of every chain.
unfoldable pub dispatch_base : {R : Type 0} → Message → Dispatched R
dispatch_base close_queue = closed
dispatch_base _ = ignored

-- `TemplateDispatcher::dispatch`: a handler that does not take the message passes it to the one
-- that was chained before it. The list has the handler chained last first.
unfoldable pub dispatch : {R : Type 0} → List (Handler R) → Message → Dispatched R
unfolding dispatch_base
dispatch [] m = dispatch_base m
dispatch (h ∷ hs) m = elim (h m) [ some r ↦ handled r | none ↦ dispatch hs m ]
