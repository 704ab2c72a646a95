-- ===== src/Actor/System.antt =====
-- Concurrent/day08-Actor/Actor/Actor.cpp with the loops `run` of atm.h, bank_matchine.h and
-- interface_matchine.h, and the queues of message.h: three threads, in any interleaving.
pub mod Money
pub mod Ledger
mod Tests
use boost_net_programing.Base.{
  ℕ, Bool, true, false, ◌&&◌, Option, none, some, List, [], ◌∷◌, ◌++◌, if◌then◌else◌, leb, ◌==◌,
}
use boost_net_programing.Actor.Message.{
  Text, Message, Send, to_atm, to_bank, to_hardware, digit_pressed, balance_pressed,
  withdraw_pressed, cancel_pressed, card_inserted, close_queue,
}
use boost_net_programing.Actor.Dispatcher.{Dispatched, handled, ignored, closed}
use boost_net_programing.Actor.Bank.{first_balance, bank_receive}
use boost_net_programing.Actor.Atm.{
  State, waiting_for_card, done_processing, Atm, announce, atm_receive,
}
use boost_net_programing.Actor.Hardware.{hardware_receive}

-- The queues are oldest first. `waiting` says that the ATM's thread stands in `incoming.wait()`;
-- `…_on` that an actor's `run` has not returned; `quit` that the keyboard loop has ended. `left`
-- is the bank's balance, and `issued` the money that came out.
pub record System : Type 0 where
  pub atm : Atm
  pub waiting : Bool
  pub atm_on : Bool
  pub atm_queue : List Message
  pub left : ℕ
  pub bank_on : Bool
  pub bank_queue : List Message
  pub issued : ℕ
  pub hardware_on : Bool
  pub hardware_queue : List Message
  pub quit : Bool

-- `sender::send`, which is `queue::push`.
unfoldable pub send : Send → System → System
send (to_atm m) s = record s { atm_queue = s.atm_queue ++ m ∷ [] }
send (to_bank m) s = record s { bank_queue = s.bank_queue ++ m ∷ [] }
send (to_hardware m) s = record s { hardware_queue = s.hardware_queue ++ m ∷ [] }

unfoldable pub send_all : List Send → System → System
send_all [] s = s
send_all (m ∷ ms) s = send_all ms (send m s)

-- "acc1234"
abbrev pub the_account : Text
the_account = b'a' ∷ b'c' ∷ b'c' ∷ b'1' ∷ b'2' ∷ b'3' ∷ b'4' ∷ []

-- The `switch` of `main`, but for 'q'.
unfoldable pub key_message : ℕ → Option Message
key_message c =
    if leb b'0' c && leb c b'9'
    then some (digit_pressed c)
    else if c == b'b'
    then some balance_pressed
    else if c == b'w'
    then some (withdraw_pressed 50)
    else if c == b'c'
    then some cancel_pressed
    else if c == b'i'
    then some (card_inserted the_account)
    else none

-- `done` of the three actors, in the order of `main`.
unfoldable pub shut_down : System → System
shut_down s =
    send_all (to_bank close_queue ∷ to_atm close_queue ∷ to_hardware close_queue ∷ [])
      (record s { quit = true })

unfoldable pub press : ℕ → System → System
press c s =
    if s.quit
    then s
    else if c == b'q'
    then shut_down s
    else (elim (key_message c) [ none ↦ s | some m ↦ send_all (to_atm m ∷ []) s ])

-- The call `(this->*state)()` in `atm::run`, up to the wait. `done_processing` does not wait.
unfoldable pub call_state : System → System
call_state s = elim s.atm.state [
  | done_processing ↦
      send_all (announce s.atm.state)
        (record s { atm = record (s.atm) { state = waiting_for_card } })
  | _ ↦ send_all (announce s.atm.state) (record s { waiting = true })
]

-- What a message does to the ATM: handled, the state's function returns; not, it waits on.
unfoldable pub atm_takes : Dispatched (Atm × List Send) → System → System
atm_takes (handled (a, out)) s = send_all out (record s { atm = a; waiting = false })
atm_takes ignored s = s
atm_takes closed s = record s { atm_on = false }

unfoldable pub atm_pops : List Message → System → System
atm_pops [] s = s
atm_pops (m ∷ q) s = atm_takes (atm_receive s.atm m) (record s { atm_queue = q })

unfoldable pub atm_runs : System → System
atm_runs s = if s.atm_on then (if s.waiting then atm_pops s.atm_queue s else call_state s) else s

unfoldable pub bank_takes : Dispatched (ℕ × List Send) → System → System
bank_takes (handled (left, out)) s = send_all out (record s { left = left })
bank_takes ignored s = s
bank_takes closed s = record s { bank_on = false }

unfoldable pub bank_pops : List Message → System → System
bank_pops [] s = s
bank_pops (m ∷ q) s = bank_takes (bank_receive s.left m) (record s { bank_queue = q })

unfoldable pub bank_runs : System → System
bank_runs s = if s.bank_on then bank_pops s.bank_queue s else s

unfoldable pub hardware_takes : Dispatched ℕ → System → System
hardware_takes (handled issued) s = record s { issued = issued }
hardware_takes ignored s = s
hardware_takes closed s = record s { hardware_on = false }

unfoldable pub hardware_pops : List Message → System → System
hardware_pops [] s = s
hardware_pops (m ∷ q) s =
    hardware_takes (hardware_receive s.issued m) (record s { hardware_queue = q })

unfoldable pub hardware_runs : System → System
hardware_runs s = if s.hardware_on then hardware_pops s.hardware_queue s else s

-- Which thread moves: the keyboard loop with a key, or an actor. One that is blocked stays so.
pub data Event : Type 0 where
  key : ℕ → Event
  atm_moves bank_moves hardware_moves : Event

unfoldable pub step : Event → System → System
step (key c) s = press c s
step atm_moves s = atm_runs s
step bank_moves s = bank_runs s
step hardware_moves s = hardware_runs s

-- An interleaving, as the sequence of its moves.
unfoldable pub run : List Event → System → System
run [] s = s
run (e ∷ es) s = run es (step e s)

-- `main` before the first key. `withdrawal_amount` is not initialised: it may be any number.
unfoldable pub start : ℕ → System
start junk = record {
  atm = record { state = waiting_for_card; account = []; withdrawal_amount = junk; pin = [] };
  waiting = false;
  atm_on = true;
  atm_queue = [];
  left = first_balance;
  bank_on = true;
  bank_queue = [];
  issued = 0;
  hardware_on = true;
  hardware_queue = [];
  quit = false;
}
