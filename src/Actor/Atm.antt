-- ===== src/Actor/Atm.antt =====
-- Concurrent/day08-Actor/Actor/atm.h: the state machine of the ATM.
use boost_net_programing.Base.{
  ℕ, Option, none, some, List, [], ◌∷◌, ◌++◌, if◌then◌else◌, ◌==◌, length,
}
use boost_net_programing.Actor.Message.{
  Text, Message, Send, to_bank, to_hardware, withdraw, withdraw_ok, withdraw_denied,
  cancel_withdrawal, withdrawal_processed, card_inserted, digit_pressed, clear_last_pressed,
  eject_card, withdraw_pressed, cancel_pressed, issue_money, verify_pin, pin_verified,
  pin_incorrect, display_enter_pin, display_enter_card, display_insufficient_funds,
  display_withdrawal_cancelled, display_pin_incorrect_message, display_withdrawal_options,
  get_balance, balance, display_balance, balance_pressed,
}
use boost_net_programing.Actor.Dispatcher.{Handler, Dispatched, dispatch}

-- The member function that `state` points to.
pub data State : Type 0 where
  waiting_for_card getting_pin verifying_pin wait_for_action process_balance process_withdrawal
        done_processing :
      State

pub record Atm : Type 0 where
  pub state : State
  pub account : Text
  pub withdrawal_amount : ℕ
  pub pin : Text

abbrev pub Effect : Type 0
Effect = Atm × List Send

abbrev pub to_state : Atm → State → List Send → Option Effect
to_state a st out = some (record a { state = st }, out)

-- `cancel_pressed`, where all it does is to end the session.
unfoldable pub on_cancel : Atm → Handler Effect
on_cancel a cancel_pressed = to_state a done_processing []
on_cancel a _ = none

-- `process_withdrawal`
unfoldable pub on_withdraw_ok : Atm → Handler Effect
on_withdraw_ok a withdraw_ok = to_state a done_processing (
    to_hardware (issue_money a.withdrawal_amount)
    ∷ to_bank (withdrawal_processed a.account a.withdrawal_amount)
    ∷ [])
on_withdraw_ok a _ = none

unfoldable pub on_withdraw_denied : Atm → Handler Effect
on_withdraw_denied a withdraw_denied =
    to_state a done_processing (to_hardware display_insufficient_funds ∷ [])
on_withdraw_denied a _ = none

unfoldable pub on_cancel_withdrawing : Atm → Handler Effect
on_cancel_withdrawing a cancel_pressed = to_state a done_processing (
    to_bank (cancel_withdrawal a.account a.withdrawal_amount)
    ∷ to_hardware display_withdrawal_cancelled
    ∷ [])
on_cancel_withdrawing a _ = none

-- `process_balance`
unfoldable pub on_balance : Atm → Handler Effect
on_balance a (balance amount) =
    to_state a wait_for_action (to_hardware (display_balance amount) ∷ [])
on_balance a _ = none

-- `wait_for_action`
unfoldable pub on_withdraw_pressed : Atm → Handler Effect
on_withdraw_pressed a (withdraw_pressed amount) = some (
  record a { state = process_withdrawal; withdrawal_amount = amount },
  to_bank (withdraw a.account amount) ∷ [],
)
on_withdraw_pressed a _ = none

unfoldable pub on_balance_pressed : Atm → Handler Effect
on_balance_pressed a balance_pressed =
    to_state a process_balance (to_bank (get_balance a.account) ∷ [])
on_balance_pressed a _ = none

-- `verifying_pin`
unfoldable pub on_pin_verified : Atm → Handler Effect
on_pin_verified a pin_verified = to_state a wait_for_action []
on_pin_verified a _ = none

unfoldable pub on_pin_incorrect : Atm → Handler Effect
on_pin_incorrect a pin_incorrect =
    to_state a done_processing (to_hardware display_pin_incorrect_message ∷ [])
on_pin_incorrect a _ = none

-- `getting_pin`
abbrev pub pin_length : ℕ
pin_length = 6

unfoldable pub on_digit : Atm → Handler Effect
on_digit a (digit_pressed digit) =
    let pin = a.pin ++ digit ∷ [] in
    some (
      if length pin == pin_length
      then (record a { pin = pin; state = verifying_pin }, to_bank (verify_pin a.account pin) ∷ [])
      else (record a { pin = pin }, []))
on_digit a _ = none

-- `pop_back`, of an empty text too, where the source does nothing.
unfoldable pub pop_back : Text → Text
pop_back [] = []
pop_back (c ∷ []) = []
pop_back (c ∷ d ∷ s) = c ∷ pop_back (d ∷ s)

unfoldable pub on_clear : Atm → Handler Effect
unfolding pop_back
on_clear a clear_last_pressed = some (record a { pin = pop_back a.pin }, [])
on_clear a _ = none

-- `waiting_for_card`
unfoldable pub on_card : Atm → Handler Effect
on_card a (card_inserted account) = some (
  record a { account = account; pin = []; state = getting_pin },
  to_hardware display_enter_pin ∷ [],
)
on_card a _ = none

-- The chain of handlers in each state's function, the one chained last first.
unfoldable pub handlers : State → Atm → List (Handler Effect)
unfolding on_cancel on_withdraw_ok on_withdraw_denied on_cancel_withdrawing on_balance
    on_withdraw_pressed on_balance_pressed on_pin_verified on_pin_incorrect on_digit on_clear
    on_card
handlers process_withdrawal a =
    on_cancel_withdrawing a ∷ on_withdraw_denied a ∷ on_withdraw_ok a ∷ []
handlers process_balance a = on_cancel a ∷ on_balance a ∷ []
handlers wait_for_action a = on_cancel a ∷ on_balance_pressed a ∷ on_withdraw_pressed a ∷ []
handlers verifying_pin a = on_cancel a ∷ on_pin_incorrect a ∷ on_pin_verified a ∷ []
handlers getting_pin a = on_cancel a ∷ on_clear a ∷ on_digit a ∷ []
handlers waiting_for_card a = on_card a ∷ []
handlers done_processing a = []

-- What a state's function sends before it waits.
unfoldable pub announce : State → List Send
announce wait_for_action = to_hardware display_withdrawal_options ∷ []
announce waiting_for_card = to_hardware display_enter_card ∷ []
announce done_processing = to_hardware eject_card ∷ []
announce _ = []

-- A message that arrives while the state's function waits.
unfoldable pub atm_receive : Atm → Message → Dispatched Effect
unfolding dispatch handlers
atm_receive a = dispatch (handlers a.state a)
