-- ===== src/Actor/Hardware.antt =====
-- Concurrent/day08-Actor/Actor/interface_matchine.h: the machine's display and money slot.
use boost_net_programing.Base.{ℕ, ◌+◌, none, some, [], ◌∷◌}
use boost_net_programing.Actor.Message.{
  Message, issue_money, display_insufficient_funds, display_enter_pin, display_enter_card,
  display_balance, display_withdrawal_options, display_withdrawal_cancelled,
  display_pin_incorrect_message, eject_card,
}
use boost_net_programing.Actor.Dispatcher.{Handler, Dispatched, dispatch}

-- A handler returns the money issued so far; what it prints otherwise is left out.
unfoldable pub on_issue_money : ℕ → Handler ℕ
on_issue_money issued (issue_money amount) = some (issued + amount)
on_issue_money issued _ = none

-- The handlers that only print.
unfoldable pub on_display : ℕ → Handler ℕ
on_display issued display_insufficient_funds = some issued
on_display issued display_enter_pin = some issued
on_display issued display_enter_card = some issued
on_display issued (display_balance amount) = some issued
on_display issued display_withdrawal_options = some issued
on_display issued display_withdrawal_cancelled = some issued
on_display issued display_pin_incorrect_message = some issued
on_display issued eject_card = some issued
on_display issued _ = none

-- One message of the loop in `interface_machine::run`.
unfoldable pub hardware_receive : ℕ → Message → Dispatched ℕ
unfolding dispatch on_issue_money on_display
hardware_receive issued = dispatch (on_display issued ∷ on_issue_money issued ∷ [])
