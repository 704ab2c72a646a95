-- ===== src/Actor/Bank.antt =====
-- Concurrent/day08-Actor/Actor/bank_matchine.h: the bank.
use boost_net_programing.Base.{
  ℕ, ◌+◌, ◌-◌, ◌^◌, Bool, true, false, ◌&&◌, none, some, List, [], ◌∷◌, if◌then◌else◌, leb, ◌==◌,
}
use boost_net_programing.Actor.Message.{
  Text, Message, withdraw, withdraw_ok, withdraw_denied, cancel_withdrawal, withdrawal_processed,
  verify_pin, pin_verified, pin_incorrect, get_balance, balance, Send, to_atm,
}
use boost_net_programing.Actor.Dispatcher.{Handler, Dispatched, dispatch}

abbrev pub first_balance : ℕ
first_balance = 199

unfoldable pub text_eq : Text → Text → Bool
text_eq [] [] = true
text_eq (a ∷ s) (b ∷ t) = (a == b) && text_eq s t
text_eq _ _ = false

-- "521024"
abbrev pub the_pin : Text
the_pin = b'5' ∷ b'2' ∷ b'1' ∷ b'0' ∷ b'2' ∷ b'4' ∷ []

-- `-=` on an `unsigned`, for numbers below 2 ^ 32.
unfoldable pub unsigned_sub : ℕ → ℕ → ℕ
unsigned_sub a b = if leb b a then a - b else (a + 2 ^ 32) - b

-- A handler returns the balance that is left and what it sends.
abbrev pub Effect : Type 0
Effect = ℕ × List Send

unfoldable pub on_verify_pin : ℕ → Handler Effect
on_verify_pin left (verify_pin account pin) =
    some (left, to_atm (if text_eq pin the_pin then pin_verified else pin_incorrect) ∷ [])
on_verify_pin left _ = none

unfoldable pub on_withdraw : ℕ → Handler Effect
unfolding unsigned_sub
on_withdraw left (withdraw account amount) = some (
    if leb amount left
    then (unsigned_sub left amount, to_atm withdraw_ok ∷ [])
    else (left, to_atm withdraw_denied ∷ []))
on_withdraw left _ = none

unfoldable pub on_get_balance : ℕ → Handler Effect
on_get_balance left (get_balance account) = some (left, to_atm (balance left) ∷ [])
on_get_balance left _ = none

unfoldable pub on_withdrawal_processed : ℕ → Handler Effect
on_withdrawal_processed left (withdrawal_processed account amount) = some (left, [])
on_withdrawal_processed left _ = none

unfoldable pub on_cancel_withdrawal : ℕ → Handler Effect
on_cancel_withdrawal left (cancel_withdrawal account amount) = some (left, [])
on_cancel_withdrawal left _ = none

-- One message of the loop in `bank_machine::run`.
unfoldable pub bank_receive : ℕ → Message → Dispatched Effect
unfolding dispatch on_cancel_withdrawal on_withdrawal_processed on_get_balance on_withdraw
    on_verify_pin
bank_receive left = dispatch (
    on_cancel_withdrawal left
    ∷ on_withdrawal_processed left
    ∷ on_get_balance left
    ∷ on_withdraw left
    ∷ on_verify_pin left
    ∷ [])
