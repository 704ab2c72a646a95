-- ===== src/Actor/System/Money/Pays.antt =====
-- Concurrent/day08-Actor/Actor: what each handler does with money.
use boost_net_programing.Base.{
  ℕ, ◌+◌, ◌≤◌, ◌≡◌, refl, ◌&&◌, Option, none, some, List, [], ◌∷◌, ◌++◌, leb, arith, All,
  Bool-cases, inl, inr,
}
use boost_net_programing.Actor.Message.{
  Message, Send, to_bank, to_hardware, withdraw, withdraw_ok, withdraw_denied, cancel_withdrawal,
  withdrawal_processed, card_inserted, digit_pressed, clear_last_pressed, eject_card,
  withdraw_pressed, cancel_pressed, issue_money, verify_pin, pin_verified, pin_incorrect,
  display_enter_pin, display_enter_card, display_insufficient_funds, display_withdrawal_cancelled,
  display_pin_incorrect_message, display_withdrawal_options, get_balance, balance, display_balance,
  balance_pressed, to_atm, close_queue,
}
use boost_net_programing.Actor.Dispatcher.{Dispatched, handled, ignored, closed, dispatch}
use boost_net_programing.Actor.Bank.{bank_receive}
use boost_net_programing.Actor.Atm.{
  State, waiting_for_card, getting_pin, verifying_pin, wait_for_action, process_balance,
  process_withdrawal, done_processing, Atm, handlers,
}
use boost_net_programing.Actor.Hardware.{hardware_receive}
use boost_net_programing.Actor.System.{key_message}

-- The price of the one button for money.
abbrev pub fifty : ℕ
fifty = 50

-- Money that a message in the ATM's queue allows, and that one in the machine's queue issues.
abbrev pub allows : Message → ℕ
allows withdraw_ok = fifty
allows _ = 0

abbrev pub issues : Message → ℕ
issues (issue_money n) = n
issues _ = 0

abbrev pub total : (Message → ℕ) → List Message → ℕ
total w [] = 0
total w (m ∷ q) = w m + total w q

pub total-append : (w : Message → ℕ) (q r : List Message) → total w (q ++ r) ≡ total w q + total w r
total-append w [] r = omega arith
total-append w (m ∷ q) r = omega (arith, total-append w q r)

-- Requests for money are for fifty.
abbrev pub Priced : Message → Type 0
Priced (withdraw_pressed n) = n ≡ fifty
Priced (withdraw a n) = n ≡ fifty
Priced _ = Unit

abbrev pub weight : Send → ℕ
weight (to_atm m) = allows m
weight (to_bank m) = 0
weight (to_hardware m) = issues m

abbrev pub weights : List Send → ℕ
weights [] = 0
weights (m ∷ ms) = weight m + weights ms

abbrev pub PricedSend : Send → Type 0
PricedSend (to_atm m) = Priced m
PricedSend (to_bank m) = Priced m
PricedSend (to_hardware m) = Unit

abbrev pub PricedAtm : Atm → Type 0
PricedAtm a = a.state ≡ process_withdrawal → a.withdrawal_amount ≡ fifty

-- What the bank gives is taken from the balance.
abbrev pub BankPays : ℕ → Dispatched (ℕ × List Send) → Type 0
BankPays left (handled (left', out)) = (left' + weights out ≤ left) × All PricedSend out
BankPays left ignored = Unit
BankPays left closed = Unit

pub bank_receive-BankPays :
    (left : ℕ) (m : Message) → Priced m → BankPays left (bank_receive left m)
unfolding bank_receive
bank_receive-BankPays left (withdraw a n) p = ground arith
bank_receive-BankPays left (verify_pin a pin) p = ground arith
bank_receive-BankPays left (get_balance a) p = (omega arith, (tt, tt))
bank_receive-BankPays left (withdrawal_processed a n) p = (omega arith, tt)
bank_receive-BankPays left (cancel_withdrawal a n) p = (omega arith, tt)
bank_receive-BankPays left _ p = tt

-- The ATM issues what a message allows.
abbrev pub AtmPays : ℕ → Dispatched (Atm × List Send) → Type 0
AtmPays n (handled (a, out)) = (weights out ≤ n) × All PricedSend out × PricedAtm a
AtmPays n ignored = Unit
AtmPays n closed = Unit

pub handlers-AtmPays :
    (st : State) (a : Atm) (m : Message)
    → a.state ≡ st
    → PricedAtm a
    → Priced m
    → AtmPays (allows m) (dispatch (handlers st a) m)
unfolding dispatch handlers
handlers-AtmPays waiting_for_card a (card_inserted acc) e pa p = (omega arith, (tt, tt), λ q. cc)
handlers-AtmPays waiting_for_card a _ e pa p = tt
handlers-AtmPays getting_pin a cancel_pressed e pa p = (omega arith, tt, λ q. cc)
handlers-AtmPays getting_pin a clear_last_pressed e pa p = (omega arith, tt, λ q. cc)
handlers-AtmPays getting_pin a (digit_pressed d) e pa p = ground arith
handlers-AtmPays getting_pin a _ e pa p = tt
handlers-AtmPays verifying_pin a cancel_pressed e pa p = (omega arith, tt, λ q. cc)
handlers-AtmPays verifying_pin a pin_incorrect e pa p = (omega arith, (tt, tt), λ q. cc)
handlers-AtmPays verifying_pin a pin_verified e pa p = (omega arith, tt, λ q. cc)
handlers-AtmPays verifying_pin a _ e pa p = tt
handlers-AtmPays wait_for_action a cancel_pressed e pa p = (omega arith, tt, λ q. cc)
handlers-AtmPays wait_for_action a balance_pressed e pa p = (omega arith, (tt, tt), λ q. cc)
handlers-AtmPays wait_for_action a (withdraw_pressed n) e pa p = (omega arith, (p, tt), λ q. p)
handlers-AtmPays wait_for_action a _ e pa p = tt
handlers-AtmPays process_balance a cancel_pressed e pa p = (omega arith, tt, λ q. cc)
handlers-AtmPays process_balance a (balance n) e pa p = (omega arith, (tt, tt), λ q. cc)
handlers-AtmPays process_balance a _ e pa p = tt
handlers-AtmPays process_withdrawal a cancel_pressed e pa p = (omega arith, (tt, (tt, tt)), λ q. cc)
handlers-AtmPays process_withdrawal a withdraw_denied e pa p = (omega arith, (tt, tt), λ q. cc)
handlers-AtmPays process_withdrawal a withdraw_ok e pa p =
    (omega (arith, pa e), (tt, (tt, tt)), λ q. cc)
handlers-AtmPays process_withdrawal a _ e pa p = tt
handlers-AtmPays done_processing a close_queue e pa p = tt
handlers-AtmPays done_processing a _ e pa p = tt

abbrev pub SlotPays : ℕ → Dispatched ℕ → Type 0
SlotPays n (handled i) = i ≤ n
SlotPays n ignored = Unit
SlotPays n closed = Unit

pub hardware_receive-SlotPays :
    (i : ℕ) (m : Message) → SlotPays (i + issues m) (hardware_receive i m)
unfolding hardware_receive
hardware_receive-SlotPays i (issue_money n) = omega arith
hardware_receive-SlotPays i display_insufficient_funds = omega arith
hardware_receive-SlotPays i display_enter_pin = omega arith
hardware_receive-SlotPays i display_enter_card = omega arith
hardware_receive-SlotPays i (display_balance n) = omega arith
hardware_receive-SlotPays i display_withdrawal_options = omega arith
hardware_receive-SlotPays i display_withdrawal_cancelled = omega arith
hardware_receive-SlotPays i display_pin_incorrect_message = omega arith
hardware_receive-SlotPays i eject_card = omega arith
hardware_receive-SlotPays i _ = tt

-- A key allows no money, and asks for fifty if for any.
abbrev pub Harmless : Option Message → Type 0
Harmless none = Unit
Harmless (some m) = Priced m × (allows m ≡ 0)

pub key_message-Harmless : (c : ℕ) → Harmless (key_message c)
unfolding key_message
key_message-Harmless c = elim (Bool-cases (leb b'0' c && leb c b'9')) [
  | inl e ↦ rw e (tt, refl)
  | inr e ↦ rw e (ground arith)
]
