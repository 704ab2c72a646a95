-- ===== src/Actor/Message.antt =====
-- Concurrent/day08-Actor/Actor/withdraw_msg.h: what the actors send one another. The senders that
-- three requests carry are always the ATM's queue, so a request does not name it.
use boost_net_programing.Base.{ℕ, List}

-- Accounts, PINs and digits are character codes.
abbrev pub Text : Type 0
Text = List ℕ

pub data Message : Type 0 where
  withdraw : Text → ℕ → Message
  withdraw_ok : Message
  withdraw_denied : Message
  cancel_withdrawal : Text → ℕ → Message
  withdrawal_processed : Text → ℕ → Message
  card_inserted : Text → Message
  digit_pressed : ℕ → Message
  clear_last_pressed : Message
  eject_card : Message
  withdraw_pressed : ℕ → Message
  cancel_pressed : Message
  issue_money : ℕ → Message
  verify_pin : Text → Text → Message
  pin_verified : Message
  pin_incorrect : Message
  display_enter_pin : Message
  display_enter_card : Message
  display_insufficient_funds : Message
  display_withdrawal_cancelled : Message
  display_pin_incorrect_message : Message
  display_withdrawal_options : Message
  get_balance : Text → Message
  balance : ℕ → Message
  display_balance : ℕ → Message
  balance_pressed : Message
  close_queue : Message

-- A message and the queue that it is pushed to.
pub data Send : Type 0 where
  to_atm : Message → Send
  to_bank : Message → Send
  to_hardware : Message → Send
