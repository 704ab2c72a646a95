-- ===== src/Actor/System/Money.antt =====
-- The money in Concurrent/day08-Actor/Actor: what leaves the slot was taken from the balance.
mod Pays
mod Invariant
use boost_net_programing.Base.{
  ℕ, ◌+◌, ◌≤◌, ◌≡◌, refl, ap, ◌∙◌, Bool, true, false, ◌&&◌, Option, none, some, List, [], ◌∷◌, ◌++◌,
  if◌then◌else◌, leb, ◌==◌, arith, All, All-append, Bool-cases, inl, inr, ltb→le,
}
use boost_net_programing.Actor.Message.{
  Text, Message, Send, to_bank, to_hardware, withdraw, withdraw_ok, withdraw_denied,
  cancel_withdrawal, withdrawal_processed, card_inserted, digit_pressed, clear_last_pressed,
  eject_card, withdraw_pressed, cancel_pressed, issue_money, verify_pin, pin_verified,
  pin_incorrect, display_enter_pin, display_enter_card, display_insufficient_funds,
  display_withdrawal_cancelled, display_pin_incorrect_message, display_withdrawal_options,
  get_balance, balance, display_balance, balance_pressed, to_atm, close_queue,
}
use boost_net_programing.Actor.Dispatcher.{Dispatched, handled, ignored, closed, dispatch}
use boost_net_programing.Actor.Bank.{first_balance, bank_receive}
use boost_net_programing.Actor.Atm.{
  State, waiting_for_card, getting_pin, verifying_pin, wait_for_action, process_balance,
  process_withdrawal, done_processing, Atm, announce, atm_receive, handlers,
}
use boost_net_programing.Actor.Hardware.{hardware_receive}
use boost_net_programing.Actor.System.{
  System, send, send_all, key_message, shut_down, press, call_state, atm_takes, atm_pops, atm_runs,
  bank_takes, bank_pops, bank_runs, hardware_takes, hardware_pops, hardware_runs, Event, key,
  atm_moves, bank_moves, hardware_moves, step, run, start,
}
pub use Pays.{allows, issues, total}
use Pays.{
  total-append, Priced, weight, weights, PricedSend, PricedAtm, BankPays, bank_receive-BankPays,
  AtmPays, handlers-AtmPays, SlotPays, hardware_receive-SlotPays, Harmless, key_message-Harmless,
  fifty,
}
use Invariant.{Inv, send_all-Inv, either, same, press-Inv, announced}

call_state-Inv : (s : System) → Inv 0 s → Inv 0 (call_state s)
unfolding call_state
call_state-Inv s v = called s.atm.state
  where
    waits : Inv 0 (record s { waiting = true })
    waits = same s.quit true s.atm_on s.bank_on s.hardware_on v

    called :
        (st : State)
        → Inv 0 (elim st [
          | done_processing ↦
              send_all
                (announce s.atm.state)
                (record s { atm = record (s.atm) { state = waiting_for_card } })
          | _ ↦ send_all (announce s.atm.state) (record s { waiting = true })
        ])
    called done_processing = announced s.atm.state _ (record {
      covered = v.covered;
      atm_priced = v.atm_priced;
      bank_priced = v.bank_priced;
      amount_priced = λ q. cc;
    })
    called _ = announced s.atm.state _ waits

-- A thread takes the first message of its queue.
atm_takes-Inv :
    (r : Dispatched (Atm × List Send)) (n : ℕ) (s : System)
    → AtmPays n r
    → Inv n s
    → Inv 0 (atm_takes r s)
unfolding atm_takes
atm_takes-Inv (handled (a, out)) n s p v = send_all-Inv out _ p.1 (record {
  covered = omega (arith, v.covered, p.0);
  atm_priced = v.atm_priced;
  bank_priced = v.bank_priced;
  amount_priced = p.2;
})
atm_takes-Inv ignored n s p v = record {
  covered = omega (arith, v.covered);
  atm_priced = v.atm_priced;
  bank_priced = v.bank_priced;
  amount_priced = v.amount_priced;
}
atm_takes-Inv closed n s p v = record {
  covered = omega (arith, v.covered);
  atm_priced = v.atm_priced;
  bank_priced = v.bank_priced;
  amount_priced = v.amount_priced;
}

atm_runs-Inv : (s : System) → Inv 0 s → Inv 0 (atm_runs s)
unfolding atm_runs atm_pops atm_receive
atm_runs-Inv s v =
    either s.atm_on _ s
      (either s.waiting _ _ (pops s.atm_queue v.covered v.atm_priced) (call_state-Inv s v)) v
  where
    pops :
        (q : List Message)
        → s.left + total allows q + total issues s.hardware_queue + s.issued + 0 ≤ first_balance
        → All Priced q
        → Inv 0 (atm_pops q s)
    pops [] c p = v
    pops (m ∷ q) c p =
        atm_takes-Inv (dispatch (handlers s.atm.state s.atm) m) (allows m) _
          (handlers-AtmPays s.atm.state s.atm m refl v.amount_priced p.0)
          (record {
            covered = omega (arith, c);
            atm_priced = p.1;
            bank_priced = v.bank_priced;
            amount_priced = v.amount_priced;
          })

bank_runs-Inv : (s : System) → Inv 0 s → Inv 0 (bank_runs s)
unfolding bank_runs bank_pops bank_takes
bank_runs-Inv s v = either s.bank_on _ s (pops s.bank_queue v.bank_priced) v
  where
    takes :
        (q : List Message)
        → All Priced q
        → (r : Dispatched (ℕ × List Send)) → BankPays s.left r
        → Inv 0 (bank_takes r (record s { bank_queue = q }))
    takes q p (handled (left, out)) b = send_all-Inv out _ b.1 (record {
      covered = omega (arith, v.covered, b.0);
      atm_priced = v.atm_priced;
      bank_priced = p;
      amount_priced = v.amount_priced;
    })
    takes q p ignored b = record {
      covered = v.covered;
      atm_priced = v.atm_priced;
      bank_priced = p;
      amount_priced = v.amount_priced;
    }
    takes q p closed b = record {
      covered = v.covered;
      atm_priced = v.atm_priced;
      bank_priced = p;
      amount_priced = v.amount_priced;
    }

    pops : (q : List Message) → All Priced q → Inv 0 (bank_pops q s)
    pops [] p = v
    pops (m ∷ q) p = takes q p.1 (bank_receive s.left m) (bank_receive-BankPays s.left m p.0)

hardware_runs-Inv : (s : System) → Inv 0 s → Inv 0 (hardware_runs s)
unfolding hardware_runs hardware_pops hardware_takes
hardware_runs-Inv s v = either s.hardware_on _ s (pops s.hardware_queue v.covered) v
  where
    takes :
        (q : List Message) (n : ℕ)
        → s.left + total allows s.atm_queue + (n + total issues q) + s.issued + 0 ≤ first_balance
        → (r : Dispatched ℕ) → SlotPays (s.issued + n) r
        → Inv 0 (hardware_takes r (record s { hardware_queue = q }))
    takes q n c (handled i) b = record {
      covered = omega (arith, c, b);
      atm_priced = v.atm_priced;
      bank_priced = v.bank_priced;
      amount_priced = v.amount_priced;
    }
    takes q n c ignored b = record {
      covered = omega (arith, c);
      atm_priced = v.atm_priced;
      bank_priced = v.bank_priced;
      amount_priced = v.amount_priced;
    }
    takes q n c closed b = record {
      covered = omega (arith, c);
      atm_priced = v.atm_priced;
      bank_priced = v.bank_priced;
      amount_priced = v.amount_priced;
    }

    pops :
        (q : List Message)
        → s.left + total allows s.atm_queue + total issues q + s.issued + 0 ≤ first_balance
        → Inv 0 (hardware_pops q s)
    pops [] c = v
    pops (m ∷ q) c =
        takes q (issues m) c (hardware_receive s.issued m) (hardware_receive-SlotPays s.issued m)

step-Inv : (e : Event) (s : System) → Inv 0 s → Inv 0 (step e s)
unfolding step
step-Inv (key c) s v = press-Inv c s v
step-Inv atm_moves s v = atm_runs-Inv s v
step-Inv bank_moves s v = bank_runs-Inv s v
step-Inv hardware_moves s v = hardware_runs-Inv s v

run-Inv : (es : List Event) (s : System) → Inv 0 s → Inv 0 (run es s)
unfolding run
run-Inv [] s v = v
run-Inv (e ∷ es) s v = run-Inv es (step e s) (step-Inv e s v)

start-Inv : (junk : ℕ) → Inv 0 (start junk)
unfolding start
start-Inv junk = record {
  covered = omega arith;
  atm_priced = tt;
  bank_priced = tt;
  amount_priced = λ q. cc;
}

-- In every interleaving, the money issued, the money in messages on their way to the slot, fifty
-- for each withdrawal granted but not yet seen by the ATM, and the balance are within the first balance.
pub run-covered :
    (es : List Event) (junk : ℕ)
    → let s = run es (start junk) in
      s.left + total allows s.atm_queue + total issues s.hardware_queue + s.issued ≤ first_balance
run-covered es junk = omega (arith, (run-Inv es (start junk) (start-Inv junk)).covered)
