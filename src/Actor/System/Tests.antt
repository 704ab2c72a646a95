-- ===== src/Actor/System/Tests.antt =====
-- Runs of the actors of Concurrent/day08-Actor/Actor, and the theorems at concrete inputs.
use boost_net_programing.Base.{ℕ, ◌+◌, ◌≤◌, ◌≡◌, refl, List, [], ◌∷◌, ◌++◌, map}
use boost_net_programing.Actor.Bank.{text_eq, bank_receive}
use boost_net_programing.Actor.Atm.{wait_for_action, waiting_for_card, announce, atm_receive}
use boost_net_programing.Actor.Hardware.{hardware_receive}
use boost_net_programing.Actor.System.{
  System, send, send_all, key_message, shut_down, press, call_state, atm_takes, atm_pops, atm_runs,
  bank_takes, bank_pops, bank_runs, hardware_takes, hardware_pops, hardware_runs, Event, key,
  atm_moves, bank_moves, hardware_moves, step, run, start,
}
use boost_net_programing.Actor.System.Money
use boost_net_programing.Actor.System.Money.{run-covered}
use boost_net_programing.Actor.System.Ledger.{left-run-le}

-- Names all that a run computes with.
actor_code : Unit {0}
unfolding text_eq bank_receive announce atm_receive hardware_receive send send_all key_message
    shut_down press call_state atm_takes atm_pops atm_runs bank_takes bank_pops bank_runs
    hardware_takes hardware_pops hardware_runs step run start
actor_code = tt

abbrev keys : List ℕ → List Event
keys = map key

-- The ATM calls its state's function and takes one message, so often.
abbrev atm_rounds : List ℕ → List Event
atm_rounds [] = []
atm_rounds (x ∷ xs) = atm_moves ∷ atm_moves ∷ atm_rounds xs

-- A card and the right PIN.
abbrev right_pin : List ℕ
right_pin = b'i' ∷ b'5' ∷ b'2' ∷ b'1' ∷ b'0' ∷ b'2' ∷ b'4' ∷ []

abbrev signed_in : List Event
signed_in = keys right_pin ++ (atm_rounds right_pin ++ (bank_moves ∷ atm_moves ∷ atm_moves ∷ []))

-- A withdrawal that ends well.
abbrev withdrawing : List Event
withdrawing =
    signed_in
    ++ (key b'w'
        ∷ atm_moves
        ∷ atm_moves
        ∷ bank_moves
        ∷ atm_moves
        ∷ atm_moves
        ∷ hardware_moves
        ∷ hardware_moves
        ∷ hardware_moves
        ∷ hardware_moves
        ∷ [])

withdrawing_pays :
    ((run withdrawing (start 0)).issued ≡ 50) × ((run withdrawing (start 0)).left ≡ 149)
unfolding actor_code
withdrawing_pays = (refl, refl)

-- One that is cancelled before the bank has answered: the balance is down, and no money is on its
-- way when the ATM has dropped the answer.
abbrev cancelling : List Event
cancelling =
    signed_in
    ++ (key b'w'
        ∷ atm_moves
        ∷ atm_moves
        ∷ key b'c'
        ∷ atm_moves
        ∷ atm_moves
        ∷ atm_moves
        ∷ bank_moves
        ∷ bank_moves
        ∷ atm_moves
        ∷ atm_moves
        ∷ [])

abbrev cancelled : System
cancelled = run cancelling (start 0)

cancelling_loses :
    (cancelled.left ≡ 149)
    × (cancelled.issued ≡ 0)
    × (cancelled.atm_queue ≡ [])
    × (cancelled.bank_queue ≡ [])
    × (cancelled.atm.state ≡ waiting_for_card)
unfolding actor_code
cancelling_loses = (refl, refl, refl, refl, refl)

-- The right PIN, cancelled before the bank has answered; then a wrong PIN, which the old answer passes.
abbrev wrong_pin : List ℕ
wrong_pin = b'i' ∷ b'0' ∷ b'0' ∷ b'0' ∷ b'0' ∷ b'0' ∷ b'0' ∷ []

abbrev intruding : List Event
intruding =
    keys right_pin
    ++ (key b'c' ∷ atm_rounds right_pin
        ++ (atm_moves ∷ atm_moves ∷ atm_moves ∷ keys wrong_pin
            ++ (atm_rounds wrong_pin ++ (bank_moves ∷ atm_moves ∷ atm_moves ∷ []))))

stale_answer_passes :
    ((run intruding (start 0)).atm.state ≡ wait_for_action)
    × ((run intruding (start 0)).atm.pin ≡ b'0' ∷ b'0' ∷ b'0' ∷ b'0' ∷ b'0' ∷ b'0' ∷ [])
unfolding actor_code
stale_answer_passes = (refl, refl)

run-covered_example :
    let s = run withdrawing (start 7) in
    s.left
      + Money.total Money.allows s.atm_queue
      + Money.total Money.issues s.hardware_queue
      + s.issued
    ≤ 199
run-covered_example = run-covered withdrawing 7

left-run-le_example : (run cancelling (start 0)).left ≤ (start 0).left
left-run-le_example = left-run-le cancelling (start 0)
