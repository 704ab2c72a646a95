-- ===== src/Actor/System/Ledger.antt =====
-- The bank's balance in Concurrent/day08-Actor/Actor over a whole run.
use boost_net_programing.Base.{
  ℕ, ◌≤◌, ◌≡◌, refl, Bool, true, false, Option, none, some, List, [], ◌∷◌, ◌++◌, if◌then◌else◌,
  ◌==◌, arith,
}
use boost_net_programing.Actor.Message.{
  Message, withdraw, verify_pin, get_balance, withdrawal_processed, cancel_withdrawal, Send, to_atm,
  to_bank, to_hardware,
}
use boost_net_programing.Actor.Dispatcher.{Dispatched, handled, ignored, closed}
use boost_net_programing.Actor.Bank.{bank_receive}
use boost_net_programing.Actor.Atm.{
  State, waiting_for_card, done_processing, Atm, announce, atm_receive,
}
use boost_net_programing.Actor.Hardware.{hardware_receive}
use boost_net_programing.Actor.System.{
  System, send, send_all, key_message, shut_down, press, call_state, atm_takes, atm_pops, atm_runs,
  bank_takes, bank_pops, bank_runs, hardware_takes, hardware_pops, hardware_runs, Event, key,
  atm_moves, bank_moves, hardware_moves, step, run,
}

left-send_all : (ms : List Send) (s : System) → (send_all ms s).left ≡ s.left
unfolding send_all send
left-send_all [] s = refl
left-send_all (to_atm m ∷ ms) s = left-send_all ms (record s { atm_queue = s.atm_queue ++ m ∷ [] })
left-send_all (to_bank m ∷ ms) s =
    left-send_all ms (record s { bank_queue = s.bank_queue ++ m ∷ [] })
left-send_all (to_hardware m ∷ ms) s =
    left-send_all ms (record s { hardware_queue = s.hardware_queue ++ m ∷ [] })

abbrev Takes : ℕ → Dispatched (ℕ × List Send) → Type 0
Takes left (handled (left', out)) = left' ≤ left
Takes left ignored = Unit
Takes left closed = Unit

bank_receive-Takes : (left : ℕ) (m : Message) → Takes left (bank_receive left m)
unfolding bank_receive
bank_receive-Takes left (withdraw a n) = ground arith
bank_receive-Takes left (verify_pin a pin) = omega arith
bank_receive-Takes left (get_balance a) = omega arith
bank_receive-Takes left (withdrawal_processed a n) = omega arith
bank_receive-Takes left (cancel_withdrawal a n) = omega arith
bank_receive-Takes left _ = tt

bank_takes-le :
    (r : Dispatched (ℕ × List Send)) (s : System) → Takes s.left r → (bank_takes r s).left ≤ s.left
unfolding bank_takes
bank_takes-le (handled (left, out)) s h =
    omega (arith, left-send_all out (record s { left = left }))
bank_takes-le ignored s h = omega arith
bank_takes-le closed s h = omega arith

bank_pops-le : (q : List Message) (s : System) → (bank_pops q s).left ≤ s.left
unfolding bank_pops
bank_pops-le [] s = omega arith
bank_pops-le (m ∷ q) s =
    bank_takes-le (bank_receive s.left m) (record s { bank_queue = q })
      (bank_receive-Takes s.left m)

either : (n : ℕ) (b : Bool) (s t : System) → s.left ≤ n → t.left ≤ n → (if b then s else t).left ≤ n
either n true s t h k = h
either n false s t h k = k

sent : (ms : List Send) (s : System) → (send_all ms s).left ≤ s.left
sent ms s = omega (arith, left-send_all ms s)

press-le : (c : ℕ) (s : System) → (press c s).left ≤ s.left
unfolding press shut_down
press-le c s =
    either s.left s.quit s _ (omega arith)
      (either s.left (c == b'q') _ _ (sent _ (record s { quit = true })) (pressed (key_message c)))
  where
    pressed :
        (o : Option Message)
        → let t : System = elim o [ none ↦ s | some m ↦ send_all (to_atm m ∷ []) s ] in
          t.left ≤ s.left
    pressed none = omega arith
    pressed (some m) = sent (to_atm m ∷ []) s

call_state-le : (s : System) → (call_state s).left ≤ s.left
unfolding call_state
call_state-le s = called s.atm.state
  where
    called :
        (st : State)
        → let t : System = elim st [
          | done_processing ↦
              send_all
                (announce s.atm.state)
                (record s { atm = record (s.atm) { state = waiting_for_card } })
          | _ ↦ send_all (announce s.atm.state) (record s { waiting = true })
        ] in
          t.left ≤ s.left
    called done_processing =
        sent (announce s.atm.state) (record s { atm = record (s.atm) { state = waiting_for_card } })
    called _ = sent (announce s.atm.state) (record s { waiting = true })

atm_runs-le : (s : System) → (atm_runs s).left ≤ s.left
unfolding atm_runs atm_pops atm_takes
atm_runs-le s =
    either s.left s.atm_on _ s (either s.left s.waiting _ _ (pops s.atm_queue) (call_state-le s))
      (omega arith)
  where
    takes :
        (r : Dispatched (Atm × List Send)) (q : List Message)
        → (atm_takes r (record s { atm_queue = q })).left ≤ s.left
    takes (handled (a, out)) q = sent out (record s { atm_queue = q; atm = a; waiting = false })
    takes ignored q = omega arith
    takes closed q = omega arith

    pops : (q : List Message) → (atm_pops q s).left ≤ s.left
    pops [] = omega arith
    pops (m ∷ q) = takes (atm_receive s.atm m) q

hardware_runs-le : (s : System) → (hardware_runs s).left ≤ s.left
unfolding hardware_runs hardware_pops hardware_takes
hardware_runs-le s = either s.left s.hardware_on _ s (pops s.hardware_queue) (omega arith)
  where
    takes :
        (r : Dispatched ℕ) (q : List Message)
        → (hardware_takes r (record s { hardware_queue = q })).left ≤ s.left
    takes (handled i) q = omega arith
    takes ignored q = omega arith
    takes closed q = omega arith

    pops : (q : List Message) → (hardware_pops q s).left ≤ s.left
    pops [] = omega arith
    pops (m ∷ q) = takes (hardware_receive s.issued m) q

step-le : (e : Event) (s : System) → (step e s).left ≤ s.left
unfolding step bank_runs
step-le (key c) s = press-le c s
step-le atm_moves s = atm_runs-le s
step-le bank_moves s = either s.left s.bank_on _ s (bank_pops-le s.bank_queue s) (omega arith)
step-le hardware_moves s = hardware_runs-le s

-- No sequence of moves raises the bank's balance: also a `cancel_withdrawal` gives nothing back.
pub left-run-le : (es : List Event) (s : System) → (run es s).left ≤ s.left
unfolding run
left-run-le [] s = omega arith
left-run-le (e ∷ es) s = omega (arith, step-le e s, left-run-le es (step e s))
