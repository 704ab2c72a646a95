-- ===== src/Actor/System/Money/Invariant.antt =====
-- The invariant of the money in Concurrent/day08-Actor/Actor, and what sending and the keys do to it.
use boost_net_programing.Base.{
  ℕ, ◌+◌, ◌≤◌, ◌≡◌, refl, Bool, true, false, Option, none, some, List, [], ◌∷◌, if◌then◌else◌, ◌==◌,
  arith, All, All-append,
}
use boost_net_programing.Actor.Message.{Message, Send, to_bank, to_hardware, to_atm, close_queue}
use boost_net_programing.Actor.Bank.{first_balance}
use boost_net_programing.Actor.Atm.{
  State, waiting_for_card, wait_for_action, done_processing, announce,
}
use boost_net_programing.Actor.System.{System, send, send_all, key_message, shut_down, press}
use boost_net_programing.Actor.System.Money.Pays.{
  allows, issues, total, total-append, Priced, weight, weights, PricedSend, PricedAtm, Harmless,
  key_message-Harmless,
}

-- The invariant, with `extra` still to be sent.
pub record Inv (extra : ℕ) (s : System) : Type 0 where
  pub covered :
      s.left + total allows s.atm_queue + total issues s.hardware_queue + s.issued + extra
      ≤ first_balance
  pub atm_priced : All Priced s.atm_queue
  pub bank_priced : All Priced s.bank_queue
  pub amount_priced : PricedAtm s.atm

send-Inv : (m : Send) (e : ℕ) (s : System) → PricedSend m → Inv (weight m + e) s → Inv e (send m s)
unfolding send
send-Inv (to_atm m) e s p v = record {
  covered = omega (arith, v.covered, total-append allows s.atm_queue (m ∷ []));
  atm_priced = All-append Priced s.atm_queue (m ∷ []) v.atm_priced (p, tt);
  bank_priced = v.bank_priced;
  amount_priced = v.amount_priced;
}
send-Inv (to_bank m) e s p v = record {
  covered = omega (arith, v.covered);
  atm_priced = v.atm_priced;
  bank_priced = All-append Priced s.bank_queue (m ∷ []) v.bank_priced (p, tt);
  amount_priced = v.amount_priced;
}
send-Inv (to_hardware m) e s p v = record {
  covered = omega (arith, v.covered, total-append issues s.hardware_queue (m ∷ []));
  atm_priced = v.atm_priced;
  bank_priced = v.bank_priced;
  amount_priced = v.amount_priced;
}

pub send_all-Inv :
    (ms : List Send) (s : System) → All PricedSend ms → Inv (weights ms) s → Inv 0 (send_all ms s)
unfolding send_all
send_all-Inv [] s p v = v
send_all-Inv (m ∷ ms) s p v = send_all-Inv ms (send m s) p.1 (send-Inv m (weights ms) s p.0 v)

pub either : (b : Bool) (s t : System) → Inv 0 s → Inv 0 t → Inv 0 (if b then s else t)
either true s t v w = v
either false s t v w = w

-- The invariant does not read the flags.
pub same :
    {s : System} {e : ℕ} (q w a b h : Bool)
    → Inv e s
    → Inv e (record s { quit = q; waiting = w; atm_on = a; bank_on = b; hardware_on = h })
same q w a b h v = record {
  covered = v.covered;
  atm_priced = v.atm_priced;
  bank_priced = v.bank_priced;
  amount_priced = v.amount_priced;
}

shut_down-Inv : (s : System) → Inv 0 s → Inv 0 (shut_down s)
unfolding shut_down
shut_down-Inv s v =
    send_all-Inv (to_bank close_queue ∷ to_atm close_queue ∷ to_hardware close_queue ∷ [])
      (record s { quit = true }) (tt, (tt, (tt, tt)))
      (same true s.waiting s.atm_on s.bank_on s.hardware_on v)

pub press-Inv : (c : ℕ) (s : System) → Inv 0 s → Inv 0 (press c s)
unfolding press
press-Inv c s v = either s.quit s _ v (
    either (c == b'q') (shut_down s) _ (shut_down-Inv s v)
      (pressed (key_message c) (key_message-Harmless c)))
  where
    pressed :
        (o : Option Message)
        → Harmless o
        → Inv 0 (elim o [ none ↦ s | some m ↦ send_all (to_atm m ∷ []) s ])
    pressed none h = v
    pressed (some m) h =
        send_all-Inv (to_atm m ∷ []) s (h.0, tt)
          (record {
            covered = omega (arith, v.covered, h.1);
            atm_priced = v.atm_priced;
            bank_priced = v.bank_priced;
            amount_priced = v.amount_priced;
          })

announce-free : (st : State) → All PricedSend (announce st) × (weights (announce st) ≡ 0)
unfolding announce
announce-free wait_for_action = ((tt, tt), refl)
announce-free waiting_for_card = ((tt, tt), refl)
announce-free done_processing = ((tt, tt), refl)
announce-free _ = (tt, refl)

pub announced : (st : State) (s : System) → Inv 0 s → Inv 0 (send_all (announce st) s)
announced st s v = send_all-Inv (announce st) s (announce-free st).0 (record {
  covered = omega (arith, v.covered, (announce-free st).1);
  atm_priced = v.atm_priced;
  bank_priced = v.bank_priced;
  amount_priced = v.amount_priced;
})
