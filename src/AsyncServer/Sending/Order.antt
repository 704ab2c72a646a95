-- ===== src/AsyncServer/Sending/Order.antt =====
-- The order of the writes in Network/asyncServer/src/CSession.cpp: one at a time, first come first
-- served.
use boost_net_programing.Base.{
  ℕ, ◌+◌, ◌-◌, ◌≤◌, ◌<◌, ◌≡◌, refl, sym, ap, ◌∙◌, ◌⊎◌, inl, inr, Bool, true, false, List, [], ◌∷◌,
  ◌++◌, ltb, ltb→lt, ltb→le, length, length-append, ok, short, arith, Bool-cases, append_assoc,
  append-nil,
}
use boost_net_programing.AsyncServer.MsgNode.{max_sendque, ByteOrder, SendNode, make_send}
use boost_net_programing.AsyncServer.Sending.{
  Tx, enqueue, send, write_next, pop_front, handle_write,
}

-- All that was accepted, in the order of the writes: those begun, then what waits behind the front.
abbrev waiting : List SendNode → List SendNode
waiting [] = []
waiting (n ∷ q) = q

abbrev pub accepted : Tx → List SendNode
accepted t = t.writes ++ waiting t.que

-- How many writes may be under way.
abbrev busy : List SendNode → ℕ
busy [] = 0
busy (n ∷ q) = 1

-- One write is under way while the queue is not empty, and none else, unless a write failed.
pub record IsValid (t : Tx) : Type 0 where
  pub one_write : t.cleared ≡ false → t.writing ≡ busy t.que
  pub at_most_one : t.writing ≤ busy t.que
  pub bounded : length t.que ≤ max_sendque + 1

-- The result is valid, and has accepted what `t` had and `more`.
abbrev pub Keeps : Tx → List SendNode → Tx → Type 0
Keeps t more u = IsValid u × (accepted u ≡ accepted t ++ more)

accepted-at : (t : Tx) (q : List SendNode) → t.que ≡ q → accepted t ≡ t.writes ++ waiting q
accepted-at t q e = ap (λ q. t.writes ++ waiting q) e

enqueue-Keeps :
    (n : SendNode) (t : Tx) (q : List SendNode)
    → IsValid t
    → length t.que ≤ max_sendque
    → t.que ≡ q
    → Keeps t (n ∷ []) (enqueue q n t)
unfolding enqueue
enqueue-Keeps n t [] v h e = (
  record {
    one_write = λ c. omega (arith, v.one_write c, ap busy e);
    at_most_one = omega (arith, v.at_most_one, ap busy e);
    bounded = omega arith;
  },
  append-nil (t.writes ++ n ∷ [])
      ∙ ap (λ l. l ++ n ∷ []) (sym (accepted-at t [] e ∙ append-nil t.writes)),
)
enqueue-Keeps n t (m ∷ q) v h e = (
  record {
    one_write = λ c. omega (arith, v.one_write c, ap busy e);
    at_most_one = omega (arith, v.at_most_one, ap busy e);
    bounded = omega (arith, length-append q (n ∷ []), ap length e);
  },
  sym (append_assoc t.writes q (n ∷ [])) ∙ ap (λ l. l ++ n ∷ []) (sym (accepted-at t (m ∷ q) e)),
)

module _ (o : ByteOrder) (msg : List ℕ) (len id : ℕ) (t : Tx) (v : IsValid t) where
  -- With more than MAX_SENDQUE nodes queued `Send` drops the message; otherwise, the node being
  -- built, it is accepted behind all that came before.
  pub send-Keeps :
      (n : SendNode)
      → make_send o msg (short len) id ≡ ok n
      → (u : Tx) × (send o msg len id t ≡ ok u)
        × (((max_sendque < length t.que) × (u ≡ t))
            ⊎ ((length t.que ≤ max_sendque) × Keeps t (n ∷ []) u))
  unfolding send
  send-Keeps n made = elim (Bool-cases (ltb max_sendque (length t.que))) [
    | inl full ↦ (t, rw full, inl (ltb→lt _ _ full, refl))
    | inr room ↦ (
      enqueue t.que n t,
      rw (room, made),
      inr (ltb→le _ _ room, enqueue-Keeps n t t.que v (ltb→le _ _ room) refl),
    )
  ]

write_next-Keeps :
    (t : Tx) (n : SendNode) (q : List SendNode)
    → IsValid t
    → t.que ≡ n ∷ q
    → Keeps t [] (write_next q (record t { writing = t.writing - 1 }))
unfolding write_next
write_next-Keeps t n [] v e = (
  record {
    one_write = λ c. omega (arith, v.one_write c, ap busy e);
    at_most_one = omega (arith, v.at_most_one, ap busy e);
    bounded = omega arith;
  },
  ap (λ l. l ++ []) (sym (append-nil t.writes))
      ∙ ap (λ l. l ++ []) (sym (accepted-at t (n ∷ []) e)),
)
write_next-Keeps t n (m ∷ q) v e = (
  record {
    one_write = λ c. omega (arith, v.one_write c, ap busy e);
    at_most_one = omega (arith, v.at_most_one, ap busy e);
    bounded = omega (arith, v.bounded, ap length e);
  },
  append_assoc t.writes (m ∷ []) q
      ∙ sym (accepted-at t (n ∷ m ∷ q) e)
      ∙ sym (append-nil (accepted t)),
)

-- When the one write that is under way completes, `HandleWrite` pops its node and begins the next:
-- it finds the queue not empty, and nothing accepted is lost or reordered.
pub handle_write-Keeps :
    (failed : Bool) (t : Tx)
    → IsValid t
    → 0 < t.writing
    → (u : Tx) × (handle_write failed t ≡ ok u) × Keeps t [] u
unfolding handle_write pop_front
handle_write-Keeps true t v h = (
  record t { writing = t.writing - 1; cleared = true },
  refl,
  (
    record { one_write = λ c. cc; at_most_one = omega (arith, v.at_most_one); bounded = v.bounded },
    sym (append-nil (accepted t)),
  ),
)
handle_write-Keeps false t v h = popped t.que refl
  where
    popped :
        (q : List SendNode)
        → t.que ≡ q
        → (u : Tx) × (pop_front q (record t { writing = t.writing - 1 }) ≡ ok u) × Keeps t [] u
    popped [] e = absurd (omega (arith, v.at_most_one, ap busy e))
    popped (n ∷ q) e =
        (write_next q (record t { writing = t.writing - 1 }), refl, write_next-Keeps t n q v e)
