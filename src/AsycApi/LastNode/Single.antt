-- ===== src/AsycApi/LastNode/Single.antt =====
-- One write at a time with `WriteToSocketErr` of Network/asycApi/src/Session.cpp.
use boost_net_programing.Base.{
  ℕ, ◌+◌, ◌-◌, ◌≤◌, ◌<◌, ◌≡◌, inl, inr, refl, ap, ◌∙◌, some, List, [], ◌∷◌, ◌++◌, Result, ok, ltb,
  lt→ltb, le→ltb, ltb→lt, ltb→le, le→leb, Bool-cases, take, drop, min, length, take_past,
  length-drop, append_assoc, append-nil, Option, drop-add, take-min-drop, map, arith,
}
use boost_net_programing.AsycApi.Node.{Node, copy_node, rest_buffer}
use boost_net_programing.AsycApi.LastNode.{
  LastWrites, write_to_socket_err, deref_node, write_last, write_send_node, write_callback_err,
  complete_err, asks, completes, step, run, nothing_sent,
}

module _ (a : List ℕ) where
  -- After `c` bytes.
  abbrev sending : ℕ → List ℕ → LastWrites
  sending c wire = record {
    nodes = record (copy_node a) { cur_len = c } ∷ [];
    send_node = some 0;
    ops = (0, drop c a) ∷ [];
    wire = wire;
  }

  abbrev pub left : List (ℕ × List ℕ) → List ℕ
  left [] = []
  left ((i, bytes) ∷ ops) = bytes ++ left ops

  -- What the socket has taken, and what is in the operation under way, are the message.
  abbrev pub Sends : Result LastWrites → Type 0
  Sends r = (w : LastWrites) × (r ≡ ok w) × (w.wire ++ left w.ops ≡ a)

  sent_on :
      (c n : ℕ) (wire : List ℕ)
      → c ≤ length a
      → min n (length (drop c a)) + c < length a
      → complete_err (sending c wire).ops n (sending c wire)
        ≡ ok (sending (c + min n (length (drop c a))) (wire ++ take n (drop c a)))
  unfolding complete_err write_callback_err write_send_node write_last deref_node copy_node
      rest_buffer
  sent_on c n wire l h =
      let k = min n (length (drop c a)) in
      let all : (c + k) + (length a - (c + k)) ≤ length a = omega (arith, h) in
      let end : length (drop (c + k) a) ≤ length a - (c + k) =
        omega (arith, length-drop (c + k) a) in
      rw
        (
          lt→ltb (min n (length (drop c a)) + c) (length a) h,
          le→leb (c + k) (length a) (omega (arith, h)),
          le→leb ((c + k) + (length a - (c + k))) (length a) all,
          take_past (length a - (c + k)) (drop (c + k) a) end,
        )
        refl

  sent_all :
      (c n : ℕ) (wire : List ℕ)
      → length a ≤ min n (length (drop c a)) + c
      → complete_err (sending c wire).ops n (sending c wire)
        ≡ ok (record (sending c wire) { ops = []; wire = wire ++ take n (drop c a) })
  unfolding complete_err write_callback_err deref_node copy_node
  sent_all c n wire h = rw (le→ltb (min n (length (drop c a)) + c) (length a) h) refl

  idles :
      (ns : List ℕ) (nodes : List Node) (p : Option ℕ) (wire : List ℕ)
      → run (map completes ns) (record { nodes = nodes; send_node = p; ops = []; wire = wire })
        ≡ ok (record { nodes = nodes; send_node = p; ops = []; wire = wire })
  unfolding run step complete_err
  idles [] nodes p wire = refl
  idles (n ∷ ns) nodes p wire = idles ns nodes p wire

  runs :
      (ns : List ℕ) (c : ℕ) (wire : List ℕ)
      → c ≤ length a
      → wire ++ drop c a ≡ a
      → Sends (run (map completes ns) (sending c wire))
  unfolding run step
  runs [] c wire l e = (_, refl, ap (λ r. wire ++ r) (append-nil (drop c a)) ∙ e)
  runs (n ∷ ns) c wire l e =
      let k = min n (length (drop c a)) in
      elim (Bool-cases (ltb (k + c) (length a))) [
        | inl t ↦
            let h = ltb→lt (k + c) (length a) t in
            rw (sent_on c n wire l h) (
              runs ns (c + k) (wire ++ take n (drop c a)) (omega (arith, h)) (
                append_assoc wire (take n (drop c a)) (drop (c + k) a)
                ∙ ap (λ r. wire ++ (take n (drop c a) ++ r)) (drop-add c k a)
                ∙ ap (λ r. wire ++ r) (take-min-drop n (drop c a))
                ∙ e))
        | inr t ↦
            let h = ltb→le (k + c) (length a) t in
            let whole : take n (drop c a) ≡ drop c a =
              take_past n (drop c a) (omega (arith, h, length-drop c a)) in
            rw
              (
                sent_all c n wire h,
                idles ns (sending c wire).nodes (some 0) (wire ++ take n (drop c a)),
              )
              (_, refl, append-nil (wire ++ take n (drop c a)) ∙ ap (λ r. wire ++ r) whole ∙ e)
      ]

  -- When one message is written, and however its operations are cut short: no handler fails, and the
  -- bytes that the socket has taken and those of the operation under way, if there is one, are the
  -- message.
  pub run-single : (ns : List ℕ) → Sends (run (asks a ∷ map completes ns) nothing_sent)
  unfolding run step write_to_socket_err copy_node
  run-single ns = runs ns 0 [] (omega arith) refl
