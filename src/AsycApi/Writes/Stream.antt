-- ===== src/AsycApi/Writes/Stream.antt =====
-- The queue of Network/asycApi/src/Session.cpp, while an operation runs on the copy at its front.
use boost_net_programing.Base.{
  ℕ, ◌+◌, ◌-◌, ◌≤◌, ◌≡◌, refl, sym, ap, ◌∙◌, Bool, true, false, List, [], ◌∷◌, ◌++◌, Result, ok,
  >>=-ok, ltb, ltb→lt, ltb→le, take, drop, min, length, length-drop, count_sub, read_at, drop-add,
  drop_past, take_past, take-min-drop, append-nil, append_assoc, arith, All, All-append, Bool-cases,
  inl, inr, subst,
}
use boost_net_programing.AsycApi.Node.{Node, copy_node, rest_buffer}
use boost_net_programing.AsycApi.Writes.{
  Handler, write_callback, write_all_callback, Writes, begin, write_to_socket, write_front,
  front_written, handle, complete,
}

-- What of a node is still to be written.
abbrev pub left : Node → List ℕ
left d = drop d.cur_len d.msg

abbrev pub unsent : List Node → List ℕ
unsent [] = []
unsent (d ∷ q) = left d ++ unsent q

pub record Filled (d : Node) : Type 0 where
  pub whole : length d.msg ≡ d.total_len
  pub within : d.cur_len ≤ d.total_len

-- The fields of a session that writes: an operation is under way exactly while the queue is not
-- empty, under `WriteCallback`, on what is left of the front.
abbrev pub Flow : List Node → Bool → List (Handler × List ℕ) → Type 0
Flow [] false [] = Unit
Flow (d ∷ q) true ((write_callback, bytes) ∷ []) = (bytes ≡ left d) × Filled d × All Filled q
Flow _ _ _ = ⊥

abbrev pub Flows : Writes → Type 0
Flows w = Flow w.send_queue w.send_pending w.ops

-- All that was asked for, as far as the session shows it.
abbrev pub stream : Writes → List ℕ
stream w = w.wire ++ unsent w.send_queue

abbrev pub writes : List Node → Bool → List (Handler × List ℕ) → List ℕ → Writes
writes q p ops wire = record { send_queue = q; send_pending = p; ops = ops; wire = wire }

-- A result that is valid and shows the bytes `l`.
abbrev pub Shows : List ℕ → Result Writes → Type 0
Shows l (ok w) = Flows w × (stream w ≡ l)
Shows l _ = ⊥

pub unsent-append : (q r : List Node) → unsent (q ++ r) ≡ unsent q ++ unsent r
unsent-append [] r = refl
unsent-append (d ∷ q) r = rw (unsent-append q r) (sym (append_assoc (left d) (unsent q) (unsent r)))

rest_buffer_left : (d : Node) → Filled d → rest_buffer d ≡ ok (left d)
unfolding rest_buffer
rest_buffer_left d f =
    let counted : count_sub d.total_len d.cur_len ≡ ok (d.total_len - d.cur_len) =
      ground (arith, f.within) in
    let read : read_at d.msg d.cur_len (d.total_len - d.cur_len)
        ≡ ok (take (d.total_len - d.cur_len) (left d)) =
      ground (arith, f.within, f.whole) in
    >>=-ok _ counted (
      read
      ∙ ap ok (
          take_past (d.total_len - d.cur_len) (left d)
            (omega (arith, f.whole, length-drop d.cur_len d.msg))))

pub copy_node-Filled : (buf : List ℕ) → Filled (copy_node buf)
unfolding copy_node
copy_node-Filled buf = record { whole = refl; within = omega arith }

-- A message is queued behind others.
pub queued :
    (freed : List ℕ → List ℕ) (buf : List ℕ) (d : Node) (q : List Node) (bytes wire : List ℕ)
    → Flow (d ∷ q) true ((write_callback, bytes) ∷ [])
    → Shows
        ((wire ++ unsent (d ∷ q)) ++ buf)
        (ok (write_to_socket freed buf (writes (d ∷ q) true ((write_callback, bytes) ∷ []) wire)))
unfolding write_to_socket copy_node
queued freed buf d q bytes wire f = (
  (f.0, f.1, All-append Filled q _ f.2 (copy_node-Filled buf, tt)),
  simp (unsent-append, append-nil, append_assoc),
)

-- The next node is taken up as it stands.
fronted :
    (q old : List Node) (wire : List ℕ)
    → All Filled q
    → Shows (wire ++ unsent q) (write_front q (writes old true [] wire))
unfolding write_front begin
fronted [] old wire f = (tt, refl)
fronted (d ∷ q) old wire f = rw (rest_buffer_left d f.0) ((refl, f.0, f.1), refl)

-- The front was written up to `k` bytes further.
pub advanced :
    (d : Node) (q : List Node) (k : ℕ) (wire : List ℕ)
    → Filled d
    → All Filled q
    → k ≤ length (left d)
    → Shows
        (wire ++ (drop k (left d) ++ unsent q))
        (front_written (d ∷ q) k (writes (d ∷ q) true [] wire))
unfolding front_written begin
advanced d q k wire f fs h = elim (Bool-cases (ltb (d.cur_len + k) d.total_len)) [
  | inl e ↦
      let lt = ltb→lt (d.cur_len + k) d.total_len e in
      let further : Filled (record d { cur_len = d.cur_len + k }) = record {
        whole = f.whole;
        within = omega arith;
      } in
      rw (e, rest_buffer_left (record d { cur_len = d.cur_len + k }) further)
        ((refl, further, fs), ap (λ l. wire ++ (l ++ unsent q)) (drop-add d.cur_len k d.msg))
  | inr e ↦
      let done : drop k (left d) ≡ [] =
        sym (drop-add d.cur_len k d.msg)
        ∙ drop_past (d.cur_len + k) d.msg
            (omega (arith, f.whole, ltb→le (d.cur_len + k) d.total_len e)) in
      rw (e, done) (fronted q (d ∷ q) wire fs)
]

-- An operation that takes at most `n` bytes completes.
pub completed :
    (n : ℕ) (q : List Node) (p : Bool) (ops : List (Handler × List ℕ)) (wire : List ℕ)
    → Flow q p ops
    → Shows (wire ++ unsent q) (complete ops false n (writes q p ops wire))
unfolding complete handle
completed n [] false [] wire f = (tt, refl)
completed n (d ∷ q) true ((write_callback, b) ∷ []) wire f = rw (f.0) (
    subst
      (λ l. Shows l (
        front_written (d ∷ q) (min n (length (left d)))
          (writes (d ∷ q) true [] (wire ++ take n (left d)))))
      (append_assoc wire (take n (left d)) _
        ∙ ap (λ l. wire ++ l)
            (sym (append_assoc (take n (left d)) _ (unsent q))
              ∙ ap (λ l. l ++ unsent q) (take-min-drop n (left d))))
      (advanced d q (min n (length (left d))) (wire ++ take n (left d)) (f.1) (f.2) (omega arith)))
completed n [] false (o ∷ ops) wire f = absurd f
completed n [] true ops wire f = absurd f
completed n (d ∷ q) false ops wire f = absurd f
completed n (d ∷ q) true [] wire f = absurd f
completed n (d ∷ q) true ((write_all_callback, b) ∷ ops) wire f = absurd f
completed n (d ∷ q) true ((write_callback, b) ∷ o ∷ ops) wire f = absurd f
