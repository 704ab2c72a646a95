-- ===== src/AsycApi/Reads/Bounds.antt =====
-- The reads of Network/asycApi/src/Session.cpp stay in their buffer.
use boost_net_programing.Base.{
  ℕ, ◌+◌, ◌-◌, ◌<◌, ◌≡◌, refl, ◌∙◌, Bool, true, false, Option, none, some, List, [], ◌∷◌, Result,
  ok, threw, underrun, fault, ◌>>=◌, ltb, ltb→lt, take, length, count_sub, write_at_total,
  length-take, length-replicate, arith, Bool-cases, inl, inr,
}
use boost_net_programing.AsycApi.Node.{Node, blank_node}
use boost_net_programing.AsycApi.Reads.{
  recv_size, Handler, read_callback, read_all_callback, Reads, begin_read, read_with,
  read_from_socket, read_all_from_socket, handle_read, arrive, complete_read, Event, reads_some,
  reads_all, brings, step, run, not_reading,
}

-- A node of RECVSIZE bytes with room left, as long as its array.
pub record HasRoom (m : Node) : Type 0 where
  pub whole : length m.msg ≡ m.total_len
  pub size : m.total_len ≡ recv_size
  pub room : m.cur_len < m.total_len

-- While a read is under way it has the rest of the node for its buffer; else there is no node.
abbrev pub Reading : Option Node → Bool → List (Handler × ℕ) → Type 0
Reading none false [] = Unit
Reading (some m) true ((h, room) ∷ []) = (room ≡ m.total_len - m.cur_len) × HasRoom m
Reading _ _ _ = ⊥

abbrev pub ReadsValid : Result Reads → Type 0
ReadsValid (ok r) = Reading r.recv_node r.recv_pending r.reads
ReadsValid _ = ⊥

abbrev reader : Option Node → Bool → List (Handler × ℕ) → Reads
reader m p ops = record { recv_node = m; recv_pending = p; reads = ops }

begun :
    (h : Handler) (m : Node) (old : Option Node)
    → HasRoom m
    → ReadsValid (begin_read h m (reader old true []))
unfolding begin_read
begun h m old v =
    let counted : count_sub m.total_len m.cur_len ≡ ok (m.total_len - m.cur_len) =
      ground (arith, v.room) in
    rw counted (refl, v)

started :
    (h : Handler) (m : Option Node) (p : Bool) (ops : List (Handler × ℕ))
    → Reading m p ops
    → ReadsValid (read_with h (reader m p ops))
unfolding read_with blank_node
started h none false [] v =
    begun h (blank_node recv_size) none
      (record { whole = length-replicate {A = ℕ} recv_size 0; size = refl; room = omega arith })
started h (some m) true (o ∷ []) v = v
started h none false (o ∷ ops) v = absurd v
started h none true ops v = absurd v
started h (some m) false ops v = absurd v
started h (some m) true [] v = absurd v
started h (some m) true (o ∷ o' ∷ ops) v = absurd v

arrived :
    (bytes : List ℕ) (m : Option Node) (p : Bool) (ops : List (Handler × ℕ))
    → Reading m p ops
    → ReadsValid (complete_read ops bytes (reader m p ops))
unfolding complete_read arrive handle_read
arrived bytes none false [] v = tt
arrived bytes (some m) true ((read_all_callback, room) ∷ []) v =
    let (msg, e, l) =
      write_at_total m.msg m.cur_len (take room bytes)
        (omega (arith, length-take room bytes, v.0, v.1.whole, v.1.room)) in
    rw e tt
arrived bytes (some m) true ((read_callback, room) ∷ []) v =
    let (msg, e, l) =
      write_at_total m.msg m.cur_len (take room bytes)
        (omega (arith, length-take room bytes, v.0, v.1.whole, v.1.room)) in
    rw e (elim (Bool-cases (ltb (m.cur_len + length (take room bytes)) m.total_len)) [
      | inl t ↦ rw t (
          begun read_callback
            (record m { msg = msg; cur_len = m.cur_len + length (take room bytes) }) (some m)
            (record { whole = l ∙ v.1.whole; size = v.1.size; room = ltb→lt _ _ t }))
      | inr t ↦ rw t tt
    ])
arrived bytes none false (o ∷ ops) v = absurd v
arrived bytes none true ops v = absurd v
arrived bytes (some m) false ops v = absurd v
arrived bytes (some m) true [] v = absurd v
arrived bytes (some m) true (o ∷ o' ∷ ops) v = absurd v

stepped :
    (e : Event) (r : Reads) → Reading r.recv_node r.recv_pending r.reads → ReadsValid (step e r)
unfolding step read_from_socket read_all_from_socket
stepped reads_some r v = started read_callback r.recv_node r.recv_pending r.reads v
stepped reads_all r v = started read_all_callback r.recv_node r.recv_pending r.reads v
stepped (brings bytes) r v = arrived bytes r.recv_node r.recv_pending r.reads v

followed :
    (r : Result Reads) (rest : Reads → Result Reads)
    → ReadsValid r
    → ((t : Reads) → Reading t.recv_node t.recv_pending t.reads → ReadsValid (rest t))
    → ReadsValid (r >>= rest)
followed (ok r) rest v h = h r v
followed threw rest v h = v
followed underrun rest v h = v
followed fault rest v h = v

run-ReadsValid :
    (es : List Event) (r : Reads)
    → Reading r.recv_node r.recv_pending r.reads
    → ReadsValid (run es r)
unfolding run
run-ReadsValid [] r v = v
run-ReadsValid (e ∷ es) r v = followed (step e r) (run es) (stepped e r v) (run-ReadsValid es)

-- In any order of calls and arrivals, the errors included: no byte is written outside the node, a
-- read is under way exactly while there is one, into the rest of its RECVSIZE bytes, of which there
-- is at least one.
pub run-not_reading-ReadsValid : (es : List Event) → ReadsValid (run es not_reading)
run-not_reading-ReadsValid es = run-ReadsValid es not_reading tt
