-- ===== src/AsyncServer/Session/Stream.antt =====
-- What one call of `HandleRead` makes of a chunk of whole frames and part of a header, the first
-- frame's header perhaps begun in an earlier chunk.
use boost_net_programing.Base.{
  ℕ, zero, suc, ◌+◌, ◌-◌, ◌*◌, ◌<◌, ◌≡◌, refl, sym, ap, ◌∙◌, List, [], ◌∷◌, ◌++◌, false, some, ◌⊎◌,
  ◌==◌, length, drop, replicate, map, Result, ok, short, arith, append-nil, append_assoc,
  length-append, length-replicate, drop-replicate, split_prefix, >>=-ok, All, subst, inl, inr,
}
use boost_net_programing.AsyncServer.MsgNode.{max_length, ByteOrder, frame}
use boost_net_programing.AsyncServer.Session.Steps.{step-head_part, loop-leave, loop-again}
use boost_net_programing.AsyncServer.Session.{
  Rx, Outcome, reading, leave, rearm, next_round, append_bytes, head_part, step, loop, handle_read,
  receive, inbox,
}
use boost_net_programing.AsyncServer.Session.Bodies.{
  held_head, Holds, posted_state, append_bytes-here,
}
use boost_net_programing.AsyncServer.Session.Frames.{
  Fits, header, step-frame, inbox-posted, Holds-posted,
}

-- The end of a chunk: the state with the bytes `got` of a header, and `_data` zeroed.
abbrev waiting : Rx → List ℕ → Rx
waiting s got = record s { head = held_head got; recv_buf = replicate max_length 0 }

Nat-cases : (n : ℕ) → (n ≡ 0) ⊎ (0 < n)
Nat-cases zero = inl refl
Nat-cases (suc n) = inr (omega arith)

regroup :
    (q body rest behind : List ℕ)
    → (q ++ (body ++ rest)) ++ behind ≡ q ++ (body ++ (rest ++ behind))
regroup q body rest behind = simp append_assoc

regroup' : (before q body l : List ℕ) → before ++ (q ++ (body ++ l)) ≡ (before ++ (q ++ body)) ++ l
regroup' before q body l = simp append_assoc

module _ (o : ByteOrder) where
  -- The messages `msgs` as bytes of the stream.
  abbrev pub wires : List (ℕ × List ℕ) → List ℕ
  wires [] = []
  wires (m ∷ ms) = frame o m.0 m.1 ++ wires ms

  module _ (s : Rx) (got before bytes behind : List ℕ) (h : Holds s got)
      (few : length got + length bytes < 4) (rb : s.recv_buf ≡ before ++ (bytes ++ behind)) where
    step-part :
        step o s (length before) (length bytes) ≡ ok (leave reading (waiting s (got ++ bytes)))
    unfolding head_part rearm
    step-part =
        step-head_part o s (length before) (length bytes) h.not_parsed (omega (arith, cur))
        ∙ >>=-ok _ copied (rw (length-append got bytes, cur, total, wrap))
      where
        cur : s.head.cur_len ≡ length got
        cur = ap (λ h. h.cur_len) h.head_held

        total : s.head.total_len ≡ 4
        total = ap (λ h. h.total_len) h.head_held

        wrap : short (length got + length bytes) ≡ length got + length bytes
        wrap = omega arith

        left : 5 - length got - length bytes ≡ 5 - (length got + length bytes)
        left = omega arith

        copied :
            append_bytes s.head s.recv_buf (length before) (length bytes)
            ≡ ok ((got ++ bytes) ++ replicate (5 - (length got + length bytes)) 0)
        copied = rw (
          rb,
          append_bytes-here s.head before bytes behind got (replicate (5 - length got) 0)
              (ap (λ h. h.buf) h.head_held) cur
              (omega (arith, length-replicate {A = ℕ} (5 - length got) 0)),
          drop-replicate {A = ℕ} (length bytes) (5 - length got) 0,
          left,
          append_assoc,
        )

    Holds-waiting : Holds (waiting s (got ++ bytes)) (got ++ bytes)
    Holds-waiting = record { head_held = refl; not_parsed = h.not_parsed; in_heap = h.in_heap }

  wires-nothing :
      (ms : List (ℕ × List ℕ)) (tail : List ℕ)
      → length (wires ms ++ tail) ≡ 0
      → (ms ≡ []) × (tail ≡ [])
  wires-nothing [] [] e = (refl, refl)
  wires-nothing [] (x ∷ tail) e = absurd (omega arith)
  wires-nothing (m ∷ ms) tail e = absurd (omega arith)

  -- What the loop has done with `msgs` when it stops.
  abbrev Done : List (ℕ × List ℕ) → List ℕ → Rx → Result (Outcome × Rx) → Type 0
  Done msgs tail s r =
      (s' : Rx) × (r ≡ ok (reading, s')) × Holds s' tail × (inbox s' ≡ inbox s ++ map some msgs)

  Done-cons :
      (id : ℕ) (body : List ℕ) (ms : List (ℕ × List ℕ)) (tail : List ℕ) (s : Rx)
      (r : Result (Outcome × Rx))
      → All (λ p. p < length s.heap) s.posted
      → Done ms tail (posted_state s id body) r
      → Done ((id, body) ∷ ms) tail s r
  Done-cons id body ms tail s r inh (s', e, h, i) = (
    s',
    e,
    h,
    i
        ∙ ap (λ l. l ++ map some ms) (inbox-posted s id body inh)
        ∙ append_assoc (inbox s) (some (id, body) ∷ []) (map some ms),
  )

  -- The loop behind a frame.
  module _ (f : ℕ) (s s' : Rx) (copy_len n c : ℕ) (ms : List (ℕ × List ℕ)) (tail : List ℕ)
      (pos : 0 < n) (h : Holds s' [])
      (st : step o s copy_len n ≡ ok (next_round s' c (length (wires ms ++ tail)))) where
    after-last : length (wires ms ++ tail) ≡ 0 → Done ms tail s' (loop o (suc f) s copy_len n)
    unfolding next_round rearm
    after-last e =
        let (m, t) = wires-nothing ms tail e in
        (
          record s' { recv_buf = replicate max_length 0 },
          loop-leave o f s _ copy_len n reading pos (st ∙ rw e),
          record {
            head_held = h.head_held ∙ ap held_head (sym t);
            not_parsed = h.not_parsed;
            in_heap = h.in_heap;
          },
          sym (append-nil (inbox s')) ∙ ap (λ l. inbox s' ++ map some l) (sym m),
        )

    after-more :
        0 < length (wires ms ++ tail)
        → Done ms tail s' (loop o f s' c (length (wires ms ++ tail)))
        → Done ms tail s' (loop o (suc f) s copy_len n)
    unfolding next_round
    after-more more (t, e, d, i) =
        let ne : (length (wires ms ++ tail) == 0) ≡ false = ground arith in
        (t, loop-again o f s s' copy_len n c (length (wires ms ++ tail)) pos (st ∙ rw ne) ∙ e, d, i)

  -- The loop on a chunk whose unread part is `bytes`.
  rounds :
      (msgs : List (ℕ × List ℕ)) (fuel : ℕ) (s : Rx) (got before bytes behind tail : List ℕ)
      → Holds s got
      → length got < 4
      → length tail < 4
      → All (Fits o) msgs
      → got ++ bytes ≡ wires msgs ++ tail
      → s.recv_buf ≡ before ++ (bytes ++ behind)
      → 0 < length bytes
      → length bytes < fuel
      → (s' : Rx) × (loop o fuel s (length before) (length bytes) ≡ ok (reading, s'))
        × Holds s' tail
        × (inbox s' ≡ inbox s ++ map some msgs)
  rounds msgs zero s got before bytes behind tail h hg ht fits e rb pos fuel = absurd (omega arith)
  rounds [] (suc f) s got before bytes behind tail h hg ht fits e rb pos fuel =
      let few : length got + length bytes < 4 =
        omega (arith, ap length e, length-append got bytes) in
      (
        waiting s (got ++ bytes),
        loop-leave o f s _ (length before) (length bytes) reading pos
            (step-part s got before bytes behind h few rb),
        subst (λ t. Holds (waiting s (got ++ bytes)) t) e
            (Holds-waiting s got before bytes behind h few rb),
        sym (append-nil (inbox s)),
      )
  rounds ((id, body) ∷ ms) (suc f) s got before bytes behind tail h hg ht fits e rb pos fuel =
      let rest : List ℕ = wires ms ++ tail in
      let (q, cut, b) =
        split_prefix got bytes (header o id (length body)) (body ++ rest) (omega arith)
          (e ∙ ap (λ l. header o id (length body) ++ l) (append_assoc body (wires ms) tail)) in
      let front : List ℕ = before ++ (q ++ body) in
      let at : length before + length q + length body ≡ length front =
        omega (arith, length-append before (q ++ body), length-append q body) in
      let count : length bytes ≡ length q + length body + length rest =
        omega (arith, ap length b, length-append q (body ++ rest), length-append body rest) in
      let taken : 0 < length q = omega (arith, ap length cut, length-append got q) in
      let st =
        step-frame o s id got q before body (rest ++ behind) (length bytes) (length rest) h hg
          fits.0.id_fits fits.0.body_fits cut
          (rb ∙ ap (λ l. before ++ l) (ap (λ l. l ++ behind) b ∙ regroup q body rest behind)) count
        ∙ ap (λ k. ok (next_round (posted_state s id body) k (length rest))) at in
      let h' = Holds-posted s id body h.in_heap in
      Done-cons id body ms tail s _ h.in_heap (elim (Nat-cases (length rest)) [
        | inl none_left ↦
            after-last f s _ (length before) (length bytes) (length front) ms tail pos h' st
              none_left
        | inr more ↦
            after-more f s _ (length before) (length bytes) (length front) ms tail pos h' st more (
              rounds ms f (posted_state s id body) [] front rest behind tail h' (omega arith) ht
                fits.1 refl
                (rb
                  ∙ ap (λ l. before ++ l) (ap (λ l. l ++ behind) b ∙ regroup q body rest behind)
                  ∙ regroup' before q body (rest ++ behind))
                more (omega (arith, count, taken)))
      ])

  -- `HandleRead` posts the messages that the chunk completes, in order, each with its id and its
  -- whole body, keeps what it has of the next header, and reads on.
  pub receive-frames :
      (msgs : List (ℕ × List ℕ)) (s : Rx) (got bytes tail : List ℕ)
      → Holds s got
      → length got < 4
      → length tail < 4
      → All (Fits o) msgs
      → got ++ bytes ≡ wires msgs ++ tail
      → 0 < length bytes
      → (s' : Rx) × (receive o s bytes ≡ ok (reading, s'))
        × Holds s' tail
        × (inbox s' ≡ inbox s ++ map some msgs)
  unfolding receive handle_read
  receive-frames msgs s got bytes tail h hg ht fits e pos =
      rounds msgs (2 * length bytes + 2)
        (record s { recv_buf = bytes ++ drop (length bytes) s.recv_buf }) got [] bytes
        (drop (length bytes) s.recv_buf) tail
        (record { head_held = h.head_held; not_parsed = h.not_parsed; in_heap = h.in_heap }) hg ht
        fits e refl pos (omega arith)
