-- ===== src/Algorithms/PartialSum/Sequential.antt =====
-- The parallel partial sums of Concurrent/day21-ParallenAlgorithm are those of `std::partial_sum`.
use boost_net_programing.Base.{
  ℕ, ◌<◌, ◌≡◌, refl, sym, ap, ap₂, ◌∙◌, Option, none, some, List, [], ◌∷◌, ◌++◌, map, ok, length,
  arith, All,
}
use mathlib.Core.List.{map-append}
use boost_net_programing.Algorithms.Blocks.{blocks}
use boost_net_programing.Algorithms.Blocks.Cover.{concat, IsFilled, concat-blocks, blocks-IsFilled}
use boost_net_programing.Algorithms.PartialSum.{
  Addition, split_last, sums, partial_sum, add_previous, process_chunk, process_chunks,
  parallel_partial_sum,
}

-- A list that is not empty has a last element.
split_last-Splits {ℓ} :
    {A : Type ℓ} (x : A) (xs : List A)
    → (front : List A) × (last : A) × (split_last (x ∷ xs) ≡ ok (front, last))
      × (x ∷ xs ≡ front ++ last ∷ [])
unfolding split_last
split_last-Splits x [] = ([], x, refl, refl)
split_last-Splits x (y ∷ xs) =
    let (front, last, e, f) = split_last-Splits y xs in
    (x ∷ front, last, rw e refl, ap (λ l. x ∷ l) f)

module _ {ℓ} {A : Type ℓ} (add : Addition A) where
  open add use {plus, plus_assoc, plus_comm}

  -- The sums of a block that follows `previous`.
  abbrev sums_after : Option A → List A → List A
  sums_after none b = partial_sum add b
  sums_after (some a) b = sums add a b

  map-sums :
      (a acc : A) (xs : List A)
      → map (λ item. plus item a) (sums add acc xs) ≡ sums add (plus a acc) xs
  map-sums a acc [] = refl
  map-sums a acc (x ∷ xs) =
      let e : plus (plus acc x) a ≡ plus (plus a acc) x =
        plus_comm (plus acc x) a ∙ sym (plus_assoc a acc x) in
      rw (e) (
        ap (λ l. plus (plus a acc) x ∷ l)
          (map-sums a (plus acc x) xs ∙ ap (λ s. sums add s xs) (plus_comm a (plus acc x) ∙ e)))

  map-partial_sum :
      (a : A) (b : List A) → map (λ item. plus item a) (partial_sum add b) ≡ sums add a b
  map-partial_sum a [] = refl
  map-partial_sum a (x ∷ xs) = ap₂ (λ h t. h ∷ t) (plus_comm x a) (map-sums a x xs)

  last_or : A → List A → A
  last_or d [] = d
  last_or d (x ∷ xs) = last_or x xs

  last_or-append : (d last : A) (front : List A) → last_or d (front ++ last ∷ []) ≡ last
  unfolding last_or
  last_or-append d last [] = refl
  last_or-append d last (x ∷ front) = last_or-append x last front

  sums-append :
      (acc : A) (xs r : List A)
      → sums add acc (xs ++ r) ≡ sums add acc xs ++ sums add (last_or acc (sums add acc xs)) r
  unfolding last_or
  sums-append acc [] r = refl
  sums-append acc (x ∷ xs) r = ap (λ l. plus acc x ∷ l) (sums-append (plus acc x) xs r)

  -- What a chunk computes, and what follows it.
  abbrev Adds : Option A → List A → Type ℓ
  Adds previous b =
      (last : A) × (process_chunk add b previous ≡ ok (sums_after previous b, last))
      × ((r : List A) → sums_after previous (b ++ r) ≡ sums_after previous b ++ sums add last r)

  process_chunk-Adds : (previous : Option A) (b : List A) → 0 < length b → Adds previous b
  unfolding process_chunk add_previous last_or
  process_chunk-Adds previous [] h = absurd (omega arith)
  process_chunk-Adds none (x ∷ xs) h =
      let (front, last, e, f) = split_last-Splits x (sums add x xs) in
      let ends : last_or x (sums add x xs) ≡ last =
        ap (last_or x) f ∙ last_or-append x last front in
      (
        last,
        rw (e, f) refl,
        λ r. ap (λ l. x ∷ l) (sums-append x xs r ∙ ap (λ a. sums add x xs ++ sums add a r) ends),
      )
  process_chunk-Adds (some a) (x ∷ xs) h =
      let (front, last, e, f) = split_last-Splits x (sums add x xs) in
      let whole : sums add a (x ∷ xs) ≡ map (λ item. plus item a) front ++ plus last a ∷ [] =
        sym (map-partial_sum a (x ∷ xs))
        ∙ ap (map (λ item. plus item a)) f
        ∙ map-append (λ item. plus item a) front (last ∷ []) in
      let ends : last_or a (sums add a (x ∷ xs)) ≡ plus last a =
        ap (last_or a) whole ∙ last_or-append a (plus last a) (map (λ item. plus item a) front) in
      (
        plus last a,
        rw e (ap (λ l. ok (l, plus last a)) (sym whole)),
        λ r. sums-append a (x ∷ xs) r ∙ ap (λ s. sums add a (x ∷ xs) ++ sums add s r) ends,
      )

  process_chunks-sums :
      (bs : List (List A)) (previous : Option A)
      → All IsFilled bs
      → process_chunks add bs previous ≡ ok (sums_after previous (concat bs))
  unfolding process_chunks
  process_chunks-sums [] none h = refl
  process_chunks-sums [] (some a) h = refl
  process_chunks-sums (b ∷ bs) previous h =
      let (last, e, f) = process_chunk-Adds previous b h.0 in
      rw (e, process_chunks-sums bs (some last) h.1) (ap ok (sym (f (concat bs))))

  -- With any number of hardware threads, 0 included, the parallel sums are those of
  -- `std::partial_sum`, and no block is empty, where addition is associative and commutative.
  pub parallel_partial_sum-eq-partial_sum :
      (hardware : ℕ) (xs : List A) → parallel_partial_sum add hardware xs ≡ ok (partial_sum add xs)
  unfolding parallel_partial_sum
  parallel_partial_sum-eq-partial_sum hardware [] = refl
  parallel_partial_sum-eq-partial_sum hardware (x ∷ xs) =
      process_chunks-sums (blocks hardware (x ∷ xs)) none
        (blocks-IsFilled hardware (x ∷ xs) (omega arith))
      ∙ ap (λ l. ok (partial_sum add l)) (concat-blocks hardware (x ∷ xs))
