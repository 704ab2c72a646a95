-- ===== src/Containers/LookupTable/Snapshot.antt =====
-- `get_map` of the hash table of Concurrent/day15-threadsafehash.
use boost_net_programing.Base.{
  ℕ, zero, suc, ◌%◌, ◌≡◌, ◌≢◌, refl, sym, ap, ◌∙◌, Bool, true, false, Option, none, some, List, [],
  ◌∷◌, if◌then◌else◌, arith, get_elem?, length,
}
use boost_net_programing.Containers.LookupTable.{
  Key, find, map_insert, insert_all, collect, get_map,
}
use boost_net_programing.Containers.LookupTable.Bucket.{or_else, or_else-none, find-map_insert}
use boost_net_programing.Containers.LookupTable.Laws.{Represents, own_bucket}

or_else_assoc {κ} :
    {V : Type κ} (a b c : Option V) → or_else (or_else a b) c ≡ or_else a (or_else b c)
or_else_assoc none b c = refl
or_else_assoc (some v) b c = refl

or_else-if {κ} :
    {V : Type κ} (c : Bool) (v : V) (o : Option V)
    → or_else (if c then some v else none) o ≡ (if c then some v else o)
or_else-if false v o = refl
or_else-if true v o = refl

module _ {ℓ κ} {K : Type ℓ} {V : Type κ} (key : Key K) where
  find-insert_all :
      (j : K) (b m : List (K × V))
      → find key j (insert_all key b m) ≡ or_else (find key j m) (find key j b)
  unfolding insert_all find
  find-insert_all j [] m = sym (or_else-none (find key j m))
  find-insert_all j ((k, v) ∷ b) m =
      find-insert_all j b (map_insert key k v m)
      ∙ rw (find-map_insert key j k v m) (
          or_else_assoc (find key j m) (if key.same k j then some v else none) (find key j b)
          ∙ ap (or_else (find key j m)) (or_else-if (key.same k j) v (find key j b)))

  -- The first bucket that has the key counts.
  abbrev first : K → List (List (K × V)) → Option V
  first j [] = none
  first j (b ∷ bs) = or_else (find key j b) (first j bs)

  find-collect :
      (j : K) (bs : List (List (K × V))) (m : List (K × V))
      → find key j (collect key bs m) ≡ or_else (find key j m) (first j bs)
  unfolding collect
  find-collect j [] m = sym (or_else-none (find key j m))
  find-collect j (b ∷ bs) m =
      find-collect j bs (insert_all key b m)
      ∙ rw (find-insert_all j b m) (or_else_assoc (find key j m) (find key j b) (first j bs))

  first-none :
      (j : K) (bs : List (List (K × V)))
      → ((i : ℕ) (b : List (K × V)) → get_elem? bs i ≡ some b → find key j b ≡ none)
      → first j bs ≡ none
  first-none j [] h = refl
  first-none j (b ∷ bs) h = rw (h 0 b refl) (first-none j bs (λ i. h (suc i)))

  first_only :
      (j : K) (bs : List (List (K × V))) (i : ℕ) (b : List (K × V))
      → get_elem? bs i ≡ some b
      → ((i' : ℕ) (b' : List (K × V)) → get_elem? bs i' ≡ some b' → i ≢ i' → find key j b' ≡ none)
      → first j bs ≡ find key j b
  first_only j [] i b e h = cc
  first_only j (c ∷ bs) zero b e h =
      ap (or_else (find key j c)) (first-none j bs (λ i' b' p. h (suc i') b' p (λ q. ground arith)))
      ∙ or_else-none (find key j c)
      ∙ ap (find key j) (let q : c ≡ b = cc in q)
  first_only j (c ∷ bs) (suc i) b e h =
      rw (h 0 c refl (λ q. ground arith))
        (first_only j bs i b e (λ i' b' p ne. h (suc i') b' p (λ q. ne (omega (arith, q)))))

  -- The map that `get_map` copies out, all buckets being locked, is the one that the table holds.
  pub find-get_map :
      (t : List (List (K × V))) (f : K → Option V)
      → Represents key t f
      → (k : K) → find key k (get_map key t) ≡ f k
  unfolding get_map find
  find-get_map t f r k =
      let (b, at) = own_bucket key t f k r in
      find-collect k t []
      ∙ first_only k t (key.hash k % length t) b at (λ i' b' p ne. r.placed i' b' k p ne)
      ∙ r.finds k b at
