-- ===== src/Containers/LookupTable/Laws.antt =====
-- The hash table of Concurrent/day15-threadsafehash is a finite map.
use boost_net_programing.Base.{
  ℕ, zero, suc, ◌%◌, ◌<◌, ◌≡◌, ◌≢◌, ◌⊎◌, refl, sym, ap, ◌∙◌, Option, none, some, List, [], ◌∷◌,
  if◌then◌else◌, arith, Bool-cases, inl, inr, get_elem?, set, length, length-set, length-replicate,
  lt_of_get_elem?, subst, get_elem?-set_self, get_elem?-set_ne, ℕ_discrete, ok, replicate,
}
use native.Mathlib.Nat.{mod-lt}
use boost_net_programing.Containers.LookupTable.{
  Key, find, or_default, bucket_value_for, bucket_add, bucket_remove, bucket_index, bucket_at,
  make_table, value_for, add_or_update_mapping, remove_mapping,
}
use boost_net_programing.Containers.LookupTable.Bucket.{
  Unique, find-bucket_add, bucket_add-Unique, find-bucket_remove, bucket_remove-Unique,
}

set_cases {κ} :
    {B : Type κ} (t : List B) (i i' : ℕ) (b b'' : B) (c : B)
    → get_elem? t i ≡ some c
    → get_elem? (set t i b) i' ≡ some b''
    → ((i ≡ i') × (b ≡ b'')) ⊎ ((i ≢ i') × (get_elem? t i' ≡ some b''))
set_cases t i i' b b'' c at e = elim (ℕ_discrete i i') [
  | yes p ↦ inl (
    p,
    (let q : some b ≡ some b'' =
          sym (get_elem?-set_self t i b (lt_of_get_elem? t i at))
          ∙ ap (get_elem? (set t i b)) p
          ∙ e in
        cc),
  )
  | no p ↦ inr (p, sym (get_elem?-set_ne t i i' b p) ∙ e)
]

get_elem?_total {κ} :
    {B : Type κ} (t : List B) (i : ℕ) → i < length t → (b : B) × (get_elem? t i ≡ some b)
get_elem?_total [] i h = absurd (omega arith)
get_elem?_total (b ∷ t) zero h = (b, refl)
get_elem?_total (b ∷ t) (suc i) h = get_elem?_total t i (omega arith)

replicate_at {κ} :
    {B : Type κ} {a : B} (n i : ℕ) (b : B) → get_elem? (replicate n a) i ≡ some b → a ≡ b
replicate_at zero i b e = cc
replicate_at (suc n) zero b e = cc
replicate_at (suc n) (suc i) b e = replicate_at n i b e

module _ {ℓ κ} {K : Type ℓ} {V : Type κ} (key : Key K) where
  -- The table `t` holds the map `f`: there is a bucket, each key has at most one entry in a bucket
  -- and none outside its own, and the entry in its own is that of `f`.
  pub record Represents (t : List (List (K × V))) (f : K → Option V) : Type (ℓ ⊔ κ) where
    pub some_bucket : 0 < length t
    pub unique : (i : ℕ) (b : List (K × V)) → get_elem? t i ≡ some b → Unique key b
    pub placed :
        (i : ℕ) (b : List (K × V)) (k : K)
        → get_elem? t i ≡ some b
        → key.hash k % length t ≢ i
        → find key k b ≡ none
    pub finds :
        (k : K) (b : List (K × V))
        → get_elem? t (key.hash k % length t) ≡ some b
        → find key k b ≡ f k

  -- One bucket is replaced by one that differs at a key of its own.
  update-Represents :
      (t : List (List (K × V))) (f : K → Option V) (k : K) (o : Option V) (b b' : List (K × V))
      → Represents t f
      → get_elem? t (key.hash k % length t) ≡ some b
      → Unique key b'
      → ((j : K) → find key j b' ≡ (if key.same k j then o else find key j b))
      → Represents (set t (key.hash k % length t) b') (λ j. if key.same k j then o else f j)
  update-Represents t f k o b b' r at u e = record {
    some_bucket = rw (length-set t i b') r.some_bucket;
    unique = λ i' c p. elim (set_cases t i i' b' c b at p) [
      | inl (_, q) ↦ subst (Unique key) q u
      | inr (_, q) ↦ r.unique i' c q
    ];
    placed = λ i' c j p far. elim (set_cases t i i' b' c b at p) [
      | inl (s, q) ↦ ap (find key j) (sym q) ∙ e j ∙ elim (Bool-cases (key.same k j)) [
        | inl g ↦
            absurd (far (len j ∙ ap (λ l. key.hash l % length t) (sym (key.same_eq k j g)) ∙ s))
        | inr g ↦ rw g (r.placed i b j at (λ w. far (len j ∙ w ∙ s)))
      ]
      | inr (_, q) ↦ r.placed i' c j q (λ w. far (len j ∙ w))
    ];
    finds = λ j c p.
        elim (set_cases t i (key.hash j % length t) b' c b at
          (ap (get_elem? (set t i b')) (sym (len j)) ∙ p)) [
            | inl (s, q) ↦
                ap (find key j) (sym q)
                ∙ e j
                ∙ ap (λ y. if key.same k j then o else y)
                    (r.finds j b (ap (get_elem? t) (sym s) ∙ at))
            | inr (s, q) ↦ elim (Bool-cases (key.same k j)) [
              | inl g ↦ absurd (s (ap (λ l. key.hash l % length t) (key.same_eq k j g)))
              | inr g ↦ rw g (r.finds j c q)
            ]
          ];
  }
    where
      i : ℕ
      i = key.hash k % length t

      len : (j : K) → key.hash j % length (set t i b') ≡ key.hash j % length t
      len j = ap (λ n. key.hash j % n) (length-set t i b')

  -- What the table does on a key's bucket, once that is found.
  index_ok :
      (t : List (List (K × V))) (f : K → Option V) (k : K)
      → Represents t f
      → bucket_index key k t ≡ ok (key.hash k % length t)
  unfolding bucket_index
  index_ok t f k r = let h : 0 < length t = r.some_bucket in ground arith

  at_ok :
      (t : List (List (K × V))) (i : ℕ) (b : List (K × V))
      → get_elem? t i ≡ some b
      → bucket_at key i t ≡ ok b
  unfolding bucket_at
  at_ok t i b e = rw (bucket_at, e) refl

  pub own_bucket :
      (t : List (List (K × V))) (f : K → Option V) (k : K)
      → Represents t f
      → (b : List (K × V)) × (get_elem? t (key.hash k % length t) ≡ some b)
  own_bucket t f k r = get_elem?_total t (key.hash k % length t) (mod-lt (key.hash k) r.some_bucket)

  module _ (t : List (List (K × V))) (f : K → Option V) (r : Represents t f) where
    -- `value_for` finds the value of the key in the map, or gives the default.
    pub value_for-Represents : (k : K) (d : V) → value_for key k d t ≡ ok (or_default d (f k))
    unfolding value_for bucket_value_for
    value_for-Represents k d =
        let (b, at) = own_bucket t f k r in
        rw (index_ok t f k r, at_ok t (key.hash k % length t) b at, r.finds k b at) refl

    -- `add_or_update_mapping` finds its bucket, and the table then holds the map with the key at the
    -- new value and every other key as it was.
    pub add_or_update_mapping-Represents :
        (k : K) (v : V)
        → (t' : List (List (K × V))) × (add_or_update_mapping key k v t ≡ ok t')
          × Represents t' (λ j. if key.same k j then some v else f j)
    unfolding add_or_update_mapping
    add_or_update_mapping-Represents k v =
        let (b, at) = own_bucket t f k r in
        (
          set t (key.hash k % length t) (bucket_add key k v b),
          rw (index_ok t f k r, at_ok t (key.hash k % length t) b at) refl,
          update-Represents t f k (some v) b (bucket_add key k v b) r at
              (bucket_add-Unique key k v b (r.unique (key.hash k % length t) b at))
              (λ j. find-bucket_add key j k v b),
        )

    -- `remove_mapping` finds its bucket, and the table then holds the map without the key and with
    -- every other key as it was.
    pub remove_mapping-Represents :
        (k : K)
        → (t' : List (List (K × V))) × (remove_mapping key k t ≡ ok t')
          × Represents t' (λ j. if key.same k j then none else f j)
    unfolding remove_mapping
    remove_mapping-Represents k =
        let (b, at) = own_bucket t f k r in
        let u : Unique key b = r.unique (key.hash k % length t) b at in
        (
          set t (key.hash k % length t) (bucket_remove key k b),
          rw (index_ok t f k r, at_ok t (key.hash k % length t) b at) refl,
          update-Represents t f k none b (bucket_remove key k b) r at
              (bucket_remove-Unique key k b u) (λ j. find-bucket_remove key j k b u),
        )

  -- A new table with a bucket holds the empty map.
  pub make_table-Represents : (n : ℕ) → 0 < n → Represents (make_table key n) (λ _. none)
  unfolding make_table find
  make_table-Represents n h = record {
    some_bucket = rw (length-replicate n) h;
    unique = λ i b e. rw (sym (replicate_at n i b e)) tt;
    placed = λ i b k e _. rw (sym (replicate_at n i b e)) refl;
    finds = λ k b e. rw (sym (replicate_at n (key.hash k % length (replicate n [])) b e)) refl;
  }
