-- ===== src/Containers/LookupTable/Bucket.antt =====
-- Single buckets of the table of Concurrent/day15-threadsafehash.
use boost_net_programing.Base.{
  ◌≡◌, refl, sym, ap, ◌∙◌, true, false, Option, none, some, List, [], ◌∷◌, if◌then◌else◌, arith,
  Bool-cases, inl, inr,
}
use boost_net_programing.Containers.LookupTable.{Key, find, bucket_add, bucket_remove, map_insert}

module _ {ℓ} {K : Type ℓ} (key : Key K) where
  -- Equal keys are equal to the same keys.
  like : (i k j : K) → key.same i k ≡ true → key.same i j ≡ key.same k j
  like i k j e = ap (λ l. key.same l j) (key.same_eq i k e)

  other : (i k : K) → key.same i k ≡ false → key.same k i ≡ false
  other i k e = elim (Bool-cases (key.same k i)) [
    | inl f ↦
        ap (λ l. key.same l i) (key.same_eq k i f)
        ∙ ap (λ l. key.same i l) (sym (key.same_eq k i f))
        ∙ e
    | inr f ↦ f
  ]

-- The entry that comes first counts.
abbrev pub or_else {κ} : {V : Type κ} → Option V → Option V → Option V
or_else (some v) o = some v
or_else none o = o

pub or_else-none {κ} : {V : Type κ} (o : Option V) → or_else o none ≡ o
or_else-none none = refl
or_else-none (some v) = refl

module _ {ℓ κ} {K : Type ℓ} {V : Type κ} (key : Key K) where
  -- No key has two entries.
  abbrev pub Unique : List (K × V) → Type κ
  Unique [] = Unit
  Unique ((k, v) ∷ b) = (find key k b ≡ none) × Unique b

  find_same : (i j : K) (b : List (K × V)) → key.same i j ≡ true → find key i b ≡ find key j b
  find_same i j b e = ap (λ k. find key k b) (key.same_eq i j e)

  pub find-bucket_add :
      (j k : K) (v : V) (b : List (K × V))
      → find key j (bucket_add key k v b) ≡ (if key.same k j then some v else find key j b)
  unfolding find bucket_add
  find-bucket_add j k v [] = refl
  find-bucket_add j k v ((i, w) ∷ b) =
      ground (
        arith,
        like key i k j,
        like key i j k,
        other key j k,
        other key i k,
        find-bucket_add j k v b,
      )

  pub bucket_add-Unique :
      (k : K) (v : V) (b : List (K × V)) → Unique b → Unique (bucket_add key k v b)
  unfolding find bucket_add
  bucket_add-Unique k v [] u = (refl, tt)
  bucket_add-Unique k v ((i, w) ∷ b) u = elim (Bool-cases (key.same i k)) [
    | inl e ↦ rw e u
    | inr e ↦ rw e (find-bucket_add i k v b ∙ rw (other key i k e) u.0, bucket_add-Unique k v b u.1)
  ]

  pub find-bucket_remove :
      (j k : K) (b : List (K × V))
      → Unique b
      → find key j (bucket_remove key k b) ≡ (if key.same k j then none else find key j b)
  unfolding find bucket_remove
  find-bucket_remove j k [] u = ground arith
  find-bucket_remove j k ((i, w) ∷ b) u = ground (
    arith,
    like key i k j,
    like key i j k,
    other key j k,
    u.0,
    find_same i j b,
    find-bucket_remove j k b u.1,
  )

  pub bucket_remove-Unique : (k : K) (b : List (K × V)) → Unique b → Unique (bucket_remove key k b)
  unfolding find bucket_remove
  bucket_remove-Unique k [] u = tt
  bucket_remove-Unique k ((i, w) ∷ b) u = elim (Bool-cases (key.same i k)) [
    | inl e ↦ rw e u.1
    | inr e ↦
        rw e (find-bucket_remove i k b u.1 ∙ rw (other key i k e) u.0, bucket_remove-Unique k b u.1)
  ]

  pub find-map_insert :
      (j k : K) (v : V) (m : List (K × V))
      → find key j (map_insert key k v m)
        ≡ or_else (find key j m) (if key.same k j then some v else none)
  unfolding find map_insert
  find-map_insert j k v [] = refl
  find-map_insert j k v ((i, w) ∷ m) = ground (
    arith,
    like key i k j,
    like key i j k,
    other key j k,
    other key i k,
    find-map_insert j k v m,
    or_else-none (find key j m),
  )
