-- ===== src/Containers/LookupTable.antt =====
-- Concurrent/day15-threadsafehash/threadsafetable.h: a hash table of buckets, each a list under its
-- own lock. Every operation holds the lock of the bucket it reads or writes from start to end, so
-- that its effect is the one written here; `get_map` holds all locks.
pub mod Bucket
pub mod Laws
pub mod Snapshot
pub mod Runs
mod Tests
use boost_net_programing.Base.{
  ℕ, zero, suc, ◌+◌, ◌%◌, ◌≡◌, Bool, true, false, Option, none, some, List, [], ◌∷◌, ◌++◌,
  if◌then◌else◌, ◌==◌, get_elem?, set, replicate, length, Result, ok, fault, threw, underrun, ◌>>=◌,
}

-- `std::hash<Key>` and `==` on keys, with what the table relies on.
pub record Key {ℓ} (K : Type ℓ) : Type ℓ where
  pub hash : K → ℕ
  pub same : K → K → Bool
  pub same_refl : (k : K) → same k k ≡ true
  pub same_eq : (j k : K) → same j k ≡ true → j ≡ k

-- The second arm of `value_for` and its first.
unfoldable pub or_default {κ} : {V : Type κ} → V → Option V → V
or_default d none = d
or_default d (some v) = v

module _ {ℓ κ} {K : Type ℓ} {V : Type κ} (key : Key K) where
  -- `find_entry_for`, and the value of the entry.
  unfoldable pub find : K → List (K × V) → Option V
  find k [] = none
  find k ((j, w) ∷ b) = if key.same j k then some w else find k b

  -- The three operations of `bucket_type`.
  unfoldable pub bucket_value_for : K → V → List (K × V) → V
  bucket_value_for k d b = or_default d (find k b)

  unfoldable pub bucket_add : K → V → List (K × V) → List (K × V)
  bucket_add k v [] = (k, v) ∷ []
  bucket_add k v ((j, w) ∷ b) = if key.same j k then (j, v) ∷ b else (j, w) ∷ bucket_add k v b

  unfoldable pub bucket_remove : K → List (K × V) → List (K × V)
  bucket_remove k [] = []
  bucket_remove k ((j, w) ∷ b) = if key.same j k then b else (j, w) ∷ bucket_remove k b

  -- `get_bucket`, by its index; with no buckets the remainder divides by zero.
  unfoldable pub bucket_index : K → List (List (K × V)) → Result ℕ
  bucket_index k t = if length t == 0 then fault else ok (key.hash k % length t)

  unfoldable pub bucket_at : ℕ → List (List (K × V)) → Result (List (K × V))
  bucket_at i t = elim (get_elem? t i) [ none ↦ fault | some b ↦ ok b ]

  -- The operations of `threadsafe_lookup_table`, whose state is `buckets`.
  unfoldable pub make_table : ℕ → List (List (K × V))
  make_table num_buckets = replicate num_buckets []

  unfoldable pub value_for : K → V → List (List (K × V)) → Result V
  value_for k d t = do i ← bucket_index k t; b ← bucket_at i t; ok (bucket_value_for k d b)

  unfoldable pub add_or_update_mapping : K → V → List (List (K × V)) → Result (List (List (K × V)))
  add_or_update_mapping k v t = do
    i ← bucket_index k t
    b ← bucket_at i t
    ok (set t i (bucket_add k v b))

  unfoldable pub remove_mapping : K → List (List (K × V)) → Result (List (List (K × V)))
  remove_mapping k t = do i ← bucket_index k t; b ← bucket_at i t; ok (set t i (bucket_remove k b))

  -- `std::map::insert`, on the map as an association list: an entry that is there stays.
  unfoldable pub map_insert : K → V → List (K × V) → List (K × V)
  map_insert k v [] = (k, v) ∷ []
  map_insert k v ((j, w) ∷ m) = if key.same j k then (j, w) ∷ m else (j, w) ∷ map_insert k v m

  unfoldable pub insert_all : List (K × V) → List (K × V) → List (K × V)
  insert_all [] m = m
  insert_all ((k, v) ∷ b) m = insert_all b (map_insert k v m)

  unfoldable pub collect : List (List (K × V)) → List (K × V) → List (K × V)
  collect [] m = m
  collect (b ∷ bs) m = collect bs (insert_all b m)

  unfoldable pub get_map : List (List (K × V)) → List (K × V)
  get_map t = collect t []
