-- ===== src/Containers/LookupTable/Runs.antt =====
-- Sequences of calls of the hash table in Concurrent/day15-threadsafehash/threadsafetable.h; each call
-- holds the lock of its bucket throughout.
use boost_net_programing.Base.{
  ℕ, ◌≡◌, ◌<◌, refl, Option, none, some, List, [], ◌∷◌, if◌then◌else◌, Result, ok, ◌>>=◌,
}
use boost_net_programing.Containers.LookupTable.{
  Key, find, or_default, make_table, value_for, add_or_update_mapping, remove_mapping, get_map,
}
use boost_net_programing.Containers.LookupTable.Laws.{
  Represents, make_table-Represents, add_or_update_mapping-Represents, remove_mapping-Represents,
  value_for-Represents,
}
use boost_net_programing.Containers.LookupTable.Snapshot.{find-get_map}

pub data Call {ℓ κ} (K : Type ℓ) (V : Type κ) : Type (ℓ ⊔ κ) where
  adds : K → V → Call K V
  removes : K → Call K V
  asks : K → V → Call K V

module _ {ℓ κ} {K : Type ℓ} {V : Type κ} (key : Key K) where
  -- The calls one after the other, with the answers of `value_for`.
  unfoldable pub calls :
      List (Call K V) → List (List (K × V)) → Result (List (List (K × V)) × List V)
  calls [] t = ok (t, [])
  calls (adds k v ∷ cs) t = add_or_update_mapping key k v t >>= calls cs
  calls (removes k ∷ cs) t = remove_mapping key k t >>= calls cs
  calls (asks k d ∷ cs) t = value_for key k d t >>= λ v. calls cs t >>= λ r. ok (r.0, v ∷ r.1)

  -- The same calls on a finite map.
  abbrev pub map_after : List (Call K V) → (K → Option V) → K → Option V
  map_after [] f = f
  map_after (adds k v ∷ cs) f = map_after cs (λ j. if key.same k j then some v else f j)
  map_after (removes k ∷ cs) f = map_after cs (λ j. if key.same k j then none else f j)
  map_after (asks k d ∷ cs) f = map_after cs f

  abbrev pub answers : List (Call K V) → (K → Option V) → List V
  answers [] f = []
  answers (adds k v ∷ cs) f = answers cs (λ j. if key.same k j then some v else f j)
  answers (removes k ∷ cs) f = answers cs (λ j. if key.same k j then none else f j)
  answers (asks k d ∷ cs) f = or_default d (f k) ∷ answers cs f

  calls-Represents :
      (cs : List (Call K V)) (t : List (List (K × V))) (f : K → Option V)
      → Represents key t f
      → (t' : List (List (K × V))) × (calls cs t ≡ ok (t', answers cs f))
        × Represents key t' (map_after cs f)
  unfolding calls
  calls-Represents [] t f r = (t, refl, r)
  calls-Represents (adds k v ∷ cs) t f r =
      let (u, e, p) = add_or_update_mapping-Represents key t f r k v in
      rw e (calls-Represents cs u _ p)
  calls-Represents (removes k ∷ cs) t f r =
      let (u, e, p) = remove_mapping-Represents key t f r k in rw e (calls-Represents cs u _ p)
  calls-Represents (asks k d ∷ cs) t f r =
      let (u, e, p) = calls-Represents cs t f r in
      (u, rw (value_for-Represents key t f r k d, e) refl, p)

  -- Any sequence of `add_or_update_mapping`, `remove_mapping` and `value_for` on a new table with at
  -- least one bucket goes through, is answered as a finite map answers it, and leaves a table of which
  -- `get_map` copies out that map.
  pub calls-make_table :
      (n : ℕ) (cs : List (Call K V))
      → 0 < n
      → (t : List (List (K × V))) × (calls cs (make_table key n) ≡ ok (t, answers cs (λ _. none)))
        × ((k : K) → find key k (get_map key t) ≡ map_after cs (λ _. none) k)
  calls-make_table n cs h =
      let (t, e, r) =
        calls-Represents cs (make_table key n) (λ _. none) (make_table-Represents key n h) in
      (t, e, find-get_map key t (map_after cs (λ _. none)) r)
