-- ===== src/AsyncServer/Pool/RoundRobin.antt =====
-- `GetIOService` of Network/asyncServer/src/AsioIOServicePool.cpp goes round the contexts.
mod Tests
use native.Mathlib.Nat.{mod-add-mod, mod-eq_of_lt, mod_self}
use boost_net_programing.Base.{
  ℕ, zero, suc, ◌+◌, ◌-◌, ◌%◌, ◌≤◌, ◌<◌, ◌≡◌, ◌≢◌, refl, sym, ap, ◌∙◌, List, [], ◌∷◌, if◌then◌else◌,
  ltb, ◌==◌, ok, lt→ltb, ◌>>=◌, >>=-ok, arith, Bool-cases, inl, inr, true, false, Result,
}
use boost_net_programing.AsyncServer.Pool.{Pool, make_pool, get_io_service, get_io_services}

-- The indices from the `i`-th call on.
abbrev pub turns : ℕ → ℕ → ℕ → List ℕ
turns size i zero = []
turns size i (suc n) = i % size ∷ turns size (i + 1) n

next_turn :
    (size i : ℕ) → 0 < size → (if i % size + 1 == size then 0 else i % size + 1) ≡ (i + 1) % size
next_turn size i pos = elim (Bool-cases (i % size + 1 == size)) [
  | inl e ↦ rw e (sym (sym (mod-add-mod i size 1) ∙ ap (λ k. k % size) (whole e) ∙ mod_self size))
  | inr e ↦ rw e (sym (sym (mod-add-mod i size 1) ∙ mod-eq_of_lt (part e)))
]
  where
    whole : (i % size + 1 == size) ≡ true → i % size + 1 ≡ size
    whole e = ground arith

    part : (i % size + 1 == size) ≡ false → i % size + 1 < size
    part e = let ne : i % size + 1 ≢ size = ground arith in omega arith

get_io_service-turn :
    (size i : ℕ) (p : Pool)
    → 0 < size
    → p.io_services ≡ size
    → p.next_io_service ≡ i % size
    → get_io_service p ≡ ok (i % size, record p { next_io_service = (i + 1) % size })
unfolding get_io_service
get_io_service-turn size i p pos s n =
    rw (s, n, lt→ltb (i % size) size (omega arith), next_turn size i pos)

get_io_services-turns :
    (n size i : ℕ) (p : Pool)
    → 0 < size
    → p.io_services ≡ size
    → p.next_io_service ≡ i % size
    → get_io_services n p ≡ ok (turns size i n)
unfolding get_io_services
get_io_services-turns zero size i p pos s e = refl
get_io_services-turns (suc n) size i p pos s e = >>=-ok _ (get_io_service-turn size i p pos s e) (
    >>=-ok _
      (get_io_services-turns n size (i + 1) (record p { next_io_service = (i + 1) % size }) pos s
        refl)
      refl)

-- With at least one context, the `i`-th call returns context `i` modulo their number: no call
-- reads past the vector, and the contexts take turns.
pub round_robin : (n size : ℕ) → 0 < size → get_io_services n (make_pool size) ≡ ok (turns size 0 n)
unfolding make_pool
round_robin n size pos = get_io_services-turns n size 0 (make_pool size) pos refl (omega arith)
