-- ===== src/Base/Buffers.antt =====
-- `char` buffers and `memcpy` between them, with what may go wrong as values, and 16-bit `short`s.
use boost_net_programing.Base.Tests.{ltb, leb, if◌then◌else◌, le→leb}
use boost_net_programing.Base.Lists.{
  length, take, drop, replicate, length-append, length-take, length-drop,
}
use Prim.Native.Nat.{ℕ, zero, suc, ◌+◌, ◌-◌, ◌*◌, ◌/◌, ◌%◌, ◌≤◌}
use mathlib.Core.Path.{◌≡◌, refl, ap}
use mathlib.Core.Bool.{Bool, false}
use mathlib.Core.List.{List, [], ◌∷◌, ◌++◌}
use native.Mathlib.Omega.{arith}

-- `threw`: a C++ exception; `underrun`: a write at index -1 of a new buffer; `fault`: any other
-- read or write outside a buffer, a negative count, or a null dereference.
pub data Result {ℓ} (A : Type ℓ) : Type ℓ where
  ok : A → Result A
  threw : Result A
  underrun : Result A
  fault : Result A

infixl 5 ◌>>=◌
abbrev pub ◌>>=◌ {ℓ κ} : {A : Type ℓ} {B : Type κ} → Result A → (A → Result B) → Result B
ok a >>= f = f a
threw >>= f = threw
underrun >>= f = underrun
fault >>= f = fault

-- `n` bytes of `src` from offset `off`, as `memcpy` and `async_write` read them.
abbrev pub read_at : List ℕ → ℕ → ℕ → Result (List ℕ)
read_at src off n = if leb (off + n) (length src) then ok (take n (drop off src)) else fault

-- The bytes `xs` over those of `dst` from offset `off` on, as `memcpy` writes them.
abbrev pub write_at : List ℕ → ℕ → List ℕ → Result (List ℕ)
write_at dst off xs =
    if leb (off + length xs) (length dst)
    then ok (take off dst ++ (xs ++ drop (off + length xs) dst))
    else fault

-- `a - b` as the count of a `memcpy`, where a negative one reads and writes out of bounds.
abbrev pub count_sub : ℕ → ℕ → Result ℕ
count_sub a b = if leb b a then ok (a - b) else fault

-- A `short` is its bit pattern.
abbrev pub short : ℕ → ℕ
short n = n % 65536

abbrev pub is_negative : ℕ → Bool
is_negative v = leb 32768 v

-- `v > limit` on shorts, for a `limit` that is not negative
abbrev pub short_gt : ℕ → ℕ → Bool
short_gt v limit = if is_negative v then false else ltb limit v

-- The two bytes of a `short` in memory, low byte first, and back.
abbrev pub store_short : ℕ → List ℕ
store_short v = (v % 256) ∷ (v / 256) ∷ []

abbrev pub load_short : List ℕ → ℕ
load_short [] = 0
load_short (a ∷ []) = 0
load_short (a ∷ b ∷ r) = a + 256 * b

module _ {ℓ} {A : Type ℓ} where
  pub take-append : (xs ys : List A) → take (length xs) (xs ++ ys) ≡ xs
  take-append [] ys = refl
  take-append (x ∷ xs) ys = ap (λ r. x ∷ r) (take-append xs ys)

  pub take-all : (xs : List A) → take (length xs) xs ≡ xs
  take-all [] = refl
  take-all (x ∷ xs) = ap (λ r. x ∷ r) (take-all xs)

  pub drop-append : (xs ys : List A) → drop (length xs) (xs ++ ys) ≡ ys
  drop-append [] ys = refl
  drop-append (x ∷ xs) ys = drop-append xs ys

  pub take-append-drop : (n : ℕ) (xs : List A) → take n xs ++ drop n xs ≡ xs
  take-append-drop zero xs = refl
  take-append-drop (suc n) [] = refl
  take-append-drop (suc n) (x ∷ xs) = ap (λ r. x ∷ r) (take-append-drop n xs)

pub length-store_short : (v : ℕ) → length (store_short v) ≡ 2
length-store_short v = refl

pub load_short-store_short : (v : ℕ) (r : List ℕ) → load_short (store_short v ++ r) ≡ v
load_short-store_short v r = omega arith

-- A read of a whole prefix.
pub read_at_here :
    (pre xs post : List ℕ) → read_at (pre ++ (xs ++ post)) (length pre) (length xs) ≡ ok xs
read_at_here pre xs post =
    rw (drop-append pre (xs ++ post), take-append xs post)
      (ground (arith, length-append pre (xs ++ post), length-append xs post))

-- A read inside the buffer returns as many bytes as were asked for.
pub read_at_total :
    (src : List ℕ) (off n : ℕ)
    → off + n ≤ length src
    → (xs : List ℕ) × (read_at src off n ≡ ok xs) × (length xs ≡ n)
read_at_total src off n h = (
  take n (drop off src),
  ground arith,
  omega (arith, length-take n (drop off src), length-drop off src),
)

-- A write inside the buffer succeeds and keeps the buffer's length.
pub write_at_total :
    (dst : List ℕ) (off : ℕ) (xs : List ℕ)
    → off + length xs ≤ length dst
    → (r : List ℕ) × (write_at dst off xs ≡ ok r) × (length r ≡ length dst)
write_at_total dst off xs h = (
  take off dst ++ (xs ++ drop (off + length xs) dst),
  ground arith,
  omega (
    arith,
    length-append (take off dst) (xs ++ drop (off + length xs) dst),
    length-append xs (drop (off + length xs) dst),
    length-take off dst,
    length-drop (off + length xs) dst,
  ),
)

-- A write right behind a prefix.
pub write_at_here :
    (xs ys zs : List ℕ)
    → length ys ≤ length zs
    → write_at (xs ++ zs) (length xs) ys ≡ ok (xs ++ (ys ++ drop (length ys) zs))
write_at_here xs ys zs h = rw (
  le→leb (length xs + length ys) (length (xs ++ zs)) (omega (arith, length-append xs zs)),
  take-append xs zs,
  drop-add-append xs ys zs,
)
  where
    drop-add-append :
        (xs ys zs : List ℕ) → drop (length xs + length ys) (xs ++ zs) ≡ drop (length ys) zs
    drop-add-append [] ys zs = let e : 0 + length ys ≡ length ys = omega arith in rw e
    drop-add-append (x ∷ xs) ys zs =
        let e : suc (length xs) + length ys ≡ suc (length xs + length ys) = omega arith in
        rw e (drop-add-append xs ys zs)

pub drop-replicate {ℓ} :
    {A : Type ℓ} (n m : ℕ) (x : A) → drop n (replicate m x) ≡ replicate (m - n) x
drop-replicate zero m x = let e : m - 0 ≡ m = omega arith in rw e
drop-replicate (suc n) zero x = let e : 0 - suc n ≡ 0 = omega arith in rw e
drop-replicate (suc n) (suc m) x =
    let e : suc m - suc n ≡ m - n = omega arith in rw e (drop-replicate n m x)

-- Two splits of one list, the first at or before the second.
pub split_prefix :
    (got bytes front rest : List ℕ)
    → length got ≤ length front
    → got ++ bytes ≡ front ++ rest
    → (q : List ℕ) × (front ≡ got ++ q) × (bytes ≡ q ++ rest)
split_prefix [] bytes front rest h e = (front, refl, e)
split_prefix (x ∷ got) bytes [] rest h e = absurd (omega arith)
split_prefix (x ∷ got) bytes (y ∷ front) rest h e =
    let (q, f, b) = split_prefix got bytes front rest (omega arith) (cc) in (q, cc, b)

-- A step that succeeds, and what follows it.
pub >>=-ok {ℓ κ} :
    {A : Type ℓ} {B : Type κ} {m : Result A} {a : A} (f : A → Result B) {r : Result B}
    → m ≡ ok a
    → f a ≡ r
    → (m >>= f) ≡ r
>>=-ok f e h = rw e h
