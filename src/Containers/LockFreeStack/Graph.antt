-- ===== src/Containers/LockFreeStack/Graph.antt =====
-- Who has the nodes of LockFreeStack.h, and how their links run.
use boost_net_programing.Base.{
  ℕ, ◌+◌, ◌*◌, ◌≡◌, ◌≢◌, sym, ap, ◌∙◌, Bool-cases, inl, inr, Option, none, some, if◌then◌else◌,
  ◌==◌, eq_of_==, arith,
}

-- The owners as numbers: nobody, the stack, the pending list, and for each thread the node it works
-- on and the list it took.
abbrev pub stack_list : ℕ
stack_list = 1

abbrev pub pending_list : ℕ
pending_list = 2

abbrev pub hand : ℕ → ℕ
hand t = 2 * t + 3

abbrev pub list : ℕ → ℕ
list t = 2 * t + 4

unfoldable pub upd {ℓ} : {B : Type ℓ} → ℕ → B → (ℕ → B) → ℕ → B
upd i b f j = if j == i then b else f j

-- The owner of what `p` has becomes `q`.
unfoldable pub retag : ℕ → ℕ → (ℕ → ℕ) → ℕ → ℕ
retag p q own i = if own i == p then q else own i

-- A link stays with one owner, no two are to the same node, and memory that nobody has does not link.
pub record Graph (own : ℕ → ℕ) (nx : ℕ → Option ℕ) : Type 0 where
  pub closed : (i k : ℕ) → nx i ≡ some k → own i ≡ own k
  pub inj : (i j k : ℕ) → nx i ≡ some k → nx j ≡ some k → i ≡ j
  pub blank : (i : ℕ) → own i ≡ 0 → nx i ≡ none

-- No link to `k`, and none from `i`.
abbrev pub First : (ℕ → ℕ) → (ℕ → Option ℕ) → ℕ → Option ℕ → Type 0
First own nx p o = (k : ℕ) → o ≡ some k → (own k ≡ p) × ((i : ℕ) → nx i ≢ some k)

-- A node by itself.
abbrev pub Lone : (ℕ → Option ℕ) → ℕ → Type 0
Lone nx h = (nx h ≡ none) × ((i : ℕ) → nx i ≢ some h)

pub retag-Graph :
    (own : ℕ → ℕ) (nx : ℕ → Option ℕ) (p q : ℕ) → q ≢ 0 → Graph own nx → Graph (retag p q own) nx
unfolding retag
retag-Graph own nx p q d g = record {
  closed = λ i k e. ap (λ o. if o == p then q else o) (g.closed i k e);
  inj = g.inj;
  blank = λ i e. g.blank i (grind arith);
}

pub own-Graph :
    (own : ℕ → ℕ) (nx : ℕ → Option ℕ) (h v : ℕ) → Lone nx h → Graph own nx → Graph (upd h v own) nx
unfolding upd
own-Graph own nx h v (a, b) g = record {
  closed = λ i k e. grind arith;
  inj = g.inj;
  blank = λ i e. grind arith;
}

pub cut-Graph : (own : ℕ → ℕ) (nx : ℕ → Option ℕ) (h : ℕ) → Graph own nx → Graph own (upd h none nx)
unfolding upd
cut-Graph own nx h g = record {
  closed = λ i k e. grind arith;
  inj = λ i j k e f. grind arith;
  blank = λ i e. grind arith;
}

pub link-Graph :
    (own : ℕ → ℕ) (nx : ℕ → Option ℕ) (l q : ℕ) (o : Option ℕ)
    → own l ≡ q
    → q ≢ 0
    → First own nx q o
    → Graph own nx
    → Graph own (upd l o nx)
unfolding upd
link-Graph own nx l q o e d f g = record {
  closed = λ i k b. grind arith;
  inj = λ i j k b c. elim (Bool-cases (i == l)) [
    | inl x ↦ elim (Bool-cases (j == l)) [
      | inl y ↦ eq_of_== i l x ∙ sym (eq_of_== j l y)
      | inr y ↦ grind (arith, f k, x, y)
    ]
    | inr x ↦ elim (Bool-cases (j == l)) [
      | inl y ↦ grind (arith, f k, x, y)
      | inr y ↦ grind (arith, g.inj i j k, x, y)
    ]
  ];
  blank = λ i z. elim (Bool-cases (i == l)) [
    | inl x ↦ absurd (d (sym e ∙ ap own (sym (eq_of_== i l x)) ∙ z))
    | inr x ↦ rw x (g.blank i z)
  ];
}

pub First-agree :
    (own own' : ℕ → ℕ) (nx nx' : ℕ → Option ℕ) (p : ℕ) (o : Option ℕ)
    → ((k : ℕ) → own k ≡ p → own' k ≡ p)
    → ((i k : ℕ) → own k ≡ p → nx' i ≡ some k → nx i ≡ some k)
    → First own nx p o
    → First own' nx' p o
First-agree own own' nx nx' p o a b f k e = let (x, y) = f k e in (a k x, λ i z. y i (b i k x z))
