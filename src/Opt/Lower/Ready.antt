-- ===== src/Opt/Lower/Ready.antt =====
-- The lowering of src/opt.rs does not run out of registers: what holds between the steps of an
-- operator, and how each step of the register allocation changes it.
pub mod Steps
pub mod Settling
pub mod Reserve
pub mod Total
pub mod Binary
pub mod Single
pub mod Motion
pub mod Runs
use mf.Prelude.{
  ℕ, zero, suc, ◌+◌, ◌-◌, ◌≤◌, ◌<◌, ◌==◌, ◌≡◌, refl, arith, Bool, true, false, ◌||◌, List, [], ◌∷◌,
  ◌++◌, Option, none, some, length, if◌then◌else◌, Bool-cases, inl, inr,
}
use mf.Opt.Lower.{Loc, const, reg, Low, M, ◌>>=◌, mark}
use mf.Opt.Lower.Registers.{pool, free_in, find_free, nfree}

-- The result is no panic, and has a property.
abbrev pub Returns : {A : Type 0} → Option (A × Low) → (A → Low → Type 0) → Type 0
Returns none Q = ⊥
Returns (some (a, low)) Q = Q a low

pub bind :
    {A B : Type 0} (f : M A) (k : A → M B) (Q : A → Low → Type 0) (R : B → Low → Type 0) (low : Low)
    → Returns (f low) Q
    → ((a : A) (low' : Low) → Q a low' → Returns (k a low') R)
    → Returns ((f >>= k) low) R
bind {A} {B} f k Q R low h step = go (f low) h
  where
    go :
        (r : Option (A × Low))
        → Returns r Q
        → Returns (elim r [ none ↦ none | some (a, low') ↦ k a low' ]) R
    go none q = absurd q
    go (some (a, low')) q = step a low' q

abbrev pub has : ℕ → List Loc → Bool
has q [] = false
has q (const n ∷ vs) = has q vs
has q (reg r ∷ vs) = q == r || has q vs

abbrev pub has_cell : ℕ → List (ℕ × ℕ) → Bool
has_cell q [] = false
has_cell q ((a, r) ∷ cells) = q == r || has_cell q cells

abbrev pub has_local : ℕ → List (ℕ × ℕ × Bool) → Bool
has_local q [] = false
has_local q ((i, r, dirty) ∷ cached) = q == r || has_local q cached

-- A used register stands in the virtual stack, in a cache, or among those that the operator holds.
abbrev pub Tracked : List Loc → Low → Type 0
Tracked held low =
    (q : ℕ)
    → low.used q ≡ true
    → (has q held || has q low.vs || has_cell q low.cell_cache || has_local q low.lcache) ≡ true

-- At least n registers are free, every used one is tracked, and no local is pinned.
abbrev pub Ready : ℕ → List Loc → Low → Type 0
Ready n held low = (n ≤ nfree low) × Tracked held low × (low.ipins ≡ [])

abbrev Sorted : ℕ → List ℕ → Type 0
Sorted b [] = Unit
Sorted b (x ∷ xs) = (b < x) × Sorted x xs

free_in-mark :
    (used : ℕ → Bool) (t : Bool) (r b : ℕ) (rs : List ℕ)
    → r ≤ b
    → Sorted b rs
    → free_in (mark r t used) rs ≡ free_in used rs
unfolding free_in
free_in-mark used t r b [] h s = refl
free_in-mark used t r b (x ∷ rs) h (p, s) = ground (arith, free_in-mark used t r x rs)

-- The register found, and that it leaves one less.
find_free_above :
    (used : ℕ → Bool) (b : ℕ) (rs : List ℕ)
    → Sorted b rs
    → 0 < free_in used rs
    → (r : ℕ) × (find_free used rs ≡ some r)
      × (b < r)
      × (free_in (mark r true used) rs + 1 ≡ free_in used rs)
unfolding free_in find_free
find_free_above used b [] s h = absurd (omega arith)
find_free_above used b (x ∷ rs) (p, s) h = elim (Bool-cases (used x)) [
  | inl t ↦
      let (r, e, q, n) = find_free_above used x rs s (ground arith) in
      (r, rw t e, omega (arith, p, q), rw t (ground (arith, n, q)))
  | inr f ↦ (x, rw f refl, p, rw f (ground (arith, free_in-mark used true x x rs)))
]

pub find_free_lem :
    (used : ℕ → Bool)
    → 0 < free_in used pool
    → (r : ℕ) × (find_free used pool ≡ some r)
      × (free_in (mark r true used) pool + 1 ≡ free_in used pool)
find_free_lem used h = let (r, e, p, n) = find_free_above used 0 pool (omega arith) h in (r, e, n)

-- Freeing a register leaves no less.
pub free_in-mark_le :
    (used : ℕ → Bool) (r : ℕ) (rs : List ℕ) → free_in used rs ≤ free_in (mark r false used) rs
unfolding free_in
free_in-mark_le used r [] = omega arith
free_in-mark_le used r (x ∷ rs) = ground (arith, free_in-mark_le used r rs)
