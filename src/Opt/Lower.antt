-- ===== src/Opt/Lower.antt =====
-- The lowering of src/opt.rs: `Low`, the virtual stack of the data stack, with the caches of locals and
-- cells. The code is a list of instructions, which `words` turns into what the source pushes. A
-- vector that is used as a stack, and `out`, stand with their last element first, a hash map is a list of
-- its entries in the order in which they drain, and the set of used registers is a function. A panic of
-- the source (`alloc` with no free register, `unwrap` of an empty stack) is `none`. The floating-point
-- half of `Low` is left out.
pub mod Code
pub mod Registers
pub mod Words
pub mod Operators
pub mod Locals
pub mod Run
pub mod Ready
pub mod Panics
use mf.Prelude.{
  ℕ, ◌+◌, ◌-◌, ◌*◌, ◌==◌, max, Bool, true, false, not, ◌||◌, List, [], ◌∷◌, ◌++◌, Option, none,
  some, if◌then◌else◌,
}
use mf.Opt.Metrics.{Metrics}
use mf.Opt.Lower.Code.{Instr}

-- A value of the virtual stack: a constant that is in no register yet, or a register.
pub data Loc : Type 0 where
  const reg : ℕ → Loc

pub record Low : Type 0 where
  pub out : List Instr
  pub vs : List Loc
  pub used : ℕ → Bool
  -- The cells of the entry stack that were pulled in.
  pub consumed : ℕ
  pub m : Metrics
  pub fetched : List ℕ
  -- Address and register.
  pub cell_cache : List (ℕ × ℕ)
  pub hot_cells : List ℕ
  -- Index, register, and whether the store is still to be done.
  pub lcache : List (ℕ × ℕ × Bool)
  pub hot_locals : List ℕ
  pub ipins : List (ℕ × ℕ)

-- A method on `&mut self`; `none` is a panic.
abbrev pub M : Type 0 → Type 0
M A = Low → Option (A × Low)

abbrev pub ret : {A : Type 0} → A → M A
ret a low = some (a, low)

abbrev pub panic : {A : Type 0} → M A
panic low = none

infixl 5 ◌>>=◌ ◌>>◌
abbrev pub ◌>>=◌ : {A B : Type 0} → M A → (A → M B) → M B
◌>>=◌ f k low = elim (f low) [ none ↦ none | some (a, low') ↦ k a low' ]

abbrev pub ◌>>◌ : {B : Type 0} → M (Unit {0}) → M B → M B
f >> g = f >>= λ _. g

abbrev pub skip : M (Unit {0})
skip low = some (tt, low)

abbrev pub modify : (Low → Low) → M (Unit {0})
modify f low = some (tt, f low)

abbrev pub emit : Instr → M (Unit {0})
emit i = modify (λ low. record low { out = i ∷ low.out })

abbrev pub count : (Metrics → Metrics) → M (Unit {0})
count f = modify (λ low. record low { m = f low.m })

abbrev pub mark : ℕ → Bool → (ℕ → Bool) → ℕ → Bool
mark r b used q = if q == r then b else used q

abbrev pub push : Loc → M (Unit {0})
push l = modify (λ low. record low { vs = l ∷ low.vs })

-- `vs.pop().unwrap()`
abbrev pub pop_loc : List Loc → M Loc
pop_loc [] low = none
pop_loc (l ∷ vs) low = some (l, record low { vs = vs })

unfoldable pub pop : M Loc
pop low = pop_loc low.vs low
