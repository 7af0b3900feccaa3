-- ===== src/Opt/Lower/Ready/Total.antt =====
-- What operators of src/opt.rs have in common: they reserve their registers, and take their values into them.
use mf.Prelude.{
  ℕ, suc, ◌+◌, ◌-◌, ◌≤◌, arith, List, [], ◌∷◌, Option, none, some, Option-cases, inl, inr,
}
use mf.Opt.Tok.{Bin}
use mf.Opt.Lower.Code.{Instr}
use mf.Opt.Lower.{Loc, reg, Low, M, ◌>>=◌, ◌>>◌, push, pop}
use mf.Opt.Lower.Registers.{reserve, ensure, freer, to_reg}
use mf.Opt.Lower.Operators.{imm_form, emit_form, imm_bin_to, or_else}
use mf.Opt.Lower.Ready.{Returns, bind, Ready}
use mf.Opt.Lower.Ready.Steps.{
  Deep, cost, weaken, freer-Deep, push-Deep, ensure-Deep, to_reg-Deep, swap_held, pop_two-Deep,
}
use mf.Opt.Lower.Ready.Reserve.{reserve-Ready}

-- Between two tokens: every used register is tracked, and no local is pinned.
abbrev pub IsLow : Low → Type 0
IsLow low = Ready 0 [] low

-- The operator returns, to such a state.
abbrev pub Total : M (Unit {0}) → Type 0
Total op = (low : Low) → IsLow low → Returns (op low) (λ _ low'. IsLow low')

pub Deep-IsLow : (k n : ℕ) (low : Low) → Deep k n [] low → IsLow low
Deep-IsLow k n low ((free, tracked, pins), deep) = (omega arith, tracked, pins)

-- `reserve` and `ensure` in front of an operator.
pub reserved :
    (n k : ℕ) (body : M (Unit {0}))
    → k ≤ n
    → n ≤ 7
    → ((low : Low) → Deep k (n - k) [] low → Returns (body low) (λ _ low'. IsLow low'))
    → Total (reserve n >> (ensure k >> body))
reserved n k body le small h low start =
    bind (reserve n) (λ _. ensure k >> body) (λ _ low'. Ready n [] low') _ low
      (reserve-Ready n low small start)
      (λ a low1 (free, tracked, pins).
        bind (ensure k) (λ _. body) (λ _ low'. Deep k (n - k) [] low') _ low1
          (ensure-Deep k (n - k) [] low1 (omega (arith, free, le), tracked, pins))
          (λ b low2 g. h low2 g))

pub less : (k n m : ℕ) (held : List Loc) (low : Low) → m ≤ n → Deep k n held low → Deep k m held low
less k n m held low le ((free, tracked, pins), deep) =
    ((omega (arith, free, le), tracked, pins), deep)

-- Two operands in registers, of which one holds the result.
pub two_regs :
    (a b : Loc) (i : ℕ → ℕ → M (Unit {0})) (low : Low)
    → ((ra rb : ℕ) (low' : Low)
        → Deep 0 0 (reg ra ∷ reg rb ∷ []) low'
        → Returns (i ra rb low') (λ _ low''. Deep 0 0 (reg rb ∷ reg ra ∷ []) low''))
    → Deep 0 (cost b + cost a) (a ∷ b ∷ []) low
    → Returns
        ((to_reg a >>= λ ra. to_reg b >>= λ rb. i ra rb >> (freer rb >> push (reg ra))) low)
        (λ _ low'. IsLow low')
two_regs a b i low step h =
    bind (to_reg a) _ (λ ra low'. Deep 0 (cost b) (reg ra ∷ b ∷ []) low') (λ _ low'. IsLow low') low
      (to_reg-Deep 0 (cost b) a (b ∷ []) low h)
      (λ ra low1 h1.
        bind (to_reg b) _ (λ rb low'. Deep 0 0 (reg rb ∷ reg ra ∷ []) low') (λ _ low'. IsLow low')
          low1
          (to_reg-Deep 0 0 b (reg ra ∷ []) low1 (
            less 0 (cost b) (0 + cost b) (b ∷ reg ra ∷ []) low1 (omega arith)
              (swap_held 0 (cost b) (reg ra) b [] low1 h1)))
          (λ rb low2 h2.
            bind (i ra rb) _ (λ _ low'. Deep 0 0 (reg rb ∷ reg ra ∷ []) low') (λ _ low'. IsLow low')
              low2 (step ra rb low2 (swap_held 0 0 (reg rb) (reg ra) [] low2 h2))
              (λ c low3 h3.
                bind (freer rb) (λ _. push (reg ra)) (λ _ low'. Deep 0 0 (reg ra ∷ []) low')
                  (λ _ low'. IsLow low') low3 (freer-Deep 0 0 rb (reg ra ∷ []) low3 h3)
                  (λ d low4 h4.
                    weaken (push (reg ra) low4) (λ _ low'. Deep 1 0 [] low') (λ _ low'. IsLow low')
                      (push-Deep 0 0 (reg ra) [] low4 h4) (λ e low5 h5. Deep-IsLow 1 0 low5 h5)))))

-- A value that is held goes on the virtual stack at the end.
pub push-IsLow :
    (k n : ℕ) (l : Loc) (low : Low)
    → Deep k n (l ∷ []) low
    → Returns (push l low) (λ _ low'. IsLow low')
push-IsLow k n l low h =
    weaken (push l low) (λ _ low'. Deep (suc k) n [] low') (λ _ low'. IsLow low')
      (push-Deep k n l [] low h) (λ e low' g. Deep-IsLow (suc k) n low' g)

-- An immediate form, or what stands in for it.
pub or_else-IsLow :
    (op : Bin) (c r n : ℕ) (other : M (Unit {0})) (low : Low)
    → Deep 0 n (reg r ∷ []) low
    → ((low' : Low) → Deep 0 n (reg r ∷ []) low' → Returns (other low') (λ _ low''. IsLow low''))
    → Returns (or_else (imm_bin_to (reg r) op c) other low) (λ _ low'. IsLow low')
unfolding imm_bin_to to_reg
or_else-IsLow op c r n other low h f = elim (Option-cases (imm_form op c 0)) [
  | inl e ↦ rw (e, imm_bin_to) (f low h)
  | inr (i, e) ↦ rw (e, imm_bin_to) (emitted (imm_form op c r))
]
  where
    emitted :
        (form : Option Instr)
        → Returns (or_else (emit_form form r) other low) (λ _ low'. IsLow low')
    emitted none = f low h
    emitted (some j) = push-IsLow 0 n (reg r) (record low { out = j ∷ low.out }) h

-- An operator of two values.
pub two_values :
    (n : ℕ) (f : Loc → Loc → M (Unit {0}))
    → 3 ≤ n
    → n ≤ 7
    → ((a b : Loc) (low : Low)
        → Deep 0 1 (a ∷ b ∷ []) low
        → Returns (f a b low) (λ _ low'. IsLow low'))
    → Total (reserve n >> (ensure 2 >> (pop >>= λ b. pop >>= λ a. f a b)))
two_values n f h k body =
    reserved n 2 (pop >>= λ b. pop >>= λ a. f a b) (omega arith) k
      (λ low ((free, tracked, pins), deep).
        pop_two-Deep f 1 low (λ _ low'. IsLow low') ((omega (arith, free, h), tracked, pins), deep)
          body)
