-- ===== src/Opt/Lower/Ready/Single.antt =====
-- The operators of one value in src/opt.rs, and the comparisons, do not panic.
use mf.Prelude.{
  ℕ, ◌-◌, ◌≤◌, ◌==◌, ◌≢◌, refl, arith, [], ◌∷◌, Option, none, some, if◌then◌else◌, Bool-cases, inl,
  inr,
}
use mf.Opt.Tok.{Bin, Sh, Cmp}
use mf.Opt.Eval.{bin_eval, sh_eval_imm, cmp_eval_zero}
use mf.Opt.Lower.Code.{Instr}
use mf.Opt.Lower.{Loc, const, reg, Low, M, ◌>>=◌, ◌>>◌, push, pop}
use mf.Opt.Lower.Registers.{reserve, ensure, alloc, freer, to_reg}
use mf.Opt.Lower.Operators.{
  imm_bin_loc, imm_bin, imm_shift_loc, imm_shift, dup_bin_loc, dup_bin, dup_shift_bin_loc,
  dup_shift_bin, cmp_zero, zero_cond, cmp_locs, cmp,
}
use mf.Opt.Lower.Ready.{Returns, bind}
use mf.Opt.Lower.Ready.Steps.{Deep, weaken, alloc-Deep, freer-Deep, pop-Deep}
use mf.Opt.Lower.Ready.Total.{IsLow, Total, reserved, push-IsLow, or_else-IsLow, two_values}
use mf.Opt.Lower.Ready.Binary.{cmp_locs-IsLow}

-- An operator of one value.
one_value :
    (n : ℕ) (f : Loc → M (Unit {0}))
    → 1 ≤ n
    → n ≤ 7
    → ((a : Loc) (low : Low)
        → Deep 0 (n - 1) (a ∷ []) low
        → Returns (f a low) (λ _ low'. IsLow low'))
    → Total (reserve n >> (ensure 1 >> (pop >>= f)))
one_value n f h k body = reserved n 1 (pop >>= f) h k (λ low deep.
    bind pop f (λ a low'. Deep 0 (n - 1) (a ∷ []) low') (λ _ low'. IsLow low') low
      (pop-Deep 0 (n - 1) [] low deep) (λ a low' g. body a low' g))

imm_bin_loc-IsLow :
    (op : Bin) (k : ℕ) (a : Loc) (low : Low)
    → Deep 0 1 (a ∷ []) low
    → Returns (imm_bin_loc op k a low) (λ _ low'. IsLow low')
unfolding imm_bin_loc to_reg
imm_bin_loc-IsLow op k (const x) low h = push-IsLow 0 1 (const (bin_eval op x k)) low h
imm_bin_loc-IsLow op k (reg r) low h = or_else-IsLow op k r 1 _ low h (λ low1 h1.
    bind alloc _ (λ t low'. Deep 0 0 (reg t ∷ reg r ∷ []) low') (λ _ low'. IsLow low') low1
      (weaken (alloc low1) _ _ (alloc-Deep 0 0 (reg r ∷ []) low1 h1) (λ t low' g. g.0))
      (λ t low2 h2.
        bind (freer t) (λ _. push (reg r)) (λ _ low'. Deep 0 0 (reg r ∷ []) low')
          (λ _ low'. IsLow low')
          (record low2 { out = Instr.bin op r r t ∷ Instr.load_imm64 t k ∷ low2.out })
          (freer-Deep 0 0 t (reg r ∷ [])
            (record low2 { out = Instr.bin op r r t ∷ Instr.load_imm64 t k ∷ low2.out }) h2)
          (λ c low3 h3. push-IsLow 0 0 (reg r) low3 h3)))

pub imm_bin-Total : (op : Bin) (k : ℕ) → Total (imm_bin op k)
unfolding imm_bin
imm_bin-Total op k =
    one_value 2 (imm_bin_loc op k) (omega arith) (omega arith) (imm_bin_loc-IsLow op k)

imm_shift_loc-IsLow :
    (sh : Sh) (k : ℕ) (a : Loc) (low : Low)
    → Deep 0 0 (a ∷ []) low
    → Returns (imm_shift_loc sh k a low) (λ _ low'. IsLow low')
unfolding imm_shift_loc
imm_shift_loc-IsLow sh k (const x) low h =
    push-IsLow 0 0 (const (if k == 0 then x else sh_eval_imm sh x k)) low h
imm_shift_loc-IsLow sh k (reg r) low h = elim (Bool-cases (k == 0)) [
  | inl t ↦ rw t (push-IsLow 0 0 (reg r) low h)
  | inr f ↦
      rw f (push-IsLow 0 0 (reg r) (record low { out = Instr.shift_imm sh r r k ∷ low.out }) h)
]

pub imm_shift-Total : (sh : Sh) (k : ℕ) → Total (imm_shift sh k)
unfolding imm_shift
imm_shift-Total sh k =
    one_value 1 (imm_shift_loc sh k) (omega arith) (omega arith) (imm_shift_loc-IsLow sh k)

dup_bin_loc-IsLow :
    (op : Bin) (a : Loc) (low : Low)
    → Deep 0 1 (a ∷ []) low
    → Returns (dup_bin_loc op a low) (λ _ low'. IsLow low')
unfolding dup_bin_loc
dup_bin_loc-IsLow op (const x) low h = push-IsLow 0 1 (const (bin_eval op x x)) low h
dup_bin_loc-IsLow Bin.add (reg r) low h =
    push-IsLow 0 1 (reg r) (record low { out = Instr.bin Bin.add r r r ∷ low.out }) h
dup_bin_loc-IsLow Bin.mul (reg r) low h =
    push-IsLow 0 1 (reg r) (record low { out = Instr.bin Bin.mul r r r ∷ low.out }) h
dup_bin_loc-IsLow Bin.and (reg r) low h = push-IsLow 0 1 (reg r) low h
dup_bin_loc-IsLow Bin.or (reg r) low h = push-IsLow 0 1 (reg r) low h
dup_bin_loc-IsLow Bin.sub (reg r) low h =
    bind (freer r) (λ _. push (const 0)) (λ _ low'. Deep 0 1 [] low') (λ _ low'. IsLow low') low
      (freer-Deep 0 1 r [] low h) (λ c low' g. push-IsLow 0 1 (const 0) low' g)
dup_bin_loc-IsLow Bin.xor (reg r) low h =
    bind (freer r) (λ _. push (const 0)) (λ _ low'. Deep 0 1 [] low') (λ _ low'. IsLow low') low
      (freer-Deep 0 1 r [] low h) (λ c low' g. push-IsLow 0 1 (const 0) low' g)

pub dup_bin-Total : (op : Bin) → Total (dup_bin op)
unfolding dup_bin
dup_bin-Total op = one_value 2 (dup_bin_loc op) (omega arith) (omega arith) (dup_bin_loc-IsLow op)

-- The operators that a shifted operand can go with.
dup_shift_bin_loc-IsLow :
    (op : Bin) (sh : Sh) (k : ℕ)
    → op ≢ Bin.mul
    → (a : Loc) (low : Low) → Deep 0 0 (a ∷ []) low
    → Returns (dup_shift_bin_loc op sh k a low) (λ _ low'. IsLow low')
unfolding dup_shift_bin_loc
dup_shift_bin_loc-IsLow op sh k n (const x) low h =
    push-IsLow 0 0 (const (bin_eval op x (sh_eval_imm sh x k))) low h
dup_shift_bin_loc-IsLow Bin.mul sh k n (reg r) low h = absurd (n refl)
dup_shift_bin_loc-IsLow Bin.add sh k n (reg r) low h = push-IsLow 0 0 (reg r) low h
dup_shift_bin_loc-IsLow Bin.sub sh k n (reg r) low h = push-IsLow 0 0 (reg r) low h
dup_shift_bin_loc-IsLow Bin.and sh k n (reg r) low h = push-IsLow 0 0 (reg r) low h
dup_shift_bin_loc-IsLow Bin.or sh k n (reg r) low h = push-IsLow 0 0 (reg r) low h
dup_shift_bin_loc-IsLow Bin.xor sh k n (reg r) low h = push-IsLow 0 0 (reg r) low h

pub dup_shift_bin-Total :
    (op : Bin) (sh : Sh) (k : ℕ) → op ≢ Bin.mul → Total (dup_shift_bin op sh k)
unfolding dup_shift_bin
dup_shift_bin-Total op sh k n =
    one_value 1 (dup_shift_bin_loc op sh k) (omega arith) (omega arith)
      (dup_shift_bin_loc-IsLow op sh k n)

cmp_zero-IsLow :
    (c : Cmp) (cond : ℕ) (a : Loc) (low : Low)
    → Deep 0 3 (a ∷ []) low
    → Returns (cmp_zero c cond a low) (λ _ low'. IsLow low')
unfolding cmp_zero
cmp_zero-IsLow c cond (const n) low h = push-IsLow 0 3 (const (cmp_eval_zero c n)) low h
cmp_zero-IsLow c cond (reg r) low h =
    push-IsLow 0 3 (reg r) (record low { out = Instr.csetm r cond ∷ Instr.cmp_imm r 0 ∷ low.out }) h

pub cmp-Total : (c : Cmp) → Total (cmp c)
unfolding cmp
cmp-Total c = by_kind (zero_cond c)
  where
    by_kind :
        (z : Option ℕ)
        → Total (
            reserve 4 >> elim z [
              | some cond ↦ ensure 1 >> (pop >>= λ a. cmp_zero c cond a)
              | none ↦ ensure 2 >> (pop >>= λ b. pop >>= λ a. cmp_locs c a b)
            ])
    by_kind (some cond) =
        one_value 4 (cmp_zero c cond) (omega arith) (omega arith) (cmp_zero-IsLow c cond)
    by_kind none = two_values 4 (cmp_locs c) (omega arith) (omega arith) (cmp_locs-IsLow c)
