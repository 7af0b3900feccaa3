-- ===== src/Opt/Lower/Ready/Binary.antt =====
-- The operators of two values in src/opt.rs do not panic.
use mf.Prelude.{◌+◌, ◌≤◌, ◌==◌, arith, [], ◌∷◌, leb, Bool-cases, inl, inr}
use mf.Opt.Tok.{Bin, Sh, Cmp, Sel}
use mf.Opt.Eval.{bin_eval, sh_eval, cmp_eval, sel_eval, sel_cond, cmp_cond}
use mf.Opt.Lower.Code.{Instr}
use mf.Opt.Lower.{Loc, const, reg, Low, ◌>>◌, emit}
use mf.Opt.Lower.Operators.{
  binary_regs, bin_locs, bin, shift_locs, shift, cmp_regs, cmp_locs, shift_mask, sel_locs, sel,
}
use mf.Opt.Lower.Ready.{Returns}
use mf.Opt.Lower.Ready.Steps.{Deep, cost, swap_held}
use mf.Opt.Lower.Ready.Total.{IsLow, Total, less, two_regs, push-IsLow, or_else-IsLow, two_values}

binary_regs-IsLow :
    (op : Bin) (a b : Loc) (low : Low)
    → Deep 0 (cost b + cost a) (a ∷ b ∷ []) low
    → Returns (binary_regs op a b low) (λ _ low'. IsLow low')
binary_regs-IsLow op a b low h =
    two_regs a b (λ ra rb. emit (Instr.bin op ra ra rb)) low
      (λ ra rb low' g. swap_held 0 0 (reg ra) (reg rb) [] low' g) h

bin_locs-IsLow :
    (op : Bin) (a b : Loc) (low : Low)
    → Deep 0 1 (a ∷ b ∷ []) low
    → Returns (bin_locs op a b low) (λ _ low'. IsLow low')
unfolding bin_locs
bin_locs-IsLow op (const x) (const y) low h = push-IsLow 0 1 (const (bin_eval op x y)) low h
bin_locs-IsLow op (reg r) (const k) low h =
    or_else-IsLow op k r 1 (binary_regs op (reg r) (const k)) low h
      (λ low' g. binary_regs-IsLow op (reg r) (const k) low' g)
bin_locs-IsLow Bin.add (const k) (reg r) low h =
    or_else-IsLow Bin.add k r 1 (binary_regs Bin.add (const k) (reg r)) low h
      (λ low' g. binary_regs-IsLow Bin.add (const k) (reg r) low' g)
bin_locs-IsLow Bin.sub (const k) (reg r) low h = binary_regs-IsLow Bin.sub (const k) (reg r) low h
bin_locs-IsLow Bin.mul (const k) (reg r) low h = binary_regs-IsLow Bin.mul (const k) (reg r) low h
bin_locs-IsLow Bin.and (const k) (reg r) low h = binary_regs-IsLow Bin.and (const k) (reg r) low h
bin_locs-IsLow Bin.or (const k) (reg r) low h = binary_regs-IsLow Bin.or (const k) (reg r) low h
bin_locs-IsLow Bin.xor (const k) (reg r) low h = binary_regs-IsLow Bin.xor (const k) (reg r) low h
bin_locs-IsLow Bin.add (reg p) (reg r) low h =
    binary_regs-IsLow Bin.add (reg p) (reg r) low
      (less 0 1 0 (reg p ∷ reg r ∷ []) low (omega arith) h)
bin_locs-IsLow Bin.sub (reg p) (reg r) low h =
    binary_regs-IsLow Bin.sub (reg p) (reg r) low
      (less 0 1 0 (reg p ∷ reg r ∷ []) low (omega arith) h)
bin_locs-IsLow Bin.mul (reg p) (reg r) low h =
    binary_regs-IsLow Bin.mul (reg p) (reg r) low
      (less 0 1 0 (reg p ∷ reg r ∷ []) low (omega arith) h)
bin_locs-IsLow Bin.and (reg p) (reg r) low h =
    binary_regs-IsLow Bin.and (reg p) (reg r) low
      (less 0 1 0 (reg p ∷ reg r ∷ []) low (omega arith) h)
bin_locs-IsLow Bin.or (reg p) (reg r) low h =
    binary_regs-IsLow Bin.or (reg p) (reg r) low
      (less 0 1 0 (reg p ∷ reg r ∷ []) low (omega arith) h)
bin_locs-IsLow Bin.xor (reg p) (reg r) low h =
    binary_regs-IsLow Bin.xor (reg p) (reg r) low
      (less 0 1 0 (reg p ∷ reg r ∷ []) low (omega arith) h)

pub bin-Total : (op : Bin) → Total (bin op)
unfolding bin
bin-Total op = two_values 4 (bin_locs op) (omega arith) (omega arith) (bin_locs-IsLow op)

cost-le : (l : Loc) → cost l + 0 ≤ 1
cost-le (const c) = omega arith
cost-le (reg r) = omega arith

sel_locs-IsLow :
    (o : Sel) (a b : Loc) (low : Low)
    → Deep 0 1 (a ∷ b ∷ []) low
    → Returns (sel_locs o a b low) (λ _ low'. IsLow low')
unfolding sel_locs
sel_locs-IsLow o (const x) (const y) low h = push-IsLow 0 1 (const (sel_eval o x y)) low h
sel_locs-IsLow o (const x) (reg r) low h =
    two_regs (const x) (reg r)
      (λ ra rb. emit (Instr.cmp_reg ra rb) >> emit (Instr.csel ra ra rb (sel_cond o))) low
      (λ ra rb low' g. swap_held 0 0 (reg ra) (reg rb) [] low' g) h
sel_locs-IsLow o (reg r) b low h =
    two_regs (reg r) b
      (λ ra rb. emit (Instr.cmp_reg ra rb) >> emit (Instr.csel ra ra rb (sel_cond o))) low
      (λ ra rb low' g. swap_held 0 0 (reg ra) (reg rb) [] low' g)
      (less 0 1 (cost b + 0) (reg r ∷ b ∷ []) low (cost-le b) h)

cmp_regs-IsLow :
    (c : Cmp) (a b : Loc) (low : Low)
    → Deep 0 (cost b + cost a) (a ∷ b ∷ []) low
    → Returns (cmp_regs c a b low) (λ _ low'. IsLow low')
cmp_regs-IsLow c a b low h =
    two_regs a b (λ ra rb. emit (Instr.cmp_reg ra rb) >> emit (Instr.csetm ra (cmp_cond c))) low
      (λ ra rb low' g. swap_held 0 0 (reg ra) (reg rb) [] low' g) h

pub cmp_locs-IsLow :
    (c : Cmp) (a b : Loc) (low : Low)
    → Deep 0 1 (a ∷ b ∷ []) low
    → Returns (cmp_locs c a b low) (λ _ low'. IsLow low')
unfolding cmp_locs
cmp_locs-IsLow c (const x) (const y) low h = push-IsLow 0 1 (const (cmp_eval c x y)) low h
cmp_locs-IsLow c (reg r) (reg p) low h =
    cmp_regs-IsLow c (reg r) (reg p) low (less 0 1 0 (reg r ∷ reg p ∷ []) low (omega arith) h)
cmp_locs-IsLow c (reg r) (const k) low h = elim (Bool-cases (leb k 4095)) [
  | inl t ↦ rw t (push-IsLow 0 1 (reg r) low h)
  | inr f ↦ rw f (cmp_regs-IsLow c (reg r) (const k) low h)
]
cmp_locs-IsLow c (const k) (reg r) low h = elim (Bool-cases (leb k 4095)) [
  | inl t ↦ rw t (push-IsLow 0 1 (reg r) low h)
  | inr f ↦ rw f (cmp_regs-IsLow c (const k) (reg r) low h)
]

shift_locs-IsLow :
    (sh : Sh) (value amount : Loc) (low : Low)
    → Deep 0 1 (value ∷ amount ∷ []) low
    → Returns (shift_locs sh value amount low) (λ _ low'. IsLow low')
unfolding shift_locs
shift_locs-IsLow sh (const x) (const y) low h = push-IsLow 0 1 (const (sh_eval sh x y)) low h
shift_locs-IsLow sh (reg r) (const c) low h = elim (Bool-cases (shift_mask c == 0)) [
  | inl t ↦ rw t (push-IsLow 0 1 (reg r) low h)
  | inr f ↦ rw f (
      push-IsLow 0 1 (reg r) (record low { out = Instr.shift_imm sh r r (shift_mask c) ∷ low.out })
        h)
]
shift_locs-IsLow sh (const x) (reg c) low h =
    two_regs (const x) (reg c) (λ rv rc. emit (Instr.shift_reg sh rv rv rc)) low
      (λ ra rb low' g. swap_held 0 0 (reg ra) (reg rb) [] low' g) h
shift_locs-IsLow sh (reg r) (reg c) low h =
    two_regs (reg r) (reg c) (λ rv rc. emit (Instr.shift_reg sh rv rv rc)) low
      (λ ra rb low' g. swap_held 0 0 (reg ra) (reg rb) [] low' g)
      (less 0 1 0 (reg r ∷ reg c ∷ []) low (omega arith) h)

pub sel-Total : (s : Sel) → Total (sel s)
unfolding sel
sel-Total s = two_values 3 (sel_locs s) (omega arith) (omega arith) (sel_locs-IsLow s)

pub shift-Total : (sh : Sh) → Total (shift sh)
unfolding shift
shift-Total sh = two_values 3 (shift_locs sh) (omega arith) (omega arith) (shift_locs-IsLow sh)
