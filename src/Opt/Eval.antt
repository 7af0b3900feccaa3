-- ===== src/Opt/Eval.antt =====
-- The constant folders of src/opt.rs (`Bin::eval`, `Sh::eval`, `Cmp::eval`, `Sel::eval`) and the tables
-- that relate comparisons to AArch64 conditions.
pub mod Laws
use mf.Prelude.{
  ℕ, ◌+◌, ◌-◌, ◌*◌, ◌/◌, ◌%◌, ◌^◌, Bool, true, false, not, Option, some, none, if◌then◌else◌, ◌==◌,
  ltb, bit_and, bit_or, bit_xor,
}
use mf.Prelude
use mf.Word.{wrapping_add, wrapping_sub, wrapping_mul, lt_signed, all_ones, shl, shr, sar}
use mf.Aenc.Conditions
use mf.Opt.Tok.{Bin, Sh, Cmp, Sel, FCmp}

-- A Forth flag: -1 or 0.
abbrev pub flag : Bool → ℕ
flag t = if t then all_ones else 0

-- `a op b` where a is the deeper cell.
unfoldable pub bin_eval : Bin → ℕ → ℕ → ℕ
bin_eval Bin.add a b = wrapping_add a b
bin_eval Bin.sub a b = wrapping_sub a b
bin_eval Bin.mul a b = wrapping_mul a b
bin_eval Bin.and a b = bit_and a b
bin_eval Bin.or a b = bit_or a b
bin_eval Bin.xor a b = bit_xor a b

-- `(b as u32) & 63`
abbrev pub shift_count : ℕ → ℕ
shift_count b = b % 2 ^ 32 % 64

unfoldable pub sh_eval : Sh → ℕ → ℕ → ℕ
unfolding shl shr sar
sh_eval Sh.lsl a b = shl a (shift_count b)
sh_eval Sh.lsr a b = shr a (shift_count b)
sh_eval Sh.asr a b = sar a (shift_count b)

unfoldable pub sh_eval_imm : Sh → ℕ → ℕ → ℕ
sh_eval_imm sh a count = sh_eval sh a count

unfoldable pub sh_code : Sh → ℕ
sh_code Sh.lsl = 0
sh_code Sh.lsr = 1
sh_code Sh.asr = 2

unfoldable pub cmp_eval : Cmp → ℕ → ℕ → ℕ
cmp_eval Cmp.eq a b = flag (a == b)
cmp_eval Cmp.ne a b = flag (not (a == b))
cmp_eval Cmp.lt a b = flag (lt_signed a b)
cmp_eval Cmp.gt a b = flag (lt_signed b a)
cmp_eval Cmp.le a b = flag (not (lt_signed b a))
cmp_eval Cmp.ge a b = flag (not (lt_signed a b))
cmp_eval Cmp.ult a b = flag (ltb a b)
cmp_eval Cmp.ugt a b = flag (ltb b a)
cmp_eval c a b = 0

unfoldable pub cmp_eval_zero : Cmp → ℕ → ℕ
cmp_eval_zero Cmp.zeq n = flag (n == 0)
cmp_eval_zero Cmp.zne n = flag (not (n == 0))
cmp_eval_zero Cmp.zlt n = flag (lt_signed n 0)
cmp_eval_zero Cmp.zgt n = flag (lt_signed 0 n)
cmp_eval_zero c n = 0

-- The csetm condition of a comparison, and that of the comparison with its operands swapped.
unfoldable pub cmp_cond : Cmp → ℕ
cmp_cond Cmp.eq = Conditions.eq
cmp_cond Cmp.ne = Conditions.ne
cmp_cond Cmp.lt = Conditions.lt
cmp_cond Cmp.gt = Conditions.gt
cmp_cond Cmp.le = Conditions.le
cmp_cond Cmp.ge = Conditions.ge
cmp_cond Cmp.ult = Conditions.lo
cmp_cond Cmp.ugt = Conditions.hi
cmp_cond c = Conditions.eq

unfoldable pub cmp_swapped_cond : Cmp → ℕ
unfolding cmp_cond
cmp_swapped_cond Cmp.lt = Conditions.gt
cmp_swapped_cond Cmp.gt = Conditions.lt
cmp_swapped_cond Cmp.le = Conditions.ge
cmp_swapped_cond Cmp.ge = Conditions.le
cmp_swapped_cond Cmp.ult = Conditions.hi
cmp_swapped_cond Cmp.ugt = Conditions.lo
cmp_swapped_cond other = cmp_cond other

unfoldable pub cmp_negate : Cmp → Option Cmp
cmp_negate Cmp.eq = some Cmp.ne
cmp_negate Cmp.ne = some Cmp.eq
cmp_negate Cmp.lt = some Cmp.ge
cmp_negate Cmp.gt = some Cmp.le
cmp_negate Cmp.le = some Cmp.gt
cmp_negate Cmp.ge = some Cmp.lt
cmp_negate c = none

-- `c ^ 1`
unfoldable pub fcmp_negate : FCmp → FCmp
fcmp_negate (FCmp.bin c) = FCmp.bin (bit_xor c 1)
fcmp_negate (FCmp.zero c) = FCmp.zero (bit_xor c 1)

unfoldable pub sel_eval : Sel → ℕ → ℕ → ℕ
sel_eval Sel.min a b = if lt_signed b a then b else a
sel_eval Sel.max a b = if lt_signed a b then b else a
sel_eval Sel.umin a b = Prelude.min a b
sel_eval Sel.umax a b = Prelude.max a b

-- The csel condition that keeps `a`.
unfoldable pub sel_cond : Sel → ℕ
sel_cond Sel.min = Conditions.lt
sel_cond Sel.max = Conditions.gt
sel_cond Sel.umin = Conditions.lo
sel_cond Sel.umax = Conditions.hi
