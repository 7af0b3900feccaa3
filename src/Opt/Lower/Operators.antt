-- ===== src/Opt/Lower/Operators.antt =====
-- The arithmetic, the shifts and the comparisons of `Low` in src/opt.rs.
use mf.Prelude.{
  ℕ, zero, suc, ◌-◌, ◌%◌, ◌/◌, ◌^◌, ◌==◌, ltb, leb, ◌&&◌, Bool, Option, none, some, if◌then◌else◌,
}
use mf.Word.{word_mod, sign_bit}
use mf.Aenc.Conditions
use mf.Opt.Tok.{Bin, Sh, Cmp, Sel}
use mf.Opt.Eval.{
  bin_eval, sh_eval, sh_eval_imm, cmp_eval, cmp_eval_zero, cmp_cond, cmp_swapped_cond, sel_eval,
  sel_cond,
}
use mf.Opt.Lower.Code.{Instr}
use mf.Opt.Lower.{Loc, const, reg, M, ret, panic, ◌>>=◌, ◌>>◌, emit, push, pop}
use mf.Opt.Lower.Registers.{reserve, ensure, alloc, freer, to_reg}

-- `u64::trailing_zeros`, for a number that is not 0.
abbrev pub trailing_zeros_from : ℕ → ℕ → ℕ
trailing_zeros_from zero k = 0
trailing_zeros_from (suc fuel) k =
    let rest = trailing_zeros_from fuel (k / 2) in if k % 2 == 0 then suc rest else 0

unfoldable pub trailing_zeros : ℕ → ℕ
trailing_zeros k = trailing_zeros_from 64 k

-- `k > 1 && (k as u64).is_power_of_two()`, on an i64.
unfoldable pub is_shift_factor : ℕ → Bool
unfolding trailing_zeros
is_shift_factor k = ltb 1 k && ltb k sign_bit && k == 2 ^ trailing_zeros k

-- `-k` for `-4095 <= k < 0`.
abbrev pub small_negative : ℕ → Bool
small_negative k = leb (word_mod - 4095) k && ltb k word_mod

-- `imm_bin_to`: what one instruction can do to a register with a constant.
unfoldable pub imm_form : Bin → ℕ → ℕ → Option Instr
unfolding is_shift_factor trailing_zeros
imm_form Bin.add k r =
    if leb k 4095
    then some (Instr.add_imm r r k)
    else if small_negative k
    then some (Instr.sub_imm r r (word_mod - k))
    else none
imm_form Bin.sub k r =
    if leb k 4095
    then some (Instr.sub_imm r r k)
    else if small_negative k
    then some (Instr.add_imm r r (word_mod - k))
    else none
imm_form Bin.mul k r =
    if is_shift_factor k then some (Instr.shift_imm Sh.lsl r r (trailing_zeros k)) else none
imm_form op k r = none

abbrev pub emit_form : Option Instr → ℕ → M (Option ℕ)
emit_form none r = ret none
emit_form (some i) r = emit i >> ret (some r)

-- The operand goes into a register only where there is such an instruction, for any register.
unfoldable pub imm_bin_to : Loc → Bin → ℕ → M (Option ℕ)
unfolding imm_form to_reg
imm_bin_to operand op k = elim (imm_form op k 0) [
  | none ↦ ret none
  | some i ↦ do r ← to_reg operand; emit_form (imm_form op k r) r
]

abbrev pub binary_regs : Bin → Loc → Loc → M (Unit {0})
binary_regs op a b = do
  ra ← to_reg a
  rb ← to_reg b
  emit (Instr.bin op ra ra rb)
  freer rb
  push (reg ra)

-- `imm_bin_to`, and what follows where it gives a register or none.
abbrev pub or_else : M (Option ℕ) → M (Unit {0}) → M (Unit {0})
or_else try_it other low = elim (try_it low) [
  | none ↦ none
  | some (done, low') ↦ elim done [ none ↦ other low' | some rd ↦ push (reg rd) low' ]
]

unfoldable pub bin_locs : Bin → Loc → Loc → M (Unit {0})
unfolding imm_bin_to to_reg
bin_locs op (const x) (const y) = push (const (bin_eval op x y))
bin_locs op (reg r) (const k) = or_else (imm_bin_to (reg r) op k) (binary_regs op (reg r) (const k))
bin_locs Bin.add (const k) (reg r) =
    or_else (imm_bin_to (reg r) Bin.add k) (binary_regs Bin.add (const k) (reg r))
bin_locs op a b = binary_regs op a b

unfoldable pub bin : Bin → M (Unit {0})
unfolding reserve ensure pop bin_locs
bin op = do reserve 4; ensure 2; b ← pop; a ← pop; bin_locs op a b

unfoldable pub imm_bin_loc : Bin → ℕ → Loc → M (Unit {0})
unfolding imm_bin_to to_reg alloc
imm_bin_loc op k (const x) = push (const (bin_eval op x k))
imm_bin_loc op k (reg a) = or_else (imm_bin_to (reg a) op k) (do
  r ← to_reg (reg a)
  t ← alloc
  emit (Instr.load_imm64 t k)
  emit (Instr.bin op r r t)
  freer t
  push (reg r))

unfoldable pub imm_bin : Bin → ℕ → M (Unit {0})
unfolding reserve ensure pop imm_bin_loc
imm_bin op k = do reserve 2; ensure 1; a ← pop; imm_bin_loc op k a

-- `(k as u32) & 63`
abbrev pub shift_mask : ℕ → ℕ
shift_mask k = k % 2 ^ 32 % 64

unfoldable pub shift_locs : Sh → Loc → Loc → M (Unit {0})
unfolding to_reg
shift_locs sh (const a) (const b) = push (const (sh_eval sh a b))
shift_locs sh (reg r) (const c) =
    let k = shift_mask c in
    if k == 0 then push (reg r) else (emit (Instr.shift_imm sh r r k) >> push (reg r))
shift_locs sh value (reg c) = do
  rv ← to_reg value
  rc ← to_reg (reg c)
  emit (Instr.shift_reg sh rv rv rc)
  freer rc
  push (reg rv)

unfoldable pub shift : Sh → M (Unit {0})
unfolding reserve ensure pop shift_locs
shift sh = do reserve 3; ensure 2; count ← pop; value ← pop; shift_locs sh value count

unfoldable pub imm_shift_loc : Sh → ℕ → Loc → M (Unit {0})
imm_shift_loc sh k (const x) = push (const (if k == 0 then x else sh_eval_imm sh x k))
imm_shift_loc sh k (reg r) =
    if k == 0 then push (reg r) else (emit (Instr.shift_imm sh r r k) >> push (reg r))

unfoldable pub imm_shift : Sh → ℕ → M (Unit {0})
unfolding reserve ensure pop imm_shift_loc
imm_shift sh k = do reserve 1; ensure 1; a ← pop; imm_shift_loc sh k a

unfoldable pub dup_shift_bin_loc : Bin → Sh → ℕ → Loc → M (Unit {0})
dup_shift_bin_loc op sh k (const x) = push (const (bin_eval op x (sh_eval_imm sh x k)))
dup_shift_bin_loc Bin.mul sh k (reg r) = panic
dup_shift_bin_loc op sh k (reg r) = emit (Instr.bin_shifted op sh r r r k) >> push (reg r)

unfoldable pub dup_shift_bin : Bin → Sh → ℕ → M (Unit {0})
unfolding reserve ensure pop dup_shift_bin_loc
dup_shift_bin op sh k = do reserve 1; ensure 1; a ← pop; dup_shift_bin_loc op sh k a

unfoldable pub dup_bin_loc : Bin → Loc → M (Unit {0})
dup_bin_loc op (const x) = push (const (bin_eval op x x))
dup_bin_loc Bin.add (reg r) = emit (Instr.bin Bin.add r r r) >> push (reg r)
dup_bin_loc Bin.mul (reg r) = emit (Instr.bin Bin.mul r r r) >> push (reg r)
dup_bin_loc Bin.and (reg r) = push (reg r)
dup_bin_loc Bin.or (reg r) = push (reg r)
dup_bin_loc Bin.sub (reg r) = freer r >> push (const 0)
dup_bin_loc Bin.xor (reg r) = freer r >> push (const 0)

unfoldable pub dup_bin : Bin → M (Unit {0})
unfolding reserve ensure pop dup_bin_loc
dup_bin op = do reserve 2; ensure 1; a ← pop; dup_bin_loc op a

-- `Cmp::ZEq | Cmp::ZNe | Cmp::ZLt | Cmp::ZGt` with its condition.
unfoldable pub zero_cond : Cmp → Option ℕ
zero_cond Cmp.zeq = some Conditions.eq
zero_cond Cmp.zne = some Conditions.ne
zero_cond Cmp.zlt = some Conditions.lt
zero_cond Cmp.zgt = some Conditions.gt
zero_cond c = none

unfoldable pub cmp_zero : Cmp → ℕ → Loc → M (Unit {0})
cmp_zero c cond (const n) = push (const (cmp_eval_zero c n))
cmp_zero c cond (reg r) = do emit (Instr.cmp_imm r 0); emit (Instr.csetm r cond); push (reg r)

abbrev pub cmp_regs : Cmp → Loc → Loc → M (Unit {0})
cmp_regs c a b = do
  ra ← to_reg a
  rb ← to_reg b
  emit (Instr.cmp_reg ra rb)
  emit (Instr.csetm ra (cmp_cond c))
  freer rb
  push (reg ra)

abbrev pub cmp_small : ℕ → ℕ → ℕ → M (Unit {0})
cmp_small r k cond = do emit (Instr.cmp_imm r k); emit (Instr.csetm r cond); push (reg r)

unfoldable pub cmp_locs : Cmp → Loc → Loc → M (Unit {0})
unfolding to_reg
cmp_locs c (const x) (const y) = push (const (cmp_eval c x y))
cmp_locs c (reg r) (const k) =
    if leb k 4095 then cmp_small r k (cmp_cond c) else cmp_regs c (reg r) (const k)
cmp_locs c (const k) (reg r) =
    if leb k 4095 then cmp_small r k (cmp_swapped_cond c) else cmp_regs c (const k) (reg r)
cmp_locs c a b = cmp_regs c a b

unfoldable pub cmp : Cmp → M (Unit {0})
unfolding reserve ensure pop zero_cond cmp_zero cmp_locs
cmp c = do
  reserve 4
  elim (zero_cond c) [
    | some cond ↦ do ensure 1; a ← pop; cmp_zero c cond a
    | none ↦ do ensure 2; b ← pop; a ← pop; cmp_locs c a b
  ]

unfoldable pub sel_locs : Sel → Loc → Loc → M (Unit {0})
unfolding to_reg
sel_locs s (const x) (const y) = push (const (sel_eval s x y))
sel_locs s a b = do
  ra ← to_reg a
  rb ← to_reg b
  emit (Instr.cmp_reg ra rb)
  emit (Instr.csel ra ra rb (sel_cond s))
  freer rb
  push (reg ra)

unfoldable pub sel : Sel → M (Unit {0})
unfolding reserve ensure pop sel_locs
sel s = do reserve 3; ensure 2; b ← pop; a ← pop; sel_locs s a b
