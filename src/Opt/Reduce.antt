-- ===== src/Opt/Reduce.antt =====
-- `reduce` of src/opt.rs: one forward pass over a token run with lookback on what is put out.
-- The list `out` stands in reverse, so its head is `out.last()`. Each arm of the `match` is a function.
use mf.Prelude.{ℕ, ◌+◌, Bool, true, false, List, [], ◌∷◌, some, none, if◌then◌else◌, ◌==◌, length}
use mathlib.Core.List.{reverse}
use mf.Word.{all_ones, wrapping_add}
use mf.Opt.Tok.{Bin, Sh, Stk, Cmp, Tok}
use mf.Opt.Eval.{bin_eval, sh_eval, shift_count, cmp_negate, fcmp_negate}
use mf.Opt.Metrics.{Metrics}

-- The tokens put out so far, the last one first, and the counters.
abbrev pub Out : Type 0
Out = List Tok × Metrics

abbrev pub const_fold : Metrics → Metrics
const_fold m = record m { const_folds = m.const_folds + 1 }

abbrev pub imm_fold : Metrics → Metrics
imm_fold m = record m { imm_folds = m.imm_folds + 1 }

abbrev pub imm_chain : Metrics → Metrics
imm_chain m = record m { imm_chains = m.imm_chains + 1 }

abbrev pub dup_fuse : Metrics → Metrics
dup_fuse m = record m { dup_fuses = m.dup_fuses + 1 }

abbrev pub dead_code : Metrics → Metrics
dead_code m = record m { dce = m.dce + 1 }

abbrev pub stack_cancel : Metrics → Metrics
stack_cancel m = record m { stack_cancels = m.stack_cancels + 1 }

abbrev pub cmp_negated : Metrics → Metrics
cmp_negated m = record m { cmp_negates = m.cmp_negates + 1 }

abbrev pub identity : Metrics → Metrics
identity m = record m { identities = m.identities + 1 }

-- `prev == op`
unfoldable pub same_bin : Bin → Bin → Bool
same_bin Bin.add Bin.add = true
same_bin Bin.sub Bin.sub = true
same_bin Bin.mul Bin.mul = true
same_bin Bin.and Bin.and = true
same_bin Bin.or Bin.or = true
same_bin Bin.xor Bin.xor = true
same_bin a b = false

-- `x op k` = x.
unfoldable pub is_identity : Bin → ℕ → Bool
is_identity Bin.add k = k == 0
is_identity Bin.sub k = k == 0
is_identity Bin.or k = k == 0
is_identity Bin.xor k = k == 0
is_identity Bin.mul k = k == 1
is_identity Bin.and k = k == all_ones

-- `x op k` = k.
unfoldable pub is_absorbing : Bin → ℕ → Bool
is_absorbing Bin.mul k = k == 0
is_absorbing Bin.and k = k == 0
is_absorbing Bin.or k = k == all_ones
is_absorbing op k = false

-- The constant of `(x op k1) op k`.
unfoldable pub chained : Bin → ℕ → ℕ → ℕ
unfolding bin_eval
chained Bin.sub k1 k = wrapping_add k1 k
chained op k1 k = bin_eval op k1 k

-- A preceding immediate of the same operator absorbs the new one.
unfoldable pub push_imm : Bin → ℕ → List Tok → Metrics → Out
unfolding same_bin chained
push_imm op k (Tok.imm_bin prev k1 ∷ out) m =
    if same_bin prev op
    then (Tok.imm_bin op (chained op k1 k) ∷ out, imm_chain m)
    else (Tok.imm_bin op k ∷ Tok.imm_bin prev k1 ∷ out, imm_fold m)
push_imm op k out m = (Tok.imm_bin op k ∷ out, imm_fold m)

-- The arm for a literal `k` below the operator, once it is popped.
unfoldable pub reduce_imm : Bin → ℕ → List Tok → Metrics → Out
unfolding is_identity is_absorbing push_imm
reduce_imm op k out m =
    if is_identity op k
    then (out, identity m)
    else if is_absorbing op k
    then (Tok.lit k ∷ Tok.stk Stk.drop ∷ out, identity m)
    else push_imm op k out m

-- A dropped value: a literal is dead, anything else takes a `drop`.
unfoldable pub drop_last : List Tok → List Tok
drop_last (Tok.lit a ∷ out) = out
drop_last out = Tok.stk Stk.drop ∷ out

-- The arm for a `dup` below the operator, once it is popped.
unfoldable pub reduce_dup : Bin → List Tok → Metrics → Out
unfolding drop_last
reduce_dup Bin.and out m = (out, identity m)
reduce_dup Bin.or out m = (out, identity m)
reduce_dup Bin.sub out m = (Tok.lit 0 ∷ drop_last out, identity m)
reduce_dup Bin.xor out m = (Tok.lit 0 ∷ drop_last out, identity m)
reduce_dup op out m = (Tok.dup_bin op ∷ out, dup_fuse m)

-- `dup k shift op` in one instruction, for every operator but `*`.
unfoldable pub reduce_dup_shift : Bin → Sh → ℕ → List Tok → Metrics → Out
reduce_dup_shift Bin.mul sh k out m =
    (Tok.bin Bin.mul ∷ Tok.imm_shift sh k ∷ Tok.stk Stk.dup ∷ out, m)
reduce_dup_shift op sh k out m = (Tok.dup_shift_bin op sh k ∷ out, dup_fuse m)

-- `Tok::Bin(op)`
unfoldable pub reduce_bin : Bin → List Tok → Metrics → Out
unfolding reduce_imm reduce_dup reduce_dup_shift
reduce_bin op (Tok.lit b ∷ Tok.lit a ∷ out) m = (Tok.lit (bin_eval op a b) ∷ out, const_fold m)
reduce_bin op (Tok.imm_shift sh k ∷ Tok.stk Stk.dup ∷ out) m = reduce_dup_shift op sh k out m
reduce_bin op (Tok.lit k ∷ out) m = reduce_imm op k out m
reduce_bin op (Tok.stk Stk.dup ∷ out) m = reduce_dup op out m
reduce_bin op out m = (Tok.bin op ∷ out, m)

-- The arm for a literal count, once it is popped.
unfoldable pub reduce_count : Sh → ℕ → List Tok → Metrics → Out
reduce_count sh k out m =
    if shift_count k == 0
    then (out, identity m)
    else (Tok.imm_shift sh (shift_count k) ∷ out, imm_fold m)

-- `Tok::Shift(sh)`
unfoldable pub reduce_shift : Sh → List Tok → Metrics → Out
unfolding reduce_count
reduce_shift sh (Tok.lit b ∷ Tok.lit a ∷ out) m = (Tok.lit (sh_eval sh a b) ∷ out, const_fold m)
reduce_shift sh (Tok.lit k ∷ out) m = reduce_count sh k out m
reduce_shift sh out m = (Tok.shift sh ∷ out, m)

-- `Tok::Stk(s)`: dead code, and inverse motions.
unfoldable pub reduce_stk : Stk → List Tok → Metrics → Out
reduce_stk Stk.drop (Tok.lit a ∷ out) m = (out, dead_code m)
reduce_stk Stk.drop (Tok.stk Stk.dup ∷ out) m = (out, dead_code m)
reduce_stk Stk.swap (Tok.stk Stk.swap ∷ out) m = (out, stack_cancel m)
reduce_stk Stk.minus_rot (Tok.stk Stk.rot ∷ out) m = (out, stack_cancel m)
reduce_stk Stk.rot (Tok.stk Stk.minus_rot ∷ out) m = (out, stack_cancel m)
reduce_stk s out m = (Tok.stk s ∷ out, m)

-- `Tok::Cmp(Cmp::ZEq)`: the negation of a comparison.
unfoldable pub reduce_zero_equal : List Tok → Metrics → Out
reduce_zero_equal (Tok.cmp c ∷ out) m = elim (cmp_negate c) [
  | some n ↦ (Tok.cmp n ∷ out, cmp_negated m)
  | none ↦ (Tok.cmp Cmp.zeq ∷ Tok.cmp c ∷ out, m)
]
reduce_zero_equal (Tok.fcmp c ∷ out) m = (Tok.fcmp (fcmp_negate c) ∷ out, cmp_negated m)
reduce_zero_equal out m = (Tok.cmp Cmp.zeq ∷ out, m)

-- The `match` on a token.
unfoldable pub reduce_tok : Tok → List Tok → Metrics → Out
unfolding reduce_bin reduce_shift reduce_stk reduce_zero_equal
reduce_tok (Tok.bin op) out m = reduce_bin op out m
reduce_tok (Tok.shift sh) out m = reduce_shift sh out m
reduce_tok (Tok.stk s) out m = reduce_stk s out m
reduce_tok (Tok.cmp Cmp.zeq) out m = reduce_zero_equal out m
reduce_tok t out m = (t ∷ out, m)

-- The `for` loop.
unfoldable pub reduce_loop : List Tok → List Tok → Metrics → Out
reduce_loop [] out m = (out, m)
reduce_loop (t ∷ toks) out m = let (out', m') = reduce_tok t out m in reduce_loop toks out' m'

unfoldable pub reduce : List Tok → Metrics → Out
unfolding reduce_loop
reduce toks m =
    let (out, m') = reduce_loop toks [] (record m { toks_in = m.toks_in + length toks }) in
    (reverse out, record m' { toks_out = m'.toks_out + length out })
