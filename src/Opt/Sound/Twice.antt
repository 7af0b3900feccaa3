-- ===== src/Opt/Sound/Twice.antt =====
-- A second pass of `reduce` may find more.
use mf.Prelude.{ℕ, true, false, [], ◌∷◌, ◌≡◌, refl, arith}
use mf.Opt.Tok.{Bin, Stk, Tok}
use mf.Opt.Metrics.{Metrics}
use mf.Opt.Reduce.{
  is_identity, is_absorbing, reduce_imm, reduce_bin, reduce_tok, reduce_stk, reduce_loop, reduce,
}

absorbing_not_identity : (op : Bin) (k : ℕ) → is_absorbing op k ≡ true → is_identity op k ≡ false
unfolding is_absorbing is_identity
absorbing_not_identity op k h = ground arith

-- `reduce` rewrites a copy under an operator with an absorbing operand to the copy, a `drop` and the
-- operand, and one more pass leaves the operand alone.
pub reduce_twice :
    (op : Bin) (k : ℕ) (m n : Metrics)
    → is_absorbing op k ≡ true
    → ((reduce (Tok.stk Stk.dup ∷ Tok.lit k ∷ Tok.bin op ∷ []) m).0
        ≡ Tok.stk Stk.dup ∷ Tok.stk Stk.drop ∷ Tok.lit k ∷ [])
      × ((reduce (Tok.stk Stk.dup ∷ Tok.stk Stk.drop ∷ Tok.lit k ∷ []) n).0 ≡ Tok.lit k ∷ [])
unfolding reduce reduce_loop reduce_tok reduce_stk reduce_bin reduce_imm
reduce_twice op k m n h = (rw (absorbing_not_identity op k h, h) refl, refl)
