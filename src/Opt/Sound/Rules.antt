-- ===== src/Opt/Sound/Rules.antt =====
-- Each rewriting rule of `reduce`: where the tokens on the left run, those on the right give the same.
use mf.Prelude.{
  ℕ, ◌%◌, ◌+◌, ◌-◌, Bool, true, false, List, [], ◌∷◌, ◌++◌, some, none, All, ◌≡◌, refl, arith, not,
  inl, inr, Option-cases,
}
use mf.Word.{IsWord, word_mod}
use mf.Word.Bits.{and_self, or_self, xor_self}
use mf.Opt.Tok.{Bin, Sh, Stk, Cmp, FCmp, Tok}
use mf.Opt.Eval.{
  bin_eval, sh_eval, sh_eval_imm, shift_count, cmp_eval, cmp_eval_zero, cmp_negate, fcmp_negate,
  flag,
}
use mf.Opt.Eval.Laws.{cmp_eval-negate, sh_eval-zero}
use mf.Opt.Reduce.{is_identity, is_absorbing, chained}
use mf.Opt.Machine.{
  Host, Machine, Stack, binary, exec, run_back, and_then, IsTok, compare_cells, IsCondition,
  with_world,
}
use mf.Opt.Sound.Words.{Valid, run_back-Valid}
use mf.Opt.Sound.Identities.{bin_eval_identity, bin_eval_absorbing, bin_eval-chained}

shift_count_idem : (k : ℕ) → shift_count (shift_count k) ≡ shift_count k
shift_count_idem k = omega arith

sh_eval_imm-shift_count : (sh : Sh) (a k : ℕ) → sh_eval_imm sh a (shift_count k) ≡ sh_eval sh a k
unfolding sh_eval_imm sh_eval
sh_eval_imm-shift_count Sh.lsl a k = rw (shift_count_idem k)
sh_eval_imm-shift_count Sh.lsr a k = rw (shift_count_idem k)
sh_eval_imm-shift_count Sh.asr a k = rw (shift_count_idem k)

-- Both comparisons of a negation compare two cells.
negated_cells :
    (c n : Cmp) (st : Stack)
    → cmp_negate c ≡ some n
    → (compare_cells c st ≡ binary (cmp_eval c) st) × (compare_cells n st ≡ binary (cmp_eval n) st)
unfolding compare_cells cmp_negate
negated_cells c n st h = ground arith

module _ (host : Host) where
  open host use {World, compare_floats, compare_negated}

  -- Where `ts` runs from a stack of words, `ts'` runs to the same state. Both stand in reverse.
  abbrev pub Refines : List Tok → List Tok → Type 0
  Refines ts ts' =
      (u s : Machine host)
      → Valid host u
      → run_back host ts u ≡ some s
      → run_back host ts' u ≡ some s

  run_back-append :
      (ts out : List Tok) (s : Machine host)
      → run_back host (ts ++ out) s ≡ and_then host (run_back host out s) (run_back host ts)
  unfolding run_back
  run_back-append [] out s = elim (Option-cases (run_back host out s)) [
    | inl e ↦ rw e
    | inr (u, e) ↦ rw e
  ]
  run_back-append (t ∷ ts) out s = elim (Option-cases (run_back host out s)) [
    | inl e ↦ rw (run_back-append ts out s, e)
    | inr (u, e) ↦ rw (run_back-append ts out s, e)
  ]

  pub none≢some : (x : Machine host) → ¬ (none ≡ some x)
  none≢some x q = cc

  -- A rule applies behind any tokens that were put out before.
  pub behind :
      (ts ts' out : List Tok) → All IsTok out → Refines ts ts' → Refines (ts ++ out) (ts' ++ out)
  behind ts ts' out h rule u s v e = elim (Option-cases (run_back host out u)) [
    | inl p ↦ absurd (none≢some _ (rw (run_back-append ts out u, p) at e))
    | inr (m, p) ↦
        rw (run_back-append ts' out u, p)
          (rule m s (rw p at (run_back-Valid host out u h v))
            (rw (run_back-append ts out u, p) at e))
  ]

  pub fold_bin :
      (op : Bin) (a b : ℕ)
      → Refines (Tok.bin op ∷ Tok.lit b ∷ Tok.lit a ∷ []) (Tok.lit (bin_eval op a b) ∷ [])
  unfolding run_back exec
  fold_bin op a b (st, w) s v e = e

  pub identity_bin :
      (op : Bin) (k : ℕ) → is_identity op k ≡ true → Refines (Tok.bin op ∷ Tok.lit k ∷ []) []
  unfolding run_back exec
  identity_bin op k i ([], w) s v e = cc
  identity_bin op k i (x ∷ st, w) s v e = rw (bin_eval_identity op k x i v.0) at e

  pub absorbing_bin :
      (op : Bin) (k : ℕ)
      → is_absorbing op k ≡ true
      → Refines (Tok.bin op ∷ Tok.lit k ∷ []) (Tok.lit k ∷ Tok.stk Stk.drop ∷ [])
  unfolding run_back exec
  absorbing_bin op k i ([], w) s v e = cc
  absorbing_bin op k i (x ∷ st, w) s v e = rw (bin_eval_absorbing op k x i v.0) at e

  pub imm_bin : (op : Bin) (k : ℕ) → Refines (Tok.bin op ∷ Tok.lit k ∷ []) (Tok.imm_bin op k ∷ [])
  unfolding run_back exec
  imm_bin op k ([], w) s v e = e
  imm_bin op k (x ∷ st, w) s v e = e

  pub chain_bin :
      (op : Bin) (k1 k : ℕ)
      → IsWord k1
      → IsWord k
      → Refines
          (Tok.bin op ∷ Tok.lit k ∷ Tok.imm_bin op k1 ∷ [])
          (Tok.imm_bin op (chained op k1 k) ∷ [])
  unfolding run_back exec
  chain_bin op k1 k h g ([], w) s v e = e
  chain_bin op k1 k h g (x ∷ st, w) s v e = rw (bin_eval-chained op x k1 k h g) at e

  pub fuse_dup : (op : Bin) → Refines (Tok.bin op ∷ Tok.stk Stk.dup ∷ []) (Tok.dup_bin op ∷ [])
  unfolding run_back exec
  fuse_dup op ([], w) s v e = e
  fuse_dup op (x ∷ st, w) s v e = e

  pub fuse_dup_shift :
      (op : Bin) (sh : Sh) (k : ℕ)
      → Refines
          (Tok.bin op ∷ Tok.imm_shift sh k ∷ Tok.stk Stk.dup ∷ [])
          (Tok.dup_shift_bin op sh k ∷ [])
  unfolding run_back exec
  fuse_dup_shift op sh k ([], w) s v e = e
  fuse_dup_shift op sh k (x ∷ st, w) s v e = e

  pub dup_and : Refines (Tok.bin Bin.and ∷ Tok.stk Stk.dup ∷ []) []
  unfolding run_back exec bin_eval
  dup_and ([], w) s v e = cc
  dup_and (x ∷ st, w) s v e = rw (and_self x) at e

  pub dup_or : Refines (Tok.bin Bin.or ∷ Tok.stk Stk.dup ∷ []) []
  unfolding run_back exec bin_eval
  dup_or ([], w) s v e = cc
  dup_or (x ∷ st, w) s v e = rw (or_self x) at e

  pub dup_sub : Refines (Tok.bin Bin.sub ∷ Tok.stk Stk.dup ∷ []) (Tok.lit 0 ∷ Tok.stk Stk.drop ∷ [])
  unfolding run_back exec bin_eval
  dup_sub ([], w) s v e = cc
  dup_sub (x ∷ st, w) s v e = let z : (x + word_mod - x) % word_mod ≡ 0 = omega arith in rw z at e

  pub dup_xor : Refines (Tok.bin Bin.xor ∷ Tok.stk Stk.dup ∷ []) (Tok.lit 0 ∷ Tok.stk Stk.drop ∷ [])
  unfolding run_back exec bin_eval
  dup_xor ([], w) s v e = cc
  dup_xor (x ∷ st, w) s v e = rw (xor_self x) at e

  -- A dropped literal, a dropped copy.
  pub drop_lit : (k : ℕ) → Refines (Tok.stk Stk.drop ∷ Tok.lit k ∷ []) []
  unfolding run_back exec
  drop_lit k (st, w) s v e = e

  -- A zero above a value that is dropped, where the value is a literal.
  pub drop_under :
      (a : ℕ) → Refines (Tok.lit 0 ∷ Tok.stk Stk.drop ∷ Tok.lit a ∷ []) (Tok.lit 0 ∷ [])
  unfolding run_back exec
  drop_under a (st, w) s v e = e

  pub drop_dup : Refines (Tok.stk Stk.drop ∷ Tok.stk Stk.dup ∷ []) []
  unfolding run_back exec
  drop_dup ([], w) s v e = cc
  drop_dup (x ∷ st, w) s v e = e

  pub fold_shift :
      (sh : Sh) (a b : ℕ)
      → Refines (Tok.shift sh ∷ Tok.lit b ∷ Tok.lit a ∷ []) (Tok.lit (sh_eval sh a b) ∷ [])
  unfolding run_back exec
  fold_shift sh a b (st, w) s v e = e

  pub shift_nothing :
      (sh : Sh) (k : ℕ) → shift_count k ≡ 0 → Refines (Tok.shift sh ∷ Tok.lit k ∷ []) []
  unfolding run_back exec
  shift_nothing sh k z ([], w) s v e = cc
  shift_nothing sh k z (x ∷ st, w) s v e = rw (sh_eval-zero sh x k v.0 z) at e

  pub imm_shift :
      (sh : Sh) (k : ℕ)
      → Refines (Tok.shift sh ∷ Tok.lit k ∷ []) (Tok.imm_shift sh (shift_count k) ∷ [])
  unfolding run_back exec
  imm_shift sh k ([], w) s v e = e
  imm_shift sh k (x ∷ st, w) s v e = rw (sh_eval_imm-shift_count sh x k) e

  pub swap_swap : Refines (Tok.stk Stk.swap ∷ Tok.stk Stk.swap ∷ []) []
  unfolding run_back exec
  swap_swap ([], w) s v e = cc
  swap_swap (b ∷ [], w) s v e = cc
  swap_swap (b ∷ a ∷ st, w) s v e = e

  pub rot_minus_rot : Refines (Tok.stk Stk.minus_rot ∷ Tok.stk Stk.rot ∷ []) []
  unfolding run_back exec
  rot_minus_rot ([], w) s v e = cc
  rot_minus_rot (c ∷ [], w) s v e = cc
  rot_minus_rot (c ∷ b ∷ [], w) s v e = cc
  rot_minus_rot (c ∷ b ∷ a ∷ st, w) s v e = e

  pub minus_rot_rot : Refines (Tok.stk Stk.rot ∷ Tok.stk Stk.minus_rot ∷ []) []
  unfolding run_back exec
  minus_rot_rot ([], w) s v e = cc
  minus_rot_rot (c ∷ [], w) s v e = cc
  minus_rot_rot (c ∷ b ∷ [], w) s v e = cc
  minus_rot_rot (c ∷ b ∷ a ∷ st, w) s v e = e

  -- A negated comparison of two cells.
  negate_binary :
      (c n : Cmp) (st : Stack) (w : World)
      → cmp_negate c ≡ some n
      → and_then host (with_world host w (binary (cmp_eval c) st)) (exec host (Tok.cmp Cmp.zeq))
        ≡ with_world host w (binary (cmp_eval n) st)
  unfolding exec
  negate_binary c n [] w h = refl
  negate_binary c n (b ∷ []) w h = refl
  negate_binary c n (b ∷ a ∷ st) w h = rw (cmp_eval-negate c n a b h)

  pub negate_cmp :
      (c n : Cmp)
      → cmp_negate c ≡ some n
      → Refines (Tok.cmp Cmp.zeq ∷ Tok.cmp c ∷ []) (Tok.cmp n ∷ [])
  unfolding run_back exec
  negate_cmp c n h (st, w) s v e =
      let (p, q) = negated_cells c n st h in rw (q, ← negate_binary c n st w h) (rw p at e)

  -- `0=` of a flag is the flag of the negation.
  flag-not :
      (t : Bool) (st : Stack) (w : World) (s : Machine host)
      → exec host (Tok.cmp Cmp.zeq) (flag t ∷ st, w) ≡ some s
      → some (flag (not t) ∷ st, w) ≡ some s
  unfolding exec cmp_eval_zero
  flag-not true st w s e = e
  flag-not false st w s e = e

  pub negate_fcmp :
      (c : FCmp)
      → IsCondition c
      → Refines (Tok.cmp Cmp.zeq ∷ Tok.fcmp c ∷ []) (Tok.fcmp (fcmp_negate c) ∷ [])
  unfolding run_back exec
  negate_fcmp c h (st, w) s v e = elim (Option-cases (compare_floats c w)) [
    | inl p ↦ absurd (none≢some s (rw (p, exec) at e))
    | inr ((t, w'), p) ↦
        rw (compare_negated c w w' t h p, exec) (flag-not t st w' s (rw (p, exec) at e))
  ]
