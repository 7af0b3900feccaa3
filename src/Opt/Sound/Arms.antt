-- ===== src/Opt/Sound/Arms.antt =====
-- Each arm of `reduce` puts out proper tokens that do what the ones it takes do.
use mf.Prelude.{
  ℕ, ◌/◌, true, List, [], ◌∷◌, All, ◌≡◌, arith, ◌==◌, inl, inr, Option-cases, Bool-cases, ==→eq,
}
use mf.Word.{IsWord}
use mf.Word.Bits.{xor_step, xor-zero}
use mf.Opt.Tok.{Bin, Sh, Stk, Cmp, FCmp, Tok}
use mf.Opt.Eval.{bin_eval, sh_eval, shift_count, cmp_negate, fcmp_negate}
use mf.Opt.Eval.Laws.{bin_eval-IsWord, sh_eval-IsWord}
use mf.Opt.Metrics.{Metrics}
use mf.Opt.Reduce.{
  same_bin, is_identity, is_absorbing, chained, push_imm, reduce_imm, drop_last, reduce_dup,
  reduce_dup_shift, reduce_bin, reduce_count, reduce_shift, reduce_stk, reduce_zero_equal,
  reduce_tok,
}
use mf.Opt.Machine.{Host, IsTok, IsCondition}
use mf.Opt.Sound.Rules.{
  Refines, behind, fold_bin, identity_bin, absorbing_bin, imm_bin, chain_bin, fuse_dup,
  fuse_dup_shift, dup_and, dup_or, dup_sub, dup_xor, drop_lit, drop_under, drop_dup, fold_shift,
  shift_nothing, imm_shift, swap_swap, rot_minus_rot, minus_rot_rot, negate_cmp, negate_fcmp,
}

same_bin-eq : (a b : Bin) → same_bin a b ≡ true → a ≡ b
unfolding same_bin
same_bin-eq a b h = ground arith

chained-IsWord : (op : Bin) (a b : ℕ) → IsWord a → IsWord b → IsWord (chained op a b)
unfolding chained
chained-IsWord Bin.sub a b h k = omega arith
chained-IsWord Bin.add a b h k = bin_eval-IsWord Bin.add a b h k
chained-IsWord Bin.mul a b h k = bin_eval-IsWord Bin.mul a b h k
chained-IsWord Bin.and a b h k = bin_eval-IsWord Bin.and a b h k
chained-IsWord Bin.or a b h k = bin_eval-IsWord Bin.or a b h k
chained-IsWord Bin.xor a b h k = bin_eval-IsWord Bin.xor a b h k

fcmp_negate-IsCondition : (c : FCmp) → IsCondition c → IsCondition (fcmp_negate c)
unfolding fcmp_negate
fcmp_negate-IsCondition (FCmp.bin c) h = omega (arith, xor_step c 1, xor-zero (c / 2))
fcmp_negate-IsCondition (FCmp.zero c) h = omega (arith, xor_step c 1, xor-zero (c / 2))

module _ (host : Host) where
  -- `out` holds proper tokens, and does what `ts` does.
  abbrev pub Keeps : List Tok → List Tok → Type 0
  Keeps ts out = All IsTok out × Refines host ts out

  as_is : (ts : List Tok) → All IsTok ts → Keeps ts ts
  as_is ts h = (h, λ u s v e. e)

  push_imm-Keeps :
      (op : Bin) (k : ℕ) (out : List Tok) (m : Metrics)
      → IsWord k
      → All IsTok out
      → Keeps (Tok.bin op ∷ Tok.lit k ∷ out) (push_imm op k out m).0
  unfolding push_imm
  push_imm-Keeps op k (Tok.imm_bin prev k1 ∷ out) m hk (h1, h) =
      elim (Bool-cases (same_bin prev op)) [
        | inl t ↦
            rw (t, same_bin-eq prev op t)
              (
                (chained-IsWord op k1 k h1 hk, h),
                behind host (Tok.bin op ∷ Tok.lit k ∷ Tok.imm_bin op k1 ∷ []) _ out h
                    (chain_bin host op k1 k h1 hk),
              )
        | inr f ↦ rw f (
          (hk, (h1, h)),
          behind host (Tok.bin op ∷ Tok.lit k ∷ []) (Tok.imm_bin op k ∷ [])
              (Tok.imm_bin prev k1 ∷ out) (h1, h) (imm_bin host op k),
        )
      ]
  push_imm-Keeps op k out m hk h = (
    (hk, h),
    behind host (Tok.bin op ∷ Tok.lit k ∷ []) (Tok.imm_bin op k ∷ []) _ h (imm_bin host op k),
  )

  reduce_imm-Keeps :
      (op : Bin) (k : ℕ) (out : List Tok) (m : Metrics)
      → IsWord k
      → All IsTok out
      → Keeps (Tok.bin op ∷ Tok.lit k ∷ out) (reduce_imm op k out m).0
  unfolding reduce_imm
  reduce_imm-Keeps op k out m hk h = elim (Bool-cases (is_identity op k)) [
    | inl t ↦
        rw t (h, behind host (Tok.bin op ∷ Tok.lit k ∷ []) [] out h (identity_bin host op k t))
    | inr f ↦ elim (Bool-cases (is_absorbing op k)) [
      | inl t ↦
          rw (f, t)
            (
              (hk, (tt, h)),
              behind host (Tok.bin op ∷ Tok.lit k ∷ []) (Tok.lit k ∷ Tok.stk Stk.drop ∷ []) out h
                  (absorbing_bin host op k t),
            )
      | inr g ↦ rw (f, g) (push_imm-Keeps op k out m hk h)
    ]
  ]

  -- After a dropped value, a zero.
  drop_last-Keeps :
      (ts out : List Tok)
      → All IsTok out
      → Refines host ts (Tok.lit 0 ∷ Tok.stk Stk.drop ∷ out)
      → Keeps ts (Tok.lit 0 ∷ drop_last out)
  unfolding drop_last
  drop_last-Keeps ts (Tok.lit a ∷ out) (ha, h) r = (
    (omega arith, h),
    λ u s v e.
        behind host (Tok.lit 0 ∷ Tok.stk Stk.drop ∷ Tok.lit a ∷ []) (Tok.lit 0 ∷ []) out h
          (drop_under host a) u s v (r u s v e),
  )
  drop_last-Keeps ts out h r = ((omega arith, (tt, h)), r)

  reduce_dup-Keeps :
      (op : Bin) (out : List Tok) (m : Metrics)
      → All IsTok out
      → Keeps (Tok.bin op ∷ Tok.stk Stk.dup ∷ out) (reduce_dup op out m).0
  unfolding reduce_dup
  reduce_dup-Keeps Bin.and out m h =
      (h, behind host (Tok.bin Bin.and ∷ Tok.stk Stk.dup ∷ []) [] out h (dup_and host))
  reduce_dup-Keeps Bin.or out m h =
      (h, behind host (Tok.bin Bin.or ∷ Tok.stk Stk.dup ∷ []) [] out h (dup_or host))
  reduce_dup-Keeps Bin.sub out m h = drop_last-Keeps _ out h (
      behind host (Tok.bin Bin.sub ∷ Tok.stk Stk.dup ∷ []) (Tok.lit 0 ∷ Tok.stk Stk.drop ∷ []) out h
        (dup_sub host))
  reduce_dup-Keeps Bin.xor out m h = drop_last-Keeps _ out h (
      behind host (Tok.bin Bin.xor ∷ Tok.stk Stk.dup ∷ []) (Tok.lit 0 ∷ Tok.stk Stk.drop ∷ []) out h
        (dup_xor host))
  reduce_dup-Keeps Bin.add out m h = (
    (tt, h),
    behind host (Tok.bin Bin.add ∷ Tok.stk Stk.dup ∷ []) (Tok.dup_bin Bin.add ∷ []) out h
        (fuse_dup host Bin.add),
  )
  reduce_dup-Keeps Bin.mul out m h = (
    (tt, h),
    behind host (Tok.bin Bin.mul ∷ Tok.stk Stk.dup ∷ []) (Tok.dup_bin Bin.mul ∷ []) out h
        (fuse_dup host Bin.mul),
  )

  fused_shift :
      (op : Bin) (sh : Sh) (k : ℕ) (out : List Tok)
      → All IsTok out
      → Keeps
          (Tok.bin op ∷ Tok.imm_shift sh k ∷ Tok.stk Stk.dup ∷ out)
          (Tok.dup_shift_bin op sh k ∷ out)
  fused_shift op sh k out h = (
    (tt, h),
    behind host (Tok.bin op ∷ Tok.imm_shift sh k ∷ Tok.stk Stk.dup ∷ [])
        (Tok.dup_shift_bin op sh k ∷ []) out h (fuse_dup_shift host op sh k),
  )

  reduce_dup_shift-Keeps :
      (op : Bin) (sh : Sh) (k : ℕ) (out : List Tok) (m : Metrics)
      → All IsTok out
      → Keeps
          (Tok.bin op ∷ Tok.imm_shift sh k ∷ Tok.stk Stk.dup ∷ out)
          (reduce_dup_shift op sh k out m).0
  unfolding reduce_dup_shift
  reduce_dup_shift-Keeps Bin.mul sh k out m h = as_is _ (tt, (tt, (tt, h)))
  reduce_dup_shift-Keeps op sh k out m h = fused_shift op sh k out h

  pub reduce_bin-Keeps :
      (op : Bin) (out : List Tok) (m : Metrics)
      → All IsTok out
      → Keeps (Tok.bin op ∷ out) (reduce_bin op out m).0
  unfolding reduce_bin
  reduce_bin-Keeps op (Tok.lit b ∷ Tok.lit a ∷ out) m (hb, (ha, h)) = (
    (bin_eval-IsWord op a b ha hb, h),
    behind host (Tok.bin op ∷ Tok.lit b ∷ Tok.lit a ∷ []) (Tok.lit (bin_eval op a b) ∷ []) out h
        (fold_bin host op a b),
  )
  reduce_bin-Keeps op (Tok.imm_shift sh k ∷ Tok.stk Stk.dup ∷ out) m (h1, (h2, h)) =
      reduce_dup_shift-Keeps op sh k out m h
  reduce_bin-Keeps op (Tok.lit k ∷ out) m (hk, h) = reduce_imm-Keeps op k out m hk h
  reduce_bin-Keeps op (Tok.stk Stk.dup ∷ out) m (hd, h) = reduce_dup-Keeps op out m h
  reduce_bin-Keeps op out m h = as_is (Tok.bin op ∷ out) (tt, h)

  reduce_count-Keeps :
      (sh : Sh) (k : ℕ) (out : List Tok) (m : Metrics)
      → All IsTok out
      → Keeps (Tok.shift sh ∷ Tok.lit k ∷ out) (reduce_count sh k out m).0
  unfolding reduce_count
  reduce_count-Keeps sh k out m h = elim (Bool-cases (shift_count k == 0)) [
    | inl t ↦ rw t (
      h,
      behind host (Tok.shift sh ∷ Tok.lit k ∷ []) [] out h (shift_nothing host sh k (==→eq _ _ t)),
    )
    | inr f ↦ rw f (
      (tt, h),
      behind host (Tok.shift sh ∷ Tok.lit k ∷ []) (Tok.imm_shift sh (shift_count k) ∷ []) out h
          (imm_shift host sh k),
    )
  ]

  pub reduce_shift-Keeps :
      (sh : Sh) (out : List Tok) (m : Metrics)
      → All IsTok out
      → Keeps (Tok.shift sh ∷ out) (reduce_shift sh out m).0
  unfolding reduce_shift
  reduce_shift-Keeps sh (Tok.lit b ∷ Tok.lit a ∷ out) m (hb, (ha, h)) = (
    (sh_eval-IsWord sh a b ha, h),
    behind host (Tok.shift sh ∷ Tok.lit b ∷ Tok.lit a ∷ []) (Tok.lit (sh_eval sh a b) ∷ []) out h
        (fold_shift host sh a b),
  )
  reduce_shift-Keeps sh (Tok.lit k ∷ out) m (hk, h) = reduce_count-Keeps sh k out m h
  reduce_shift-Keeps sh out m h = as_is (Tok.shift sh ∷ out) (tt, h)

  pub reduce_stk-Keeps :
      (s : Stk) (out : List Tok) (m : Metrics)
      → All IsTok out
      → Keeps (Tok.stk s ∷ out) (reduce_stk s out m).0
  unfolding reduce_stk
  reduce_stk-Keeps Stk.drop (Tok.lit a ∷ out) m (ha, h) =
      (h, behind host (Tok.stk Stk.drop ∷ Tok.lit a ∷ []) [] out h (drop_lit host a))
  reduce_stk-Keeps Stk.drop (Tok.stk Stk.dup ∷ out) m (h1, h) =
      (h, behind host (Tok.stk Stk.drop ∷ Tok.stk Stk.dup ∷ []) [] out h (drop_dup host))
  reduce_stk-Keeps Stk.swap (Tok.stk Stk.swap ∷ out) m (h1, h) =
      (h, behind host (Tok.stk Stk.swap ∷ Tok.stk Stk.swap ∷ []) [] out h (swap_swap host))
  reduce_stk-Keeps Stk.minus_rot (Tok.stk Stk.rot ∷ out) m (h1, h) =
      (h, behind host (Tok.stk Stk.minus_rot ∷ Tok.stk Stk.rot ∷ []) [] out h (rot_minus_rot host))
  reduce_stk-Keeps Stk.rot (Tok.stk Stk.minus_rot ∷ out) m (h1, h) =
      (h, behind host (Tok.stk Stk.rot ∷ Tok.stk Stk.minus_rot ∷ []) [] out h (minus_rot_rot host))
  reduce_stk-Keeps s out m h = as_is (Tok.stk s ∷ out) (tt, h)

  pub reduce_zero_equal-Keeps :
      (out : List Tok) (m : Metrics)
      → All IsTok out
      → Keeps (Tok.cmp Cmp.zeq ∷ out) (reduce_zero_equal out m).0
  unfolding reduce_zero_equal
  reduce_zero_equal-Keeps (Tok.cmp c ∷ out) m (hc, h) = elim (Option-cases (cmp_negate c)) [
    | inl e ↦ rw (e, reduce_zero_equal) (as_is (Tok.cmp Cmp.zeq ∷ Tok.cmp c ∷ out) (tt, (tt, h)))
    | inr (n, e) ↦
        rw (e, reduce_zero_equal)
          (
            (tt, h),
            behind host (Tok.cmp Cmp.zeq ∷ Tok.cmp c ∷ []) (Tok.cmp n ∷ []) out h
                (negate_cmp host c n e),
          )
  ]
  reduce_zero_equal-Keeps (Tok.fcmp c ∷ out) m (hc, h) = (
    (fcmp_negate-IsCondition c hc, h),
    behind host (Tok.cmp Cmp.zeq ∷ Tok.fcmp c ∷ []) (Tok.fcmp (fcmp_negate c) ∷ []) out h
        (negate_fcmp host c hc),
  )
  reduce_zero_equal-Keeps out m h = as_is (Tok.cmp Cmp.zeq ∷ out) (tt, h)

  pub reduce_tok-Keeps :
      (t : Tok) (out : List Tok) (m : Metrics)
      → IsTok t
      → All IsTok out
      → Keeps (t ∷ out) (reduce_tok t out m).0
  unfolding reduce_tok
  reduce_tok-Keeps (Tok.bin op) out m ht h = reduce_bin-Keeps op out m h
  reduce_tok-Keeps (Tok.shift sh) out m ht h = reduce_shift-Keeps sh out m h
  reduce_tok-Keeps (Tok.stk s) out m ht h = reduce_stk-Keeps s out m h
  reduce_tok-Keeps (Tok.cmp Cmp.zeq) out m ht h = reduce_zero_equal-Keeps out m h
  reduce_tok-Keeps t out m ht h = as_is (t ∷ out) (ht, h)
