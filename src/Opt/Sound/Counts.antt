-- ===== src/Opt/Sound/Counts.antt =====
-- What `reduce` counts, and how long its output is.
use mf.Prelude.{
  ℕ, suc, ◌+◌, ◌≤◌, List, [], ◌∷◌, ◌++◌, ◌≡◌, ◌⊎◌, refl, ap, ◌∙◌, arith, ◌==◌, inl, inr,
  Option-cases, Bool-cases, length, length-append, append-nil, append_assoc,
}
use mathlib.Core.List.{reverse, reverse-cons, reverse-reverse}
use mf.Opt.Tok.{Bin, Sh, Stk, Cmp, Tok}
use mf.Opt.Eval.{shift_count, cmp_negate}
use mf.Opt.Metrics.{Metrics, rewrites}
use mf.Opt.Reduce.{
  Out, same_bin, is_identity, is_absorbing, push_imm, reduce_imm, drop_last, reduce_dup,
  reduce_dup_shift, reduce_bin, reduce_count, reduce_shift, reduce_stk, reduce_zero_equal,
  reduce_tok, reduce_loop, reduce,
}

-- The token is put out as it is, or one rewrite is counted; at most one token more stands in the output.
abbrev pub Step : Tok → List Tok → Metrics → ℕ → Out → Type 0
Step t out m n r =
    (length r.0 ≤ n)
    × (r.1.toks_in ≡ m.toks_in)
    × (r.1.toks_out ≡ m.toks_out)
    × ((r ≡ (t ∷ out, m)) ⊎ (rewrites r.1 ≡ suc (rewrites m)))

kept : (t : Tok) (out : List Tok) (m : Metrics) → Step t out m (suc (length out)) (t ∷ out, m)
kept t out m = (omega arith, refl, refl, inl refl)

push_imm-Step :
    (op : Bin) (k : ℕ) (out : List Tok) (m : Metrics)
    → Step (Tok.bin op) (Tok.lit k ∷ out) m (suc (length out)) (push_imm op k out m)
unfolding push_imm
push_imm-Step op k (Tok.imm_bin prev k1 ∷ out) m = elim (Bool-cases (same_bin prev op)) [
  | inl t ↦ rw t (omega arith, refl, refl, inr (omega arith))
  | inr f ↦ rw f (omega arith, refl, refl, inr (omega arith))
]
push_imm-Step op k out m = (omega arith, refl, refl, inr (omega arith))

reduce_imm-Step :
    (op : Bin) (k : ℕ) (out : List Tok) (m : Metrics)
    → Step (Tok.bin op) (Tok.lit k ∷ out) m (suc (suc (length out))) (reduce_imm op k out m)
unfolding reduce_imm
reduce_imm-Step op k out m = elim (Bool-cases (is_identity op k)) [
  | inl t ↦ rw t (omega arith, refl, refl, inr (omega arith))
  | inr f ↦ elim (Bool-cases (is_absorbing op k)) [
    | inl t ↦ rw (f, t) (omega arith, refl, refl, inr (omega arith))
    | inr g ↦ rw (f, g) (let p = push_imm-Step op k out m in (omega (arith, p.0), p.1, p.2, p.3))
  ]
]

length-drop_last : (out : List Tok) → length (drop_last out) ≤ suc (length out)
unfolding drop_last
length-drop_last (Tok.lit a ∷ out) = omega arith
length-drop_last out = omega arith

reduce_dup-Step :
    (op : Bin) (out : List Tok) (m : Metrics)
    → Step (Tok.bin op) (Tok.stk Stk.dup ∷ out) m (suc (suc (length out))) (reduce_dup op out m)
unfolding reduce_dup
reduce_dup-Step Bin.sub out m = (omega (arith, length-drop_last out), refl, refl, inr (omega arith))
reduce_dup-Step Bin.xor out m = (omega (arith, length-drop_last out), refl, refl, inr (omega arith))
reduce_dup-Step op out m = (omega arith, refl, refl, inr (omega arith))

reduce_dup_shift-Step :
    (op : Bin) (sh : Sh) (k : ℕ) (out : List Tok) (m : Metrics)
    → Step
        (Tok.bin op)
        (Tok.imm_shift sh k ∷ Tok.stk Stk.dup ∷ out)
        m
        (suc (suc (suc (length out))))
        (reduce_dup_shift op sh k out m)
unfolding reduce_dup_shift
reduce_dup_shift-Step Bin.mul sh k out m = kept _ _ m
reduce_dup_shift-Step op sh k out m = (omega arith, refl, refl, inr (omega arith))

reduce_bin-Step :
    (op : Bin) (out : List Tok) (m : Metrics)
    → Step (Tok.bin op) out m (suc (length out)) (reduce_bin op out m)
unfolding reduce_bin
reduce_bin-Step op (Tok.lit b ∷ Tok.lit a ∷ out) m = (omega arith, refl, refl, inr (omega arith))
reduce_bin-Step op (Tok.imm_shift sh k ∷ Tok.stk Stk.dup ∷ out) m =
    reduce_dup_shift-Step op sh k out m
reduce_bin-Step op (Tok.lit k ∷ out) m = reduce_imm-Step op k out m
reduce_bin-Step op (Tok.stk Stk.dup ∷ out) m = reduce_dup-Step op out m
reduce_bin-Step op out m = kept (Tok.bin op) out m

reduce_count-Step :
    (sh : Sh) (k : ℕ) (out : List Tok) (m : Metrics)
    → Step (Tok.shift sh) (Tok.lit k ∷ out) m (suc (suc (length out))) (reduce_count sh k out m)
unfolding reduce_count
reduce_count-Step sh k out m = elim (Bool-cases (shift_count k == 0)) [
  | inl t ↦ rw t (omega arith, refl, refl, inr (omega arith))
  | inr f ↦ rw f (omega arith, refl, refl, inr (omega arith))
]

reduce_shift-Step :
    (sh : Sh) (out : List Tok) (m : Metrics)
    → Step (Tok.shift sh) out m (suc (length out)) (reduce_shift sh out m)
unfolding reduce_shift
reduce_shift-Step sh (Tok.lit b ∷ Tok.lit a ∷ out) m = (omega arith, refl, refl, inr (omega arith))
reduce_shift-Step sh (Tok.lit k ∷ out) m = reduce_count-Step sh k out m
reduce_shift-Step sh out m = kept (Tok.shift sh) out m

reduce_stk-Step :
    (s : Stk) (out : List Tok) (m : Metrics)
    → Step (Tok.stk s) out m (suc (length out)) (reduce_stk s out m)
unfolding reduce_stk
reduce_stk-Step Stk.drop (Tok.lit a ∷ out) m = (omega arith, refl, refl, inr (omega arith))
reduce_stk-Step Stk.drop (Tok.stk Stk.dup ∷ out) m = (omega arith, refl, refl, inr (omega arith))
reduce_stk-Step Stk.swap (Tok.stk Stk.swap ∷ out) m = (omega arith, refl, refl, inr (omega arith))
reduce_stk-Step Stk.minus_rot (Tok.stk Stk.rot ∷ out) m =
    (omega arith, refl, refl, inr (omega arith))
reduce_stk-Step Stk.rot (Tok.stk Stk.minus_rot ∷ out) m =
    (omega arith, refl, refl, inr (omega arith))
reduce_stk-Step s out m = kept (Tok.stk s) out m

reduce_zero_equal-Step :
    (out : List Tok) (m : Metrics)
    → Step (Tok.cmp Cmp.zeq) out m (suc (length out)) (reduce_zero_equal out m)
unfolding reduce_zero_equal
reduce_zero_equal-Step (Tok.cmp c ∷ out) m = elim (Option-cases (cmp_negate c)) [
  | inl e ↦ rw (e, reduce_zero_equal) (kept (Tok.cmp Cmp.zeq) (Tok.cmp c ∷ out) m)
  | inr (n, e) ↦ rw (e, reduce_zero_equal) (omega arith, refl, refl, inr (omega arith))
]
reduce_zero_equal-Step (Tok.fcmp c ∷ out) m = (omega arith, refl, refl, inr (omega arith))
reduce_zero_equal-Step out m = kept (Tok.cmp Cmp.zeq) out m

pub reduce_tok-Step :
    (t : Tok) (out : List Tok) (m : Metrics) → Step t out m (suc (length out)) (reduce_tok t out m)
unfolding reduce_tok
reduce_tok-Step (Tok.bin op) out m = reduce_bin-Step op out m
reduce_tok-Step (Tok.shift sh) out m = reduce_shift-Step sh out m
reduce_tok-Step (Tok.stk s) out m = reduce_stk-Step s out m
reduce_tok-Step (Tok.cmp Cmp.zeq) out m = reduce_zero_equal-Step out m
reduce_tok-Step t out m = kept t out m

reverse-step :
    (t : Tok) (toks out : List Tok) → reverse (t ∷ toks) ++ out ≡ reverse toks ++ (t ∷ out)
reverse-step t toks out = rw (reverse-cons t toks, append_assoc (reverse toks) (t ∷ []) out)

raised :
    (n : ℕ) (m : Metrics) (r : Out) (out : List Tok)
    → rewrites m ≡ suc n
    → (r ≡ (out, m)) ⊎ (suc (rewrites m) ≤ rewrites r.1)
    → suc n ≤ rewrites r.1
raised n m r out e (inl q) = omega (arith, e, ap (λ x. rewrites x.1) q)
raised n m r out e (inr q) = omega (arith, e, q)

length-reverse : (xs : List Tok) → length (reverse xs) ≡ length xs
length-reverse [] = refl
length-reverse (x ∷ xs) =
    rw (reverse-cons x xs) (omega (arith, length-append (reverse xs) (x ∷ []), length-reverse xs))

-- The loop puts its tokens out in reverse, or it counts a rewrite.
pub reduce_loop-Counts :
    (toks out : List Tok) (m : Metrics)
    → (length (reduce_loop toks out m).0 ≤ length out + length toks)
      × ((reduce_loop toks out m).1.toks_in ≡ m.toks_in)
      × ((reduce_loop toks out m).1.toks_out ≡ m.toks_out)
      × ((reduce_loop toks out m ≡ (reverse toks ++ out, m))
          ⊎ (suc (rewrites m) ≤ rewrites (reduce_loop toks out m).1))
unfolding reduce_loop
reduce_loop-Counts [] out m = (omega arith, refl, refl, inl refl)
reduce_loop-Counts (t ∷ toks) out m =
    let (a, b, c, d) = reduce_tok-Step t out m in
    let (a', b', c', d') = reduce_loop-Counts toks (reduce_tok t out m).0 (reduce_tok t out m).1 in
    (
      omega (arith, a, a'),
      b' ∙ b,
      c' ∙ c,
      elim d [
        | inl e ↦ elim d' [
          | inl e' ↦
              inl (rw (reverse-step t toks out) (e' ∙ ap (λ x. (reverse toks ++ x.0, x.1)) e))
          | inr le ↦ inr (omega (arith, le, ap (λ x. rewrites x.1) e))
        ]
        | inr e ↦ inr (raised (rewrites m) _ _ _ e d')
      ],
    )

-- `reduce` puts out no more tokens than it takes, and counts those that it takes and those that it
-- puts out.
pub reduce-Counts :
    (toks : List Tok) (m : Metrics)
    → (length (reduce toks m).0 ≤ length toks)
      × ((reduce toks m).1.toks_in ≡ m.toks_in + length toks)
      × ((reduce toks m).1.toks_out ≡ m.toks_out + length (reduce toks m).0)
unfolding reduce
reduce-Counts toks m =
    let start = record m { toks_in = m.toks_in + length toks } in
    let (a, b, c, d) = reduce_loop-Counts toks [] start in
    (
      omega (arith, a, length-reverse (reduce_loop toks [] start).0),
      b,
      rw (length-reverse (reduce_loop toks [] start).0, c),
    )

-- Where `reduce` counts no rewrite, it puts the tokens out as they are.
pub reduce_unchanged :
    (toks : List Tok) (m : Metrics)
    → rewrites (reduce toks m).1 ≡ rewrites m
    → (reduce toks m).0 ≡ toks
unfolding reduce
reduce_unchanged toks m same =
    let start = record m { toks_in = m.toks_in + length toks } in
    let (a, b, c, d) = reduce_loop-Counts toks [] start in
    elim d [
      | inl e ↦ rw (e, append-nil (reverse toks), reverse-reverse toks)
      | inr e ↦ absurd (omega (arith, same, e))
    ]
