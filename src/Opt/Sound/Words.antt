-- ===== src/Opt/Sound/Words.antt =====
-- Every token leaves words on a stack of words.
use mf.Prelude.{ℕ, Bool, true, false, List, [], ◌∷◌, Option, some, none, All, ◌≡◌, refl, arith}
use mf.Word.{IsWord}
use mf.Opt.Tok.{Sh, Stk, Cmp, Sel, Tok}
use mf.Opt.Eval.{sh_eval_imm, cmp_eval, cmp_eval_zero, sel_eval, flag}
use mf.Opt.Eval.Laws.{bin_eval-IsWord, sh_eval-IsWord}
use mf.Opt.Machine.{
  Host, Stack, unary, binary, motion, compare_cells, with_world, exec, run_back, and_then, IsTok,
  Machine,
}

-- What holds of the value, if there is one.
abbrev pub AllOk {ℓ κ} : {A : Type ℓ} → (A → Type κ) → Option A → Type κ
AllOk P none = Unit
AllOk P (some a) = P a

AllOk-of_eq {ℓ κ} :
    {A : Type ℓ} (P : A → Type κ) (o : Option A) → ((a : A) → o ≡ some a → P a) → AllOk P o
AllOk-of_eq P none h = tt
AllOk-of_eq P (some a) h = h a refl

pub AllOk-some {ℓ κ} :
    {A : Type ℓ} (P : A → Type κ) (o : Option A) {a : A} → AllOk P o → o ≡ some a → P a
AllOk-some P o h e = rw e at h

sh_eval_imm-IsWord : (sh : Sh) (a k : ℕ) → IsWord a → IsWord (sh_eval_imm sh a k)
unfolding sh_eval_imm
sh_eval_imm-IsWord sh a k h = sh_eval-IsWord sh a k h

flag-IsWord : (t : Bool) → IsWord (flag t)
flag-IsWord true = omega arith
flag-IsWord false = omega arith

cmp_eval-IsWord : (c : Cmp) (a b : ℕ) → IsWord (cmp_eval c a b)
unfolding cmp_eval
cmp_eval-IsWord Cmp.eq a b = flag-IsWord _
cmp_eval-IsWord Cmp.ne a b = flag-IsWord _
cmp_eval-IsWord Cmp.lt a b = flag-IsWord _
cmp_eval-IsWord Cmp.gt a b = flag-IsWord _
cmp_eval-IsWord Cmp.le a b = flag-IsWord _
cmp_eval-IsWord Cmp.ge a b = flag-IsWord _
cmp_eval-IsWord Cmp.ult a b = flag-IsWord _
cmp_eval-IsWord Cmp.ugt a b = flag-IsWord _
cmp_eval-IsWord c a b = omega arith

cmp_eval_zero-IsWord : (c : Cmp) (a : ℕ) → IsWord (cmp_eval_zero c a)
unfolding cmp_eval_zero
cmp_eval_zero-IsWord Cmp.zeq a = flag-IsWord _
cmp_eval_zero-IsWord Cmp.zne a = flag-IsWord _
cmp_eval_zero-IsWord Cmp.zlt a = flag-IsWord _
cmp_eval_zero-IsWord Cmp.zgt a = flag-IsWord _
cmp_eval_zero-IsWord c a = omega arith

sel_eval-IsWord : (s : Sel) (a b : ℕ) → IsWord a → IsWord b → IsWord (sel_eval s a b)
unfolding sel_eval
sel_eval-IsWord Sel.min a b h k = ground arith
sel_eval-IsWord Sel.max a b h k = ground arith
sel_eval-IsWord Sel.umin a b h k = omega arith
sel_eval-IsWord Sel.umax a b h k = omega arith

abbrev Words : Stack → Type 0
Words st = All IsWord st

unary-Words :
    (f : ℕ → ℕ) (st : Stack)
    → ((a : ℕ) → IsWord a → IsWord (f a))
    → Words st
    → AllOk Words (unary f st)
unary-Words f [] h v = tt
unary-Words f (a ∷ st) h (va, vs) = (h a va, vs)

binary-Words :
    (f : ℕ → ℕ → ℕ) (st : Stack)
    → ((a b : ℕ) → IsWord a → IsWord b → IsWord (f a b))
    → Words st
    → AllOk Words (binary f st)
binary-Words f [] h v = tt
binary-Words f (b ∷ []) h v = tt
binary-Words f (b ∷ a ∷ st) h (vb, (va, vs)) = (h a b va vb, vs)

motion-Words : (s : Stk) (st : Stack) → Words st → AllOk Words (motion s st)
unfolding motion
motion-Words Stk.dup (a ∷ st) v = (v.0, v)
motion-Words Stk.drop (a ∷ st) v = v.1
motion-Words Stk.swap (b ∷ a ∷ st) v = (v.1.0, (v.0, v.1.1))
motion-Words Stk.over (b ∷ a ∷ st) v = (v.1.0, v)
motion-Words Stk.nip (b ∷ a ∷ st) v = (v.0, v.1.1)
motion-Words Stk.rot (c ∷ b ∷ a ∷ st) v = (v.1.1.0, (v.0, (v.1.0, v.1.1.1)))
motion-Words Stk.minus_rot (c ∷ b ∷ a ∷ st) v = (v.1.0, (v.1.1.0, (v.0, v.1.1.1)))
motion-Words Stk.tuck (b ∷ a ∷ st) v = (v.0, (v.1.0, (v.0, v.1.1)))
motion-Words s st v = tt

compare_cells-Words : (c : Cmp) (st : Stack) → Words st → AllOk Words (compare_cells c st)
unfolding compare_cells
compare_cells-Words Cmp.zeq st v = unary-Words _ st (λ a h. cmp_eval_zero-IsWord Cmp.zeq a) v
compare_cells-Words Cmp.zne st v = unary-Words _ st (λ a h. cmp_eval_zero-IsWord Cmp.zne a) v
compare_cells-Words Cmp.zlt st v = unary-Words _ st (λ a h. cmp_eval_zero-IsWord Cmp.zlt a) v
compare_cells-Words Cmp.zgt st v = unary-Words _ st (λ a h. cmp_eval_zero-IsWord Cmp.zgt a) v
compare_cells-Words c st v = binary-Words (cmp_eval c) st (λ a b h k. cmp_eval-IsWord c a b) v

module _ (host : Host) where
  open host use {World, perform, perform_words, compare_floats}

  abbrev pub Valid : Machine host → Type 0
  Valid s = Words s.0

  with_world-Valid :
      (w : World) (o : Option Stack) → AllOk Words o → AllOk Valid (with_world host w o)
  with_world-Valid w none h = tt
  with_world-Valid w (some st) h = h

  perform-Valid : (t : Tok) (st : Stack) (w : World) → Words st → AllOk Valid (perform t st w)
  perform-Valid t st w v =
      AllOk-of_eq Valid (perform t st w) (λ s e. perform_words t st s.0 w s.1 v e)

  fcmp-Valid :
      (o : Option (Bool × World)) (st : Stack)
      → Words st
      → AllOk Valid (elim o [ none ↦ none | some (t, w') ↦ some (flag t ∷ st, w') ])
  fcmp-Valid none st v = tt
  fcmp-Valid (some (t, w')) st v = (flag-IsWord t, v)

  -- One token.
  pub exec-Valid : (t : Tok) (s : Machine host) → IsTok t → Valid s → AllOk Valid (exec host t s)
  unfolding exec
  exec-Valid (Tok.lit k) (st, w) h v = (h, v)
  exec-Valid (Tok.bin op) (st, w) h v =
      with_world-Valid w _ (binary-Words _ st (bin_eval-IsWord op) v)
  exec-Valid (Tok.imm_bin op k) (st, w) h v =
      with_world-Valid w _ (unary-Words _ st (λ a va. bin_eval-IsWord op a k va h) v)
  exec-Valid (Tok.dup_bin op) (st, w) h v =
      with_world-Valid w _ (unary-Words _ st (λ a va. bin_eval-IsWord op a a va va) v)
  exec-Valid (Tok.shift sh) (st, w) h v =
      with_world-Valid w _ (binary-Words _ st (λ a b va vb. sh_eval-IsWord sh a b va) v)
  exec-Valid (Tok.imm_shift sh k) (st, w) h v =
      with_world-Valid w _ (unary-Words _ st (λ a va. sh_eval_imm-IsWord sh a k va) v)
  exec-Valid (Tok.dup_shift_bin op sh k) (st, w) h v =
      with_world-Valid w _
        (unary-Words _ st (λ a va. bin_eval-IsWord op a _ va (sh_eval_imm-IsWord sh a k va)) v)
  exec-Valid (Tok.stk s) (st, w) h v = with_world-Valid w _ (motion-Words s st v)
  exec-Valid (Tok.cmp c) (st, w) h v = with_world-Valid w _ (compare_cells-Words c st v)
  exec-Valid (Tok.sel s) (st, w) h v =
      with_world-Valid w _ (binary-Words _ st (sel_eval-IsWord s) v)
  exec-Valid (Tok.fcmp c) (st, w) h v = fcmp-Valid (compare_floats c w) st v
  exec-Valid t (st, w) h v = perform-Valid t st w v

  and_then-Valid :
      (o : Option (Machine host)) (f : Machine host → Option (Machine host))
      → AllOk Valid o
      → ((s : Machine host) → Valid s → AllOk Valid (f s))
      → AllOk Valid (and_then host o f)
  and_then-Valid none f h k = tt
  and_then-Valid (some s) f h k = k s h

  pub run_back-Valid :
      (out : List Tok) (s : Machine host)
      → All IsTok out
      → Valid s
      → AllOk Valid (run_back host out s)
  unfolding run_back
  run_back-Valid [] s h v = v
  run_back-Valid (t ∷ out) s (ht, hs) v =
      and_then-Valid (run_back host out s) (exec host t) (run_back-Valid out s hs v)
        (λ u vu. exec-Valid t u ht vu)
