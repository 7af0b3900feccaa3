-- ===== src/Session/Pins/Inline.antt =====
-- The control-flow words of src/session.rs and the tokens kept for inlining do not meet.
use mf.Prelude.{ℕ, ◌≡◌, refl, List, Option, length}
use mf.Aenc.Emit.{emit_loop, emit_plus_loop, emit_flag_test_cbz, emit_qdo, emit_leave, patch_b}
use mf.Opt.Tok.{Tok, Cmp}
use mf.Session.Def.{Result, ok, bail, panic, and_then, or_panic, or_bail, Cf, ColonDef}
use mf.Session.Control.{
  Control, control, control_fused, with_cf, pop_begin, pop_do, pop_cf, push_leave, compile_if,
  compile_else, compile_then, compile_begin, compile_until, compile_while, compile_repeat,
  compile_do, compile_qdo, compile_leave, compile_unloop, compile_exit, close_do, fused_branch,
}
use mf.Session.Steps.{and_then_step}

module _ (x : Option (List Tok)) where
  abbrev pub set_inline : ColonDef → ColonDef
  set_inline def = record def { inline_toks = x }

  abbrev pub kept : ColonDef → Result ColonDef
  kept d = ok (set_inline d)

  with_cf_inline :
      (def : ColonDef) (cf : List Cf) (r : Result (List ℕ))
      → with_cf (set_inline def) cf r ≡ and_then (with_cf def cf r) kept
  with_cf_inline def cf (ok ws) = refl
  with_cf_inline def cf bail = refl
  with_cf_inline def cf panic = refl

  close_do_inline :
      (emit : List ℕ → ℕ → List ℕ) (def : ColonDef)
      → close_do emit (set_inline def) ≡ and_then (close_do emit def) kept
  unfolding close_do
  close_do_inline emit def =
      and_then_step _ _ kept (pop_do def.cf) (λ (top, fwds, cf). with_cf_inline def cf _)

  until_inline :
      (def : ColonDef) → compile_until (set_inline def) ≡ and_then (compile_until def) kept
  unfolding compile_until
  until_inline def = and_then_step _ _ kept (pop_begin def.cf) (λ (t, cf). with_cf_inline def cf _)

  else_inline : (def : ColonDef) → compile_else (set_inline def) ≡ and_then (compile_else def) kept
  unfolding compile_else
  else_inline def = and_then_step _ _ kept (pop_cf def.cf) (λ (c, cf). with_cf_inline def _ _)

  then_inline : (def : ColonDef) → compile_then (set_inline def) ≡ and_then (compile_then def) kept
  unfolding compile_then
  then_inline def = and_then_step _ _ kept (pop_cf def.cf) (λ (c, cf). with_cf_inline def _ _)

  repeat_inline :
      (def : ColonDef) → compile_repeat (set_inline def) ≡ and_then (compile_repeat def) kept
  unfolding compile_repeat
  repeat_inline def = and_then_step _ _ kept (pop_cf def.cf) (λ (c, rest).
      and_then_step _ _ kept (pop_begin rest) (λ (t, cf).
        and_then_step _ _ kept (or_panic (patch_b _ _ t)) (λ body. with_cf_inline def cf _)))

  leave_inline :
      (def : ColonDef) → compile_leave (set_inline def) ≡ and_then (compile_leave def) kept
  unfolding compile_leave emit_leave
  leave_inline def =
      and_then_step _ _ kept (or_bail (push_leave (length def.body) def.cf)) (λ cf. refl)

  pub control_inline :
      (w : Control) (def : ColonDef) → control w (set_inline def) ≡ and_then (control w def) kept
  unfolding control compile_if compile_while compile_begin compile_do compile_qdo compile_unloop
      compile_exit emit_flag_test_cbz emit_qdo
  control_inline Control.if_word def = refl
  control_inline Control.else_word def = else_inline def
  control_inline Control.then_word def = then_inline def
  control_inline Control.begin_word def = refl
  control_inline Control.until_word def = until_inline def
  control_inline Control.while_word def = refl
  control_inline Control.repeat_word def = repeat_inline def
  control_inline Control.do_word def = refl
  control_inline Control.qdo_word def = refl
  control_inline Control.leave_word def = leave_inline def
  control_inline Control.unloop_word def = refl
  control_inline Control.exit_word def = refl
  control_inline Control.loop_word def = close_do_inline emit_loop def
  control_inline Control.plus_loop_word def = close_do_inline emit_plus_loop def

  pub control_fused_inline :
      (w : Control) (c : Cmp) (def : ColonDef)
      → control_fused w c (set_inline def) ≡ and_then (control_fused w c def) kept
  unfolding control_fused fused_branch
  control_fused_inline Control.if_word c def = refl
  control_fused_inline Control.while_word c def = refl
  control_fused_inline Control.until_word c def =
      and_then_step _ _ kept (pop_begin def.cf) (λ (t, cf). with_cf_inline def cf _)
  control_fused_inline w c def = refl
