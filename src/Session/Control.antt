-- ===== src/Session/Control.antt =====
-- src/session.rs, `compile_control` and `compile_control_fused`: what the control-flow words put in the
-- body of the pending definition and on its control-flow stack.
use mf.Prelude.{ℕ, ◌-◌, List, [], ◌∷◌, ◌++◌, length, bit_xor, Option, some, none}
use mf.Prelude.Int.{pos}
use mf.Aenc.Transfer.{b, bcond}
use mf.Aenc.Emit.{
  emit_do, emit_loop, emit_plus_loop, emit_qdo, emit_leave, emit_unloop, emit_flag_test_cbz,
  patch_bcond, patch_cbz, patch_b,
}
use mf.Opt.Tok.{Cmp}
use mf.Opt.Fused.{fused_cmp}
use mf.Session.Def.{Result, ok, bail, panic, and_then, or_panic, or_bail, Cf, ColonDef}

-- The control-flow words.
pub data Control : Type 0 where
  if_word else_word then_word begin_word until_word while_word repeat_word : Control
  do_word qdo_word leave_word unloop_word exit_word loop_word plus_loop_word : Control

-- `else` and `repeat`: the forward branch of a test.
abbrev pub patch_test : Cf → List ℕ → ℕ → Result (List ℕ)
patch_test (Cf.fwd_cbz i) body here = or_panic (patch_cbz body i here)
patch_test (Cf.fwd_bcond i) body here = or_panic (patch_bcond body i here)
patch_test c body here = bail

-- `then` closes an `else` as well.
abbrev pub patch_fwd : Cf → List ℕ → ℕ → Result (List ℕ)
patch_fwd (Cf.fwd_b i) body here = or_panic (patch_b body i here)
patch_fwd c body here = patch_test c body here

abbrev pub with_cf : ColonDef → List Cf → Result (List ℕ) → Result ColonDef
with_cf def cf r = and_then r (λ body. ok (record def { body = body; cf = cf }))

-- The top of the control-flow stack.
abbrev pub pop_cf : List Cf → Result (Cf × List Cf)
pop_cf [] = bail
pop_cf (c ∷ cf) = ok (c, cf)

unfoldable pub compile_if : ColonDef → Result ColonDef
compile_if def =
    let (body, i) = emit_flag_test_cbz def.body in
    ok (record def { body = body; cf = Cf.fwd_cbz i ∷ def.cf })

-- The branch over the else-clause is patched at `then`.
unfoldable pub compile_else : ColonDef → Result ColonDef
compile_else def =
    let bidx = length def.body in
    let body = def.body ++ (b (pos 0) ∷ []) in
    and_then (pop_cf def.cf)
      (λ (c, cf). with_cf def (Cf.fwd_b bidx ∷ cf) (patch_test c body (length body)))

unfoldable pub compile_then : ColonDef → Result ColonDef
compile_then def =
    and_then (pop_cf def.cf) (λ (c, cf). with_cf def cf (patch_fwd c def.body (length def.body)))

unfoldable pub compile_begin : ColonDef → Result ColonDef
compile_begin def = ok (record def { cf = Cf.begin (length def.body) ∷ def.cf })

-- The target of a `begin` on the top of the control-flow stack.
abbrev pub pop_begin : List Cf → Result (ℕ × List Cf)
pop_begin (Cf.begin t ∷ cf) = ok (t, cf)
pop_begin cf = bail

abbrev pub pop_do : List Cf → Result (ℕ × List ℕ × List Cf)
pop_do (Cf.do_loop t fwds ∷ cf) = ok (t, fwds, cf)
pop_do cf = bail

unfoldable pub compile_until : ColonDef → Result ColonDef
compile_until def =
    let (body, i) = emit_flag_test_cbz def.body in
    and_then (pop_begin def.cf) (λ (t, cf). with_cf def cf (or_panic (patch_cbz body i t)))

-- `while` puts out what `if` does.
unfoldable pub compile_while : ColonDef → Result ColonDef
unfolding compile_if
compile_while def = compile_if def

unfoldable pub compile_repeat : ColonDef → Result ColonDef
compile_repeat def = and_then (pop_cf def.cf) (λ (wbranch, rest).
    and_then (pop_begin rest) (λ (target, cf).
      let bidx = length def.body in
      and_then (or_panic (patch_b (def.body ++ (b (pos 0) ∷ [])) bidx target))
        (λ body. with_cf def cf (patch_test wbranch body (length body)))))

unfoldable pub compile_do : ColonDef → Result ColonDef
compile_do def =
    let body = emit_do def.body in
    ok (record def { body = body; cf = Cf.do_loop (length body) [] ∷ def.cf })

unfoldable pub compile_qdo : ColonDef → Result ColonDef
compile_qdo def =
    let (body, skip) = emit_qdo def.body in
    ok (record def { body = body; cf = Cf.do_loop (length body) (skip ∷ []) ∷ def.cf })

-- The innermost `do` gets one more branch to patch; `none` is no `do` at all.
unfoldable pub push_leave : ℕ → List Cf → Option (List Cf)
push_leave i [] = none
push_leave i (Cf.do_loop t fwds ∷ cf) = some (Cf.do_loop t (fwds ++ (i ∷ [])) ∷ cf)
push_leave i (c ∷ cf) = elim (push_leave i cf) [ none ↦ none | some rest ↦ some (c ∷ rest) ]

unfoldable pub compile_leave : ColonDef → Result ColonDef
compile_leave def =
    let (body, i) = emit_leave def.body in
    and_then (or_bail (push_leave i def.cf)) (λ cf. ok (record def { body = body; cf = cf }))

unfoldable pub compile_unloop : ColonDef → Result ColonDef
compile_unloop def = ok (record def { body = emit_unloop def.body })

-- A branch to the epilogue.
unfoldable pub compile_exit : ColonDef → Result ColonDef
compile_exit def = ok (record def {
  body = def.body ++ (b (pos 0) ∷ []);
  exits = def.exits ++ (length def.body ∷ []);
})

-- A loop over places to patch.
unfoldable pub patch_all :
    (List ℕ → ℕ → ℕ → Option (List ℕ)) → List ℕ → ℕ → List ℕ → Result (List ℕ)
patch_all patch [] target body = ok body
patch_all patch (i ∷ places) target body =
    and_then (or_panic (patch body i target)) (patch_all patch places target)

-- `loop` and `+loop` differ in `emit`. The branches out of the loop go to its last word, which drops the
-- frame.
unfoldable pub close_do : (List ℕ → ℕ → List ℕ) → ColonDef → Result ColonDef
unfolding patch_all
close_do emit def = and_then (pop_do def.cf) (λ (top, fwds, cf).
    let body = emit def.body top in
    with_cf def cf (patch_all patch_bcond fwds (length body - 1) body))

unfoldable pub control : Control → ColonDef → Result ColonDef
control Control.if_word def = compile_if def
control Control.else_word def = compile_else def
control Control.then_word def = compile_then def
control Control.begin_word def = compile_begin def
control Control.until_word def = compile_until def
control Control.while_word def = compile_while def
control Control.repeat_word def = compile_repeat def
control Control.do_word def = compile_do def
control Control.qdo_word def = compile_qdo def
control Control.leave_word def = compile_leave def
control Control.unloop_word def = compile_unloop def
control Control.exit_word def = compile_exit def
control Control.loop_word def = close_do emit_loop def
control Control.plus_loop_word def = close_do emit_plus_loop def

-- `ctrue ^ 1` is the inverse condition.
unfoldable pub fused_branch : Cmp → ColonDef → List ℕ × ℕ
unfolding fused_cmp
fused_branch c def =
    let (body, ctrue) = fused_cmp c def.body in
    (body ++ (bcond (bit_xor ctrue 1) (pos 0) ∷ []), length body)

-- Any other word is unreachable.
unfoldable pub control_fused : Control → Cmp → ColonDef → Result ColonDef
unfolding fused_branch
control_fused Control.if_word c def =
    let (body, i) = fused_branch c def in
    ok (record def { body = body; cf = Cf.fwd_bcond i ∷ def.cf })
control_fused Control.while_word c def =
    let (body, i) = fused_branch c def in
    ok (record def { body = body; cf = Cf.fwd_bcond i ∷ def.cf })
control_fused Control.until_word c def =
    let (body, i) = fused_branch c def in
    and_then (pop_begin def.cf) (λ (t, cf). with_cf def cf (or_panic (patch_bcond body i t)))
control_fused w c def = panic
