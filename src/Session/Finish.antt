-- ===== src/Session/Finish.antt =====
-- A whole definition of structured code in src/session.rs, from `:` to the words in the arena.
use mf.Prelude.{
  ℕ, ◌+◌, ◌*◌, ◌≤◌, ◌≡◌, refl, sym, ap, ◌∙◌, arith, List, [], ◌∷◌, ◌++◌, append-nil, append_assoc,
  length, length-append, Bool, true, false, ◌||◌, Option, none, some,
}
use mf.Aenc.Transfer.{br_reg}
use mf.Aenc.Emit.{
  call_tmp, emit_unnest, emit_unnest_ret, emit_tail_call, emit_nest, load_imm64, patch_b,
}
use mf.Arena.Store.{Memory, fetch_words}
use mf.Arena.{CodeArena, commit, next_addr, start}
use mf.Arena.Commit.{commit_lem}
use mf.Opt.Tok.{Tok}
use mf.Session.Def.{Result, ok, and_then, Cf, ColonDef}
use mf.Session.Control.{patch_all}
use mf.Session.Layout.{
  Block, run, seq, if_then, if_else, until, while, counted, leave, unloop, exit, items, leaves_loop,
  size, leaves, exits, layout, leave_branch, leave_hole, exit_branch, exit_hole,
}
use mf.Session.Structure.{turns_leaves, turns_exits, length-layout}
use mf.Session.Loops.{add_leaves}
use mf.Session.Steps.{compile}
use mf.Session.Compile.{LeavesIn, after, compile-items}
use mf.Session.Commit.{
  Compiler, open_colon, drop_frame, tail_path, with_epilogue, finish_body, flush_toks, commit_body,
  tail_call, commit_words, keep_inline, closed_toks,
}

or_false : (x y : Bool) → x || y ≡ false → (x ≡ false) × (y ≡ false)
or_false true y h = absurd (cc h)
or_false false y h = (refl, h)

-- Where no `leave` is outside a loop, no branch is left to patch.
no_leaves : (p : Block) (n : ℕ) → leaves_loop p ≡ false → leaves p n ≡ []
unfolding leaves leaves_loop
no_leaves (run ws) n h = refl
no_leaves (seq p q) n h =
    let (hp, hq) = or_false (leaves_loop p) (leaves_loop q) h in
    rw (no_leaves p n hp) (no_leaves q _ hq)
no_leaves (if_then t p) n h = no_leaves p _ h
no_leaves (if_else t p q) n h =
    let (hp, hq) = or_false (leaves_loop p) (leaves_loop q) h in
    rw (no_leaves p _ hp) (no_leaves q _ hq)
no_leaves (until p t) n h = no_leaves p n h
no_leaves (while p t q) n h =
    let (hp, hq) = or_false (leaves_loop p) (leaves_loop q) h in
    rw (no_leaves p n hp) (no_leaves q _ hq)
no_leaves (counted q s p) n h = refl
no_leaves leave n h = absurd (cc h)
no_leaves unloop n h = refl
no_leaves exit n h = refl

abbrev or_nil : Result (List ℕ) → List ℕ
or_nil (ok ws) = ws
or_nil r = []

layout_no_leaves :
    (x : ℕ → ℕ) (k e : ℕ) (p : Block)
    → leaves_loop p ≡ false
    → layout leave_hole x k e p ≡ layout leave_branch x k e p
unfolding patch_all
layout_no_leaves x k e p h =
    let t = turns_leaves x (0 + size p + k) p 0 k e refl in
    let u = rw (no_leaves p 0 h) at (t [] [] refl) in
    sym (append-nil _) ∙ ap or_nil u ∙ append-nil _

-- The words behind the body on the way to a callee in tail position: the frame is dropped, the return
-- address of the caller restored, and the address of the callee goes to the register of the jump.
abbrev pub tail_words : List (List ℕ) → Option ℕ → List ℕ
tail_words locals none = []
tail_words locals (some xt) =
    drop_frame locals []
    ++ (emit_unnest [] ++ (load_imm64 call_tmp xt [] ++ (br_reg call_tmp ∷ [])))

-- The epilogue, where there is one.
abbrev pub epilogue_words : List (List ℕ) → Option ℕ → List ℕ → List ℕ
epilogue_words locals (some xt) [] = []
epilogue_words locals tail exits = emit_unnest_ret (drop_frame locals [])

drop_frame_lem :
    (locals : List (List ℕ)) (body : List ℕ) → drop_frame locals body ≡ body ++ drop_frame locals []
drop_frame_lem [] body = sym (append-nil body)
drop_frame_lem (l ∷ locals) body = refl

assoc3 : (p x y z : List ℕ) → p ++ x ++ y ++ z ≡ p ++ (x ++ y ++ z)
assoc3 p x y z = ap (λ a. a ++ z) (append_assoc p x y) ∙ append_assoc p (x ++ y) z

emit_unnest_ret_lem :
    (body out : List ℕ) → emit_unnest_ret (body ++ out) ≡ body ++ emit_unnest_ret out
unfolding emit_unnest_ret emit_unnest
emit_unnest_ret_lem body out = assoc3 body out _ _

tail_path_lem :
    (locals : List (List ℕ)) (tail : Option ℕ) (body : List ℕ)
    → tail_path locals tail body ≡ body ++ tail_words locals tail
unfolding tail_path emit_tail_call load_imm64 emit_unnest
tail_path_lem locals none body = sym (append-nil body)
tail_path_lem locals (some xt) body =
    let frame = drop_frame locals [] in
    let jump = load_imm64 call_tmp xt [] ++ (br_reg call_tmp ∷ []) in
    rw (drop_frame_lem locals body) (
      append_assoc ((body ++ frame) ++ emit_unnest []) (load_imm64 call_tmp xt [])
        (br_reg call_tmp ∷ [])
      ∙ append_assoc (body ++ frame) (emit_unnest []) jump
      ∙ append_assoc body frame (emit_unnest [] ++ jump))

with_epilogue_lem :
    (locals : List (List ℕ)) (tail : Option ℕ) (exits body : List ℕ)
    → with_epilogue locals tail exits body
      ≡ patch_all patch_b exits (length body) (body ++ epilogue_words locals tail exits)
unfolding with_epilogue patch_all
with_epilogue_lem locals (some xt) [] body = ap ok (sym (append-nil body))
with_epilogue_lem locals none exits body =
    rw (drop_frame_lem locals body, emit_unnest_ret_lem body (drop_frame locals [])) refl
with_epilogue_lem locals (some xt) (i ∷ exits) body =
    rw (drop_frame_lem locals body, emit_unnest_ret_lem body (drop_frame locals [])) refl

-- The words of a finished definition: a block after `pre`, the way out, and the epilogue.
abbrev pub finished : List ℕ → List (List ℕ) → Option ℕ → Block → List ℕ
finished pre locals tail p =
    let tw = tail_words locals tail in
    pre
    ++ (layout leave_branch exit_branch 0 (length tw) p
        ++ (tw ++ epilogue_words locals tail (exits p (length pre))))

false_not_true : (p : Block) (cf : List Cf) → leaves_loop p ≡ false → LeavesIn p cf
false_not_true p cf h t = absurd (cc (h, t))

-- The end of a definition of structured code, with a call in tail position or without, patches every
-- `exit` to the epilogue: the words are the body before, the layout of the block with each `exit` at
-- its distance, the way to the callee (the frame dropped, the return address restored, the address
-- of the callee loaded and jumped to), and the epilogue, which is left out after a tail call without
-- `exit`. No `leave` stands outside a loop.
pub finish_body-compile :
    (p : Block) (tail : Option ℕ) (def : ColonDef)
    → leaves_loop p ≡ false
    → and_then (compile (items p) (record def { cf = []; exits = [] })) (finish_body tail)
      ≡ ok (finished def.body def.locals tail p)
unfolding finish_body add_leaves
finish_body-compile p tail def h =
    let n = length def.body in
    let tw = tail_words def.locals tail in
    let e = length tw in
    let epi = epilogue_words def.locals tail (exits p n) in
    let hole = layout leave_hole exit_hole 0 e p in
    let begun = record def { cf = []; exits = [] } in
    let target : length (def.body ++ hole ++ tw) ≡ n + size p + e =
      let z = length-layout leave_hole exit_hole 0 e p in grind (arith, length-append) in
    let t = turns_exits leave_hole (n + size p + e) p n 0 e refl def.body (tw ++ epi) refl in
    rw
      (
        compile-items p n 0 e begun refl (false_not_true p [] h),
        tail_path_lem def.locals tail (def.body ++ hole),
        with_epilogue_lem def.locals tail (exits p n) (def.body ++ hole ++ tw),
        target,
        ← layout_no_leaves exit_branch 0 e p h,
        append_assoc (def.body ++ hole) tw epi,
        append_assoc def.body hole (tw ++ epi),
      )
      t

commit_words_lem :
    (tail : Option ℕ) (def : ColonDef) (c : Compiler) (words : List ℕ) (xt : ℕ) (code : CodeArena)
    (memory : Memory)
    → commit c.code c.memory words ≡ some (xt, code, memory)
    → commit_words tail def c words
      ≡ ok (
        xt,
        record c {
          code = code;
          memory = memory;
          inline_words = keep_inline xt (closed_toks tail def) def c;
        },
      )
unfolding commit_words
commit_words_lem tail def c words xt code memory e = rw (e, commit_words) refl

-- Reading the words of a block of structured code after `:` and committing at `;` gives the address
-- promised at `:`, and there stand the words of the return address saved, of the layout of the block
-- with each `exit` at its distance to the epilogue, and of the epilogue. No `leave` stands outside a
-- loop, the definition has no locals, each run of tokens was lowered at a control-flow word, and the
-- words fit in the arena.
pub commit_body-compile :
    (lower : List Tok → List ℕ → Option (List ℕ)) (p : Block) (name : List ℕ) (c : Compiler)
    → leaves_loop p ≡ false
    → start c.code + length (finished (emit_nest []) [] none p) * 4 ≤ c.code.cap
    → (after : Compiler) × (and_then
          (compile (items p) (open_colon name c))
          (λ def. commit_body lower def c)
        ≡ ok ((open_colon name c).self_xt, after))
      × (fetch_words after.memory
            (open_colon name c).self_xt
            (length (finished (emit_nest []) [] none p))
          ≡ finished (emit_nest []) [] none p)
unfolding commit_body flush_toks tail_call open_colon
commit_body-compile lower p name c h r =
    let words = finished (emit_nest []) [] none p in
    let (code, memory, e, a, f, g, u) = commit_lem c.code c.memory words r in
    let def = open_colon name c in
    let i = compile-items p (length def.body) 0 0 def refl (false_not_true p [] h) in
    let d = after p (length def.body) 0 0 def in
    let q : finish_body none d ≡ ok words = rw i at (finish_body-compile p none def h) in
    (
      record c {
        code = code;
        memory = memory;
        inline_words = keep_inline (next_addr c.code) (closed_toks none d) d c;
      },
      rw (i, q) (commit_words_lem none d c words (next_addr c.code) code memory e),
      f,
    )
