-- ===== src/Session/Steps.antt =====
-- What the compiler of src/session.rs does on one word of structured code.
use mf.Prelude.{
  ℕ, suc, ◌+◌, ◌≡◌, refl, sym, ap, ◌∙◌, arith, List, [], ◌∷◌, ◌++◌, append_assoc, length,
  length-append,
}
use mf.Prelude.Int.{pos, sub_ℕ}
use mf.Aenc.Transfer.{b}
use mf.Aenc.Emit.{emit_flag_test_cbz}
use mf.Opt.Tok.{Cmp}
use mf.Opt.Fused.{fused_cmp}
use mf.Session.Def.{Result, ok, bail, panic, and_then, Cf, ColonDef}
use mf.Session.Control.{
  Control, control, control_fused, with_cf, patch_test, patch_fwd, compile_if, compile_else,
  compile_then, compile_while, compile_until, compile_repeat, fused_branch,
}
use mf.Session.Layout.{Test, flag, fused, Item, test_item, test_words, test_branch, test_size}
use mf.Session.Patches.{test_cf, patch_test_at, patch_b_at, sub_ahead, sub_back}

-- What reading one item does: a run of tokens is lowered onto the body.
unfoldable pub compile_item : Item → ColonDef → Result ColonDef
compile_item (Item.flushed ws) def = ok (record def { body = def.body ++ ws })
compile_item (Item.word w) def = control w def
compile_item (Item.fused_word w c) def = control_fused w c def

unfoldable pub compile : List Item → ColonDef → Result ColonDef
compile [] def = ok def
compile (i ∷ is) def = and_then (compile_item i def) (compile is)

pub and_then_step :
    {A B C : Type 0} (f : A → Result B) (g : A → Result C) (h : C → Result B) (r : Result A)
    → ((a : A) → f a ≡ and_then (g a) h)
    → and_then r f ≡ and_then (and_then r g) h
and_then_step f g h (ok a) e = e a
and_then_step f g h bail e = refl
and_then_step f g h panic e = refl

pub compile-append :
    (is js : List Item) (def : ColonDef)
    → compile (is ++ js) def ≡ and_then (compile is def) (compile js)
unfolding compile
compile-append [] js def = refl
compile-append (i ∷ is) js def =
    and_then_step (compile (is ++ js)) (compile is) (compile js) (compile_item i def)
      (compile-append is js)

-- The shape of a body while a test is open.
close_shape :
    (pre ws behind : List ℕ) (w : ℕ) → pre ++ (ws ++ (w ∷ [])) ++ behind ≡ pre ++ ws ++ (w ∷ behind)
close_shape pre ws behind w =
    ap (λ a. a ++ behind) (sym (append_assoc pre ws (w ∷ [])))
    ∙ append_assoc (pre ++ ws) (w ∷ []) behind

patch_at_lem :
    (t : Test) (pre behind : List ℕ) (n target : ℕ)
    → length pre + test_size t ≡ n
    → patch_test (test_cf t n) (pre ++ test_words t ++ (test_branch t (pos 0) ∷ behind)) target
      ≡ ok (pre ++ (test_words t ++ (test_branch t (sub_ℕ target n) ∷ behind)))
patch_at_lem t pre behind n target h =
    let l : length (pre ++ test_words t) ≡ n = length-append pre (test_words t) ∙ h in
    let q = patch_test_at t (pre ++ test_words t) behind target in
    rw (← append_assoc pre (test_words t) (test_branch t (sub_ℕ target n) ∷ behind), ← l) q

-- A patched test, with what stands behind it.
patch_test_lem :
    (t : Test) (pre behind : List ℕ) (n target d : ℕ)
    → length pre + test_size t ≡ n
    → n + d ≡ target
    → patch_test
        (test_cf t n)
        (pre ++ (test_words t ++ (test_branch t (pos 0) ∷ [])) ++ behind)
        target
      ≡ ok (pre ++ (test_words t ++ (test_branch t (pos d) ∷ behind)))
patch_test_lem t pre behind n target d h k =
    let q = patch_at_lem t pre behind n target h in
    rw (close_shape pre (test_words t) behind (test_branch t (pos 0)), ← sub_ahead n d, k) q

patch_fwd_lem :
    (t : Test) (pre behind : List ℕ) (n target d : ℕ)
    → length pre + test_size t ≡ n
    → n + d ≡ target
    → patch_fwd
        (test_cf t n)
        (pre ++ (test_words t ++ (test_branch t (pos 0) ∷ [])) ++ behind)
        target
      ≡ ok (pre ++ (test_words t ++ (test_branch t (pos d) ∷ behind)))
patch_fwd_lem flag pre behind n target d h k = patch_test_lem flag pre behind n target d h k
patch_fwd_lem (fused c) pre behind n target d h k =
    patch_test_lem (fused c) pre behind n target d h k

opened :
    (c : ℕ → Cf) (ws : List ℕ) (w : ℕ) (def : ColonDef)
    → ok (record def {
      body = def.body ++ ws ++ (w ∷ []);
      cf = c (length (def.body ++ ws)) ∷ def.cf;
    })
      ≡ ok (record def {
        body = def.body ++ (ws ++ (w ∷ []));
        cf = c (length def.body + length ws) ∷ def.cf;
      })
opened c ws w def = rw (append_assoc def.body ws (w ∷ []), length-append def.body ws) refl

fused_cmp_lem :
    (c : Cmp) (out : List ℕ) → fused_cmp c out ≡ (out ++ (fused_cmp c []).0, (fused_cmp c []).1)
unfolding fused_cmp
fused_cmp_lem Cmp.zeq out = refl
fused_cmp_lem c out = refl

pub open_if :
    (t : Test) (def : ColonDef)
    → compile_item (test_item Control.if_word t) def
      ≡ ok (record def {
        body = def.body ++ (test_words t ++ (test_branch t (pos 0) ∷ []));
        cf = test_cf t (length def.body + test_size t) ∷ def.cf;
      })
unfolding compile_item control compile_if control_fused fused_branch emit_flag_test_cbz
open_if flag def = opened Cf.fwd_cbz (test_words flag) (test_branch flag (pos 0)) def
open_if (fused c) def =
    rw (fused_cmp_lem c def.body)
      (opened Cf.fwd_bcond (test_words (fused c)) (test_branch (fused c) (pos 0)) def)

pub open_while :
    (t : Test) (def : ColonDef)
    → compile_item (test_item Control.while_word t) def
      ≡ compile_item (test_item Control.if_word t) def
unfolding compile_item control compile_while control_fused
open_while flag def = refl
open_while (fused c) def = refl

-- A test at the end of a body, patched to a place before it.
patch_back :
    (t : Test) (pre : List ℕ) (top d : ℕ)
    → top + d ≡ length pre
    → patch_test
        (test_cf t (length (pre ++ test_words t)))
        (pre ++ test_words t ++ (test_branch t (pos 0) ∷ []))
        top
      ≡ ok (pre ++ (test_words t ++ (test_branch t (sub_ℕ 0 (d + test_size t)) ∷ [])))
patch_back t pre top d h =
    let n = length (pre ++ test_words t) in
    let l : n ≡ length pre + test_size t = length-append pre (test_words t) in
    let e : n ≡ top + (d + test_size t) = omega arith in
    let s : sub_ℕ top n ≡ sub_ℕ 0 (d + test_size t) =
      ap (sub_ℕ top) e ∙ sub_back top (d + test_size t) in
    rw (← s) (patch_at_lem t pre [] n top (sym l))

-- `until` with the `begin` on the stack, `d` words behind.
pub until_lem :
    (t : Test) (def : ColonDef) (cf : List Cf) (top d : ℕ)
    → top + d ≡ length def.body
    → compile_item (test_item Control.until_word t) (record def { cf = Cf.begin top ∷ cf })
      ≡ ok (record def {
        body = def.body ++ (test_words t ++ (test_branch t (sub_ℕ 0 (d + test_size t)) ∷ []));
        cf = cf;
      })
unfolding compile_item control compile_until control_fused fused_branch emit_flag_test_cbz
until_lem flag def cf top d h = ap (with_cf def cf) (patch_back flag def.body top d h)
until_lem (fused c) def cf top d h =
    rw (fused_cmp_lem c def.body) (ap (with_cf def cf) (patch_back (fused c) def.body top d h))

pub then_lem :
    (t : Test) (def : ColonDef) (pre behind : List ℕ) (n s : ℕ) (cf : List Cf)
    → length pre + test_size t ≡ n
    → length behind ≡ s
    → compile_item (Item.word Control.then_word) (record def {
      body = pre ++ (test_words t ++ (test_branch t (pos 0) ∷ [])) ++ behind;
      cf = test_cf t n ∷ cf;
    })
      ≡ ok (record def {
        body = pre ++ (test_words t ++ (test_branch t (pos (suc s)) ∷ behind));
        cf = cf;
      })
unfolding compile_item control compile_then
then_lem t def pre behind n s cf h k =
    let body = pre ++ (test_words t ++ (test_branch t (pos 0) ∷ [])) ++ behind in
    let e : n + suc s ≡ length body = grind (arith, length-append) in
    ap (with_cf def cf) (patch_fwd_lem t pre behind n (length body) (suc s) h e)

-- `else` jumps over what comes after it, and `then` closes it.
pub else_lem :
    (t : Test) (def : ColonDef) (pre behind : List ℕ) (n m s : ℕ) (cf : List Cf)
    → length pre + test_size t ≡ n
    → length behind ≡ s
    → n + suc s ≡ m
    → compile_item (Item.word Control.else_word) (record def {
      body = pre ++ (test_words t ++ (test_branch t (pos 0) ∷ [])) ++ behind;
      cf = test_cf t n ∷ cf;
    })
      ≡ ok (record def {
        body =
            pre
            ++ (test_words t ++ (test_branch t (pos (suc (suc s))) ∷ (behind ++ (b (pos 0) ∷ []))));
        cf = Cf.fwd_b m ∷ cf;
      })
unfolding compile_item control compile_else
else_lem t def pre behind n m s cf h k l =
    let open_body = pre ++ (test_words t ++ (test_branch t (pos 0) ∷ [])) in
    let body = open_body ++ (behind ++ (b (pos 0) ∷ [])) in
    let a : open_body ++ behind ++ (b (pos 0) ∷ []) ≡ body =
      append_assoc open_body behind (b (pos 0) ∷ []) in
    let i : length (open_body ++ behind) ≡ m = grind (arith, length-append) in
    let e : n + suc (suc s) ≡ length body = grind (arith, length-append) in
    rw (a, i)
      (ap (with_cf def (Cf.fwd_b m ∷ cf))
        (patch_test_lem t pre (behind ++ (b (pos 0) ∷ [])) n (length body) (suc (suc s)) h e))

pub endif_lem :
    (def : ColonDef) (pre behind : List ℕ) (n s : ℕ) (cf : List Cf)
    → length pre ≡ n
    → length behind ≡ s
    → compile_item
        (Item.word Control.then_word)
        (record def { body = pre ++ (b (pos 0) ∷ behind); cf = Cf.fwd_b n ∷ cf })
      ≡ ok (record def { body = pre ++ (b (pos (suc s)) ∷ behind); cf = cf })
unfolding compile_item control compile_then
endif_lem def pre behind n s cf h k =
    let body = pre ++ (b (pos 0) ∷ behind) in
    let e : length body ≡ length pre + suc s = grind (arith, length-append) in
    rw (← h, patch_b_at pre (b (pos 0)) behind (length body), e, sub_ahead (length pre) (suc s))
      refl

-- `repeat` jumps back to the `begin`, `d` words before, and closes the `while`.
pub repeat_lem :
    (t : Test) (def : ColonDef) (pre behind : List ℕ) (n s top d : ℕ) (cf : List Cf)
    → length pre + test_size t ≡ n
    → length behind ≡ s
    → top + d ≡ n + suc s
    → compile_item (Item.word Control.repeat_word) (record def {
      body = pre ++ (test_words t ++ (test_branch t (pos 0) ∷ [])) ++ behind;
      cf = test_cf t n ∷ Cf.begin top ∷ cf;
    })
      ≡ ok (record def {
        body =
            pre
            ++ (test_words t
                ++ (test_branch t (pos (suc (suc s))) ∷ (behind ++ (b (sub_ℕ 0 d) ∷ []))));
        cf = cf;
      })
unfolding compile_item control compile_repeat
repeat_lem t def pre behind n s top d cf h k l =
    let open_body = pre ++ (test_words t ++ (test_branch t (pos 0) ∷ [])) in
    let body = open_body ++ (behind ++ (b (sub_ℕ 0 d) ∷ [])) in
    let a : open_body ++ behind ++ (b (sub_ℕ 0 d) ∷ []) ≡ body =
      append_assoc open_body behind (b (sub_ℕ 0 d) ∷ []) in
    let i : length (open_body ++ behind) ≡ top + d = grind (arith, length-append) in
    let o : sub_ℕ top (length (open_body ++ behind)) ≡ sub_ℕ 0 d =
      ap (sub_ℕ top) i ∙ sub_back top d in
    let e : n + suc (suc s) ≡ length body = grind (arith, length-append) in
    rw (patch_b_at (open_body ++ behind) (b (pos 0)) [] top, o, a)
      (ap (with_cf def cf)
        (patch_test_lem t pre (behind ++ (b (sub_ℕ 0 d) ∷ [])) n (length body) (suc (suc s)) h e))
