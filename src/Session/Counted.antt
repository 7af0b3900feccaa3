-- ===== src/Session/Counted.antt =====
-- What the compiler of src/session.rs does on `do`, `?do`, `loop` and `+loop`.
use mf.Prelude.{
  ℕ, suc, ◌+◌, ◌-◌, ◌≡◌, refl, ap, ◌∙◌, arith, List, [], ◌∷◌, ◌++◌, append_assoc, length,
  length-append, Bool, true, false,
}
use mf.Prelude.Int.{pos, sub_ℕ}
use mf.Aenc.Conditions.{eq}
use mf.Aenc.Transfer.{bcond, tbz, add_imm}
use mf.Aenc.Emit.{rp, patch_bcond, emit_do, emit_qdo, emit_loop, emit_plus_loop}
use mf.Session.Def.{ok, Cf, ColonDef}
use mf.Session.Control.{control, patch_all, compile_do, compile_qdo, close_do}
use mf.Session.Layout.{
  Item, do_word, loop_word, step_words, step_size, start_words, skip_words, do_words, do_size,
}
use mf.Session.Patches.{Patched, turns-append, patch_bcond_at, sub_ahead, sub_back, skip_condition}
use mf.Session.Structure.{length-do_words}
use mf.Session.Steps.{compile_item}

-- The branch of `?do` that stands at the end of its words.
abbrev pub skip_place : Bool → ℕ → List ℕ
skip_place true n = (n + 8) ∷ []
skip_place false n = []

pub do_lem :
    (q : Bool) (def : ColonDef) (n : ℕ)
    → length def.body ≡ n
    → compile_item (Item.word (do_word q)) def
      ≡ ok (record def {
        body = def.body ++ do_words q (pos 0);
        cf = Cf.do_loop (n + do_size q) (skip_place q n) ∷ def.cf;
      })
unfolding compile_item control compile_do compile_qdo emit_do emit_qdo
do_lem false def n h = rw (length-append def.body start_words, h) refl
do_lem true def n h =
    let e : n + 5 + 3 ≡ n + 8 = omega arith in
    rw
      (
        append_assoc (def.body ++ start_words) skip_words (bcond eq (pos 0) ∷ []),
        append_assoc def.body start_words (skip_words ++ (bcond eq (pos 0) ∷ [])),
        length-append def.body (do_words true (pos 0)),
        length-append (def.body ++ start_words) skip_words,
        length-append def.body start_words,
        h,
        e,
      )
      refl

turns_skip :
    (q : Bool) (n d target : ℕ)
    → n + do_size q + d ≡ suc target
    → Patched patch_bcond target (skip_place q n) n (do_words q (pos 0)) (do_words q (pos d))
unfolding patch_all
turns_skip false n d target h pre post e = refl
turns_skip true n d target h pre post e =
    let ws = start_words ++ skip_words in
    let l : length (pre ++ ws) ≡ n + 8 = length-append pre ws ∙ ap (◌+ 8) e in
    let q : target ≡ length (pre ++ ws) + d = omega arith in
    let r = patch_bcond_at (pre ++ ws) (bcond eq (pos 0)) post target in
    rw
      (
        ← append_assoc pre ws (bcond eq (pos 0) ∷ post),
        ← append_assoc pre ws (bcond eq (pos d) ∷ post),
        ← l,
        r,
        q,
        sub_ahead (length (pre ++ ws)) d,
        skip_condition,
      )
      refl

abbrev emit : Bool → List ℕ → ℕ → List ℕ
emit true out top = emit_plus_loop out top
emit false out top = emit_loop out top

emit_shape :
    (out ws : List ℕ) (top : ℕ)
    → out ++ ws ++ (tbz 11 63 (sub_ℕ top (length (out ++ ws))) ∷ add_imm rp rp 16 ∷ [])
      ≡ out ++ (ws ++ (tbz 11 63 (sub_ℕ top (length out + length ws)) ∷ add_imm rp rp 16 ∷ []))
emit_shape out ws top =
    rw (← length-append out ws)
      (append_assoc out ws (tbz 11 63 (sub_ℕ top (length (out ++ ws))) ∷ add_imm rp rp 16 ∷ []))

emit_lem :
    (s : Bool) (out : List ℕ) (top : ℕ)
    → emit s out top
      ≡ out
        ++ (step_words s
            ++ (tbz 11 63 (sub_ℕ top (length out + step_size s)) ∷ add_imm rp rp 16 ∷ []))
unfolding emit_loop emit_plus_loop
emit_lem true out top = emit_shape out (step_words true) top
emit_lem false out top = emit_shape out (step_words false) top

control_loop : (s : Bool) (def : ColonDef) → control (loop_word s) def ≡ close_do (emit s) def
unfolding control
control_loop true def = refl
control_loop false def = refl

pub loop_lem :
    (q s : Bool) (def : ColonDef) (pre behind behind' : List ℕ) (n m : ℕ) (ls : List ℕ)
    (cf : List Cf)
    → length pre ≡ n
    → length behind ≡ m
    → length behind' ≡ m
    → Patched patch_bcond (n + do_size q + m + suc (step_size s)) ls (n + do_size q) behind behind'
    → compile_item (Item.word (loop_word s)) (record def {
      body = pre ++ do_words q (pos 0) ++ behind;
      cf = Cf.do_loop (n + do_size q) (skip_place q n ++ ls) ∷ cf;
    })
      ≡ ok (record def {
        body =
            pre
            ++ (do_words q (pos (suc (m + suc (step_size s))))
                ++ (behind'
                    ++ (step_words s
                        ++ (tbz 11 63 (sub_ℕ 0 (m + step_size s)) ∷ add_imm rp rp 16 ∷ []))));
        cf = cf;
      })
unfolding compile_item control close_do
loop_lem q s def pre behind behind' n m ls cf h k k' t =
    let top = n + do_size q in
    let start = do_words q (pos 0) in
    let tail = step_words s ++ (tbz 11 63 (sub_ℕ 0 (m + step_size s)) ∷ add_imm rp rp 16 ∷ []) in
    let size_tail : length tail ≡ step_size s + 2 = length-append (step_words s) _ in
    let d = length-do_words q (pos 0) in
    let o : length (pre ++ start ++ behind) + step_size s ≡ top + (m + step_size s) =
      grind (arith, length-append) in
    let a : emit s (pre ++ start ++ behind) top ≡ pre ++ (start ++ behind ++ tail) =
      emit_lem s (pre ++ start ++ behind) top
      ∙ rw (o, sub_back top (m + step_size s), append_assoc pre start behind)
          (append_assoc pre (start ++ behind) tail) in
    let e : length (pre ++ (start ++ behind ++ tail)) - 1 ≡ top + m + suc (step_size s) =
      grind (arith, length-append) in
    let u =
      turns-append patch_bcond (top + m + suc (step_size s)) (skip_place q n) ls n (do_size q) start
        (do_words q (pos (suc (m + suc (step_size s))))) behind behind'
        (turns_skip q n (suc (m + suc (step_size s))) (top + m + suc (step_size s)) (omega arith))
        (length-do_words q (pos (suc (m + suc (step_size s))))) t in
    control_loop s _
    ∙ rw (a, e, u pre tail h)
        (rw (append_assoc (do_words q (pos (suc (m + suc (step_size s))))) behind' tail) refl)
