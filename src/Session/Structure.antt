-- ===== src/Session/Structure.antt =====
-- The branches out of a block of src/session.rs: patching them at their places gives the layout.
use mf.Prelude.{
  ℕ, suc, ◌+◌, ◌≡◌, refl, ap, arith, List, [], ◌∷◌, ◌++◌, length, length-append, Bool, true, false,
  Option,
}
use mf.Prelude.Int.{ℤ, pos, sub_ℕ}
use mf.Aenc.Transfer.{b, tbz, add_imm}
use mf.Aenc.Emit.{rp, patch_bcond, patch_b}
use mf.Session.Control.{patch_all}
use mf.Session.Layout.{
  Block, run, seq, if_then, if_else, until, while, counted, leave, unloop, exit, test_words,
  test_branch, test_size, step_words, step_size, do_words, do_size, size, leaves, exits, layout,
  leave_branch, leave_hole, exit_branch, exit_hole,
}
use mf.Session.Patches.{
  Patched, turns_nothing, turns_front, turns-append, turns_back, patch_bcond_at, patch_b_at,
  sub_ahead, leave_condition,
}

pub length-do_words : (q : Bool) (off : ℤ) → length (do_words q off) ≡ do_size q
length-do_words true off = refl
length-do_words false off = refl

-- The words of a block are as many as its size says.
pub length-layout : (l x : ℕ → ℕ) (k e : ℕ) (p : Block) → length (layout l x k e p) ≡ size p
unfolding layout size
length-layout l x k e (run ws) = refl
length-layout l x k e (seq p q) =
    let lp = length-layout l x (size q + k) (size q + e) p in
    let lq = length-layout l x k e q in grind (arith, length-append)
length-layout l x k e (if_then t p) =
    let lp = length-layout l x k e p in grind (arith, length-append)
length-layout l x k e (if_else t p q) =
    let lp = length-layout l x (suc (size q) + k) (suc (size q) + e) p in
    let lq = length-layout l x k e q in grind (arith, length-append)
length-layout l x k e (until p t) =
    let lp = length-layout l x (test_size t + 1 + k) (test_size t + 1 + e) p in
    grind (arith, length-append)
length-layout l x k e (while p t q) =
    let tail = test_size t + suc (size q + 1) in
    let lp = length-layout l x (tail + k) (tail + e) p in
    let lq = length-layout l x (1 + k) (1 + e) q in grind (arith, length-append)
length-layout l x k e (counted q s p) =
    let lp = length-layout leave_branch x (suc (step_size s)) (step_size s + 2 + e) p in
    let ld = length-do_words q (pos (suc (size p + suc (step_size s)))) in
    grind (arith, length-append)
length-layout l x k e leave = refl
length-layout l x k e unloop = refl
length-layout l x k e exit = refl

-- One branch.
turns_leave :
    (n k target : ℕ)
    → n + suc k ≡ target
    → Patched patch_bcond target (n ∷ []) n (leave_branch 0 ∷ []) (leave_branch (suc k) ∷ [])
unfolding patch_all
turns_leave n k target h pre post e =
    let q : target ≡ length pre + suc k = omega arith in
    rw
      (
        ← e,
        patch_bcond_at pre (leave_branch 0) post target,
        leave_condition,
        q,
        sub_ahead (length pre) (suc k),
      )
      refl

turns_exit :
    (n k target : ℕ)
    → n + suc k ≡ target
    → Patched patch_b target (n ∷ []) n (exit_branch 0 ∷ []) (exit_branch (suc k) ∷ [])
unfolding patch_all
turns_exit n k target h pre post e =
    let q : target ≡ length pre + suc k = omega arith in
    rw (← e, patch_b_at pre (exit_branch 0) post target, q, sub_ahead (length pre) (suc k)) refl

-- Words and a branch before a part.
turns_behind :
    (patch : List ℕ → ℕ → ℕ → Option (List ℕ)) (target : ℕ) (ls : List ℕ) (n m : ℕ) (ws : List ℕ)
    (w : ℕ) (from to : List ℕ)
    → n + suc (length ws) ≡ m
    → Patched patch target ls m from to
    → Patched patch target ls n (ws ++ (w ∷ from)) (ws ++ (w ∷ to))
turns_behind patch target ls n m ws w from to e t =
    let q : n + length ws + 1 ≡ m = omega arith in
    turns_front patch target ls n ws (w ∷ from) (w ∷ to)
      (turns_front patch target ls (n + length ws) (w ∷ []) from to (rw q t))

-- The branches of the `leave`s, patched to the last word of the loop.
pub turns_leaves :
    (x : ℕ → ℕ) (target : ℕ) (p : Block) (n k e : ℕ)
    → n + size p + k ≡ target
    → Patched patch_bcond target
        (leaves p n)
        n
        (layout leave_hole x k e p)
        (layout leave_branch x k e p)
unfolding layout size leaves
turns_leaves x target (run ws) n k e h = turns_nothing patch_bcond target n ws
turns_leaves x target (seq p q) n k e h =
    turns-append patch_bcond target (leaves p n) (leaves q (n + size p)) n (size p) _ _ _ _
      (turns_leaves x target p n (size q + k) (size q + e) (omega arith))
      (length-layout leave_branch x (size q + k) (size q + e) p)
      (turns_leaves x target q (n + size p) k e (omega arith))
turns_leaves x target (if_then t p) n k e h =
    let m = n + suc (test_size t) in
    turns_behind patch_bcond target (leaves p m) n m (test_words t)
      (test_branch t (pos (suc (size p)))) _ _ refl (turns_leaves x target p m k e (omega arith))
turns_leaves x target (if_else t p q) n k e h =
    let m = n + suc (test_size t) in
    let k' = suc (size q) + k in
    let e' = suc (size q) + e in
    turns_behind patch_bcond target (leaves p m ++ leaves q (m + suc (size p))) n m (test_words t)
      (test_branch t (pos (suc (suc (size p))))) _ _ refl
      (turns-append patch_bcond target (leaves p m) (leaves q (m + suc (size p))) m (size p) _ _ _ _
        (turns_leaves x target p m k' e' (omega arith)) (length-layout leave_branch x k' e' p)
        (turns_behind patch_bcond target (leaves q (m + suc (size p))) (m + size p)
          (m + suc (size p)) [] (b (pos (suc (size q)))) _ _ (omega arith)
          (turns_leaves x target q (m + suc (size p)) k e (omega arith))))
turns_leaves x target (until p t) n k e h =
    turns_back patch_bcond target (leaves p n) n _ _
      (test_words t ++ (test_branch t (sub_ℕ 0 (size p + test_size t)) ∷ []))
      (turns_leaves x target p n (test_size t + 1 + k) (test_size t + 1 + e) (omega arith))
turns_leaves x target (while p t q) n k e h =
    let tail = test_size t + suc (size q + 1) in
    let m = n + size p + suc (test_size t) in
    turns-append patch_bcond target (leaves p n) (leaves q m) n (size p) _ _ _ _
      (turns_leaves x target p n (tail + k) (tail + e) (omega arith))
      (length-layout leave_branch x (tail + k) (tail + e) p)
      (turns_behind patch_bcond target (leaves q m) (n + size p) m (test_words t)
        (test_branch t (pos (suc (suc (size q))))) _ _ refl
        (turns_back patch_bcond target (leaves q m) m _ _
          (b (sub_ℕ 0 (size p + (test_size t + suc (size q)))) ∷ [])
          (turns_leaves x target q m (1 + k) (1 + e) (omega arith))))
turns_leaves x target (counted q s p) n k e h = turns_nothing patch_bcond target n _
turns_leaves x target leave n k e h = turns_leave n k target (omega arith)
turns_leaves x target unloop n k e h = turns_nothing patch_bcond target n (add_imm rp rp 16 ∷ [])
turns_leaves x target exit n k e h = turns_nothing patch_bcond target n (x (suc e) ∷ [])

-- The branches of the `exit`s, patched to the epilogue.
pub turns_exits :
    (l : ℕ → ℕ) (target : ℕ) (p : Block) (n k e : ℕ)
    → n + size p + e ≡ target
    → Patched patch_b target (exits p n) n (layout l exit_hole k e p) (layout l exit_branch k e p)
unfolding layout size exits
turns_exits l target (run ws) n k e h = turns_nothing patch_b target n ws
turns_exits l target (seq p q) n k e h =
    turns-append patch_b target (exits p n) (exits q (n + size p)) n (size p) _ _ _ _
      (turns_exits l target p n (size q + k) (size q + e) (omega arith))
      (length-layout l exit_branch (size q + k) (size q + e) p)
      (turns_exits l target q (n + size p) k e (omega arith))
turns_exits l target (if_then t p) n k e h =
    let m = n + suc (test_size t) in
    turns_behind patch_b target (exits p m) n m (test_words t) (test_branch t (pos (suc (size p))))
      _ _ refl (turns_exits l target p m k e (omega arith))
turns_exits l target (if_else t p q) n k e h =
    let m = n + suc (test_size t) in
    let k' = suc (size q) + k in
    let e' = suc (size q) + e in
    turns_behind patch_b target (exits p m ++ exits q (m + suc (size p))) n m (test_words t)
      (test_branch t (pos (suc (suc (size p))))) _ _ refl
      (turns-append patch_b target (exits p m) (exits q (m + suc (size p))) m (size p) _ _ _ _
        (turns_exits l target p m k' e' (omega arith)) (length-layout l exit_branch k' e' p)
        (turns_behind patch_b target (exits q (m + suc (size p))) (m + size p) (m + suc (size p)) []
          (b (pos (suc (size q)))) _ _ (omega arith)
          (turns_exits l target q (m + suc (size p)) k e (omega arith))))
turns_exits l target (until p t) n k e h =
    turns_back patch_b target (exits p n) n _ _
      (test_words t ++ (test_branch t (sub_ℕ 0 (size p + test_size t)) ∷ []))
      (turns_exits l target p n (test_size t + 1 + k) (test_size t + 1 + e) (omega arith))
turns_exits l target (while p t q) n k e h =
    let tail = test_size t + suc (size q + 1) in
    let m = n + size p + suc (test_size t) in
    turns-append patch_b target (exits p n) (exits q m) n (size p) _ _ _ _
      (turns_exits l target p n (tail + k) (tail + e) (omega arith))
      (length-layout l exit_branch (tail + k) (tail + e) p)
      (turns_behind patch_b target (exits q m) (n + size p) m (test_words t)
        (test_branch t (pos (suc (suc (size q))))) _ _ refl
        (turns_back patch_b target (exits q m) m _ _
          (b (sub_ℕ 0 (size p + (test_size t + suc (size q)))) ∷ [])
          (turns_exits l target q m (1 + k) (1 + e) (omega arith))))
turns_exits l target (counted q s p) n k e h =
    let m = n + do_size q in
    let off = pos (suc (size p + suc (step_size s))) in
    let d : n + length (do_words q off) ≡ m = ap (n +◌) (length-do_words q off) in
    turns_front patch_b target (exits p m) n (do_words q off) _ _ (
      rw d (
        turns_back patch_b target (exits p m) m _ _
          (step_words s ++ (tbz 11 63 (sub_ℕ 0 (size p + step_size s)) ∷ add_imm rp rp 16 ∷ []))
          (turns_exits leave_branch target p m (suc (step_size s)) (step_size s + 2 + e)
            (omega arith))))
turns_exits l target leave n k e h = turns_nothing patch_b target n (l (suc k) ∷ [])
turns_exits l target unloop n k e h = turns_nothing patch_b target n (add_imm rp rp 16 ∷ [])
turns_exits l target exit n k e h = turns_exit n e target (omega arith)
