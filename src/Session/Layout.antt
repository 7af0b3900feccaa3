-- ===== src/Session/Layout.antt =====
-- Structured code: what the control-flow words of src/session.rs mean. The layout of a block is its words
-- with every branch at its distance; `control` knows only the words before it, and patches.
use mf.Prelude.{ℕ, suc, ◌+◌, ◌*◌, List, [], ◌∷◌, ◌++◌, Bool, true, false, ◌||◌, length, bit_xor}
use mf.Prelude.Int.{ℤ, pos, sub_ℕ}
use mf.Aenc.Conditions.{eq, al}
use mf.Aenc.Transfer.{b, bcond, cbz, tbz, str_pre, ldr0, ldr_off, add_imm, mov_reg, str_off}
use mf.Aenc.Arithmetic.{cmp_reg, add_reg, sub_reg, eor_reg}
use mf.Aenc.Emit.{tos, dsp, rp, cell, minus_cell, scratch}
use mf.Opt.Tok.{Cmp}
use mf.Opt.Fused.{fused_cmp}
use mf.Session.Control.{Control}

-- The flag on the stack, or a comparison just before.
pub data Test : Type 0 where
  flag : Test
  fused : Cmp → Test

pub data Block : Type 0 where
  -- The words that a run of tokens lowers to.
  run : List ℕ → Block
  seq : Block → Block → Block
  if_then : Test → Block → Block
  if_else : Test → Block → Block → Block
  until : Block → Test → Block
  while : Block → Test → Block → Block
  -- `do` or `?do`, and `loop` or `+loop`.
  counted : Bool → Bool → Block → Block
  leave unloop exit : Block

-- What the compiler reads.
pub data Item : Type 0 where
  flushed : List ℕ → Item
  word : Control → Item
  fused_word : Control → Cmp → Item

abbrev pub test_item : Control → Test → Item
test_item w flag = Item.word w
test_item w (fused c) = Item.fused_word w c

abbrev pub do_word : Bool → Control
do_word true = Control.qdo_word
do_word false = Control.do_word

abbrev pub loop_word : Bool → Control
loop_word true = Control.plus_loop_word
loop_word false = Control.loop_word

-- The words of a block in the source text.
unfoldable pub items : Block → List Item
items (run ws) = Item.flushed ws ∷ []
items (seq p q) = items p ++ items q
items (if_then t p) = test_item Control.if_word t ∷ (items p ++ (Item.word Control.then_word ∷ []))
items (if_else t p q) =
    test_item Control.if_word t
    ∷ (items p ++ (Item.word Control.else_word ∷ (items q ++ (Item.word Control.then_word ∷ []))))
items (until p t) =
    Item.word Control.begin_word ∷ (items p ++ (test_item Control.until_word t ∷ []))
items (while p t q) =
    Item.word Control.begin_word
    ∷ (items p
        ++ (test_item Control.while_word t ∷ (items q ++ (Item.word Control.repeat_word ∷ []))))
items (counted q s p) = Item.word (do_word q) ∷ items p ++ (Item.word (loop_word s) ∷ [])
items leave = Item.word Control.leave_word ∷ []
items unloop = Item.word Control.unloop_word ∷ []
items exit = Item.word Control.exit_word ∷ []

-- Before the branch of a test.
abbrev pub test_words : Test → List ℕ
test_words flag = mov_reg scratch tos ∷ ldr0 tos dsp ∷ add_imm dsp dsp cell ∷ []
test_words (fused c) = (fused_cmp c []).0

-- Taken where the test fails.
abbrev pub test_branch : Test → ℤ → ℕ
test_branch flag off = cbz scratch off
test_branch (fused c) off = bcond (bit_xor ((fused_cmp c []).1) 1) off

-- `?do` skips the body where the index is the limit.
abbrev pub skip_words : List ℕ
skip_words = ldr0 9 rp ∷ ldr_off 10 rp cell ∷ cmp_reg 9 10 ∷ []

-- The index and the limit go to the return stack.
abbrev pub start_words : List ℕ
start_words =
    ldr0 9 dsp
    ∷ str_pre 9 rp minus_cell
    ∷ str_pre tos rp minus_cell
    ∷ ldr_off tos dsp cell
    ∷ add_imm dsp dsp (cell * 2)
    ∷ []

abbrev pub do_words : Bool → ℤ → List ℕ
do_words false off = start_words
do_words true off = start_words ++ skip_words ++ (bcond eq off ∷ [])

abbrev pub do_size : Bool → ℕ
do_size true = 9
do_size false = 5

-- Up to the branch back of `loop`, or of `+loop`.
abbrev pub step_words : Bool → List ℕ
step_words false =
    ldr0 9 rp
    ∷ ldr_off 10 rp cell
    ∷ sub_reg 11 9 10
    ∷ add_imm 9 9 1
    ∷ str_off 9 rp 0
    ∷ sub_reg 12 9 10
    ∷ eor_reg 11 11 12
    ∷ []
step_words true =
    ldr0 9 rp
    ∷ ldr_off 10 rp cell
    ∷ sub_reg 11 9 10
    ∷ add_reg 9 9 tos
    ∷ str_off 9 rp 0
    ∷ sub_reg 12 9 10
    ∷ eor_reg 11 11 12
    ∷ ldr0 tos dsp
    ∷ add_imm dsp dsp cell
    ∷ []

-- The number of words.
abbrev pub test_size : Test → ℕ
test_size t = length (test_words t)

abbrev pub step_size : Bool → ℕ
step_size s = length (step_words s)

unfoldable pub size : Block → ℕ
size (run ws) = length ws
size (seq p q) = size p + size q
size (if_then t p) = test_size t + suc (size p)
size (if_else t p q) = test_size t + suc (size p + suc (size q))
size (until p t) = size p + (test_size t + 1)
size (while p t q) = size p + (test_size t + suc (size q + 1))
size (counted q s p) = do_size q + (size p + (step_size s + 2))
size leave = 1
size unloop = 1
size exit = 1

-- Whether a `leave` of the block leaves a loop around it.
unfoldable pub leaves_loop : Block → Bool
leaves_loop (run ws) = false
leaves_loop (seq p q) = leaves_loop p || leaves_loop q
leaves_loop (if_then t p) = leaves_loop p
leaves_loop (if_else t p q) = leaves_loop p || leaves_loop q
leaves_loop (until p t) = leaves_loop p
leaves_loop (while p t q) = leaves_loop p || leaves_loop q
leaves_loop (counted q s p) = false
leaves_loop leave = true
leaves_loop unloop = false
leaves_loop exit = false

abbrev pub leave_branch : ℕ → ℕ
leave_branch d = bcond al (pos d)

abbrev pub exit_branch : ℕ → ℕ
exit_branch d = b (pos d)

-- A branch as it is put out, for `leave` and for `exit`.
abbrev pub leave_hole : ℕ → ℕ
leave_hole d = leave_branch 0

abbrev pub exit_hole : ℕ → ℕ
exit_hole d = exit_branch 0

-- The words of a block. `l` and `x` make the branch of a `leave` and of an `exit` from the distance to
-- its target; `k` and `e` are the distances from the end of the block to the two targets.
unfoldable pub layout : (ℕ → ℕ) → (ℕ → ℕ) → ℕ → ℕ → Block → List ℕ
unfolding size
layout l x k e (run ws) = ws
layout l x k e (seq p q) = layout l x (size q + k) (size q + e) p ++ layout l x k e q
layout l x k e (if_then t p) =
    test_words t ++ (test_branch t (pos (suc (size p))) ∷ layout l x k e p)
layout l x k e (if_else t p q) =
    test_words t
    ++ (test_branch t (pos (suc (suc (size p))))
        ∷ (layout l x (suc (size q) + k) (suc (size q) + e) p
            ++ (b (pos (suc (size q))) ∷ layout l x k e q)))
layout l x k e (until p t) =
    layout l x (test_size t + 1 + k) (test_size t + 1 + e) p
    ++ (test_words t ++ (test_branch t (sub_ℕ 0 (size p + test_size t)) ∷ []))
layout l x k e (while p t q) =
    let tail = test_size t + suc (size q + 1) in
    layout l x (tail + k) (tail + e) p
    ++ (test_words t
        ++ (test_branch t (pos (suc (suc (size q))))
            ∷ (layout l x (1 + k) (1 + e) q
                ++ (b (sub_ℕ 0 (size p + (test_size t + suc (size q)))) ∷ []))))
layout l x k e (counted q s p) =
    do_words q (pos (suc (size p + suc (step_size s))))
    ++ (layout leave_branch x (suc (step_size s)) (step_size s + 2 + e) p
        ++ (step_words s ++ (tbz 11 63 (sub_ℕ 0 (size p + step_size s)) ∷ add_imm rp rp 16 ∷ [])))
layout l x k e leave = l (suc k) ∷ []
layout l x k e unloop = add_imm rp rp 16 ∷ []
layout l x k e exit = x (suc e) ∷ []

-- The places of the branches out of the loop around a block that stands at `n`, and of its `exit`s.
unfoldable pub leaves : Block → ℕ → List ℕ
leaves (run ws) n = []
leaves (seq p q) n = leaves p n ++ leaves q (n + size p)
leaves (if_then t p) n = leaves p (n + suc (test_size t))
leaves (if_else t p q) n =
    leaves p (n + suc (test_size t)) ++ leaves q (n + suc (test_size t) + suc (size p))
leaves (until p t) n = leaves p n
leaves (while p t q) n = leaves p n ++ leaves q (n + size p + suc (test_size t))
leaves (counted q s p) n = []
leaves leave n = n ∷ []
leaves unloop n = []
leaves exit n = []

unfoldable pub exits : Block → ℕ → List ℕ
exits (run ws) n = []
exits (seq p q) n = exits p n ++ exits q (n + size p)
exits (if_then t p) n = exits p (n + suc (test_size t))
exits (if_else t p q) n =
    exits p (n + suc (test_size t)) ++ exits q (n + suc (test_size t) + suc (size p))
exits (until p t) n = exits p n
exits (while p t q) n = exits p n ++ exits q (n + size p + suc (test_size t))
exits (counted q s p) n = exits p (n + do_size q)
exits leave n = []
exits unloop n = []
exits exit n = n ∷ []
