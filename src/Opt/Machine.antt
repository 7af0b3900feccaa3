-- ===== src/Opt/Machine.antt =====
-- What a token run does to the data stack, the reference by which `reduce` is judged. The tokens that
-- `reduce` never rewrites, and the floating-point comparisons, act on a world that is a parameter:
-- memory, locals, the floating-point stack and the words that a `Call` runs.
use mf.Prelude.{ℕ, ◌<◌, Bool, not, List, [], ◌∷◌, Option, some, none, All, ◌≡◌}
use mf.Word.{IsWord}
use mf.Opt.Tok.{Stk, Cmp, FCmp, Tok}
use mf.Opt.Eval.{
  bin_eval, sh_eval, sh_eval_imm, cmp_eval, cmp_eval_zero, fcmp_negate, sel_eval, flag,
}

-- The data stack, its top first.
abbrev pub Stack : Type 0
Stack = List ℕ

-- The condition codes that `csetm` can test: all but `al` and the reserved one.
abbrev pub IsCondition : FCmp → Type 0
IsCondition (FCmp.bin c) = c < 14
IsCondition (FCmp.zero c) = c < 14

pub record Host : Type 1 where
  pub World : Type 0
  -- What any other token does.
  pub perform : Tok → Stack → World → Option (Stack × World)
  -- It leaves words on the stack.
  pub perform_words :
      (t : Tok) (st st' : Stack) (w w' : World)
      → All IsWord st
      → perform t st w ≡ some (st', w')
      → All IsWord st'
  -- `fcmp` and the test of its condition: it takes its operands off the floating-point stack.
  pub compare_floats : FCmp → World → Option (Bool × World)
  -- A condition code with its low bit inverted is the inverse condition.
  pub compare_negated :
      (c : FCmp) (w w' : World) (t : Bool)
      → IsCondition c
      → compare_floats c w ≡ some (t, w')
      → compare_floats (fcmp_negate c) w ≡ some (not t, w')

abbrev pub unary : (ℕ → ℕ) → Stack → Option Stack
unary f [] = none
unary f (a ∷ st) = some (f a ∷ st)

-- The function takes the deeper cell first.
abbrev pub binary : (ℕ → ℕ → ℕ) → Stack → Option Stack
binary f [] = none
binary f (b ∷ []) = none
binary f (b ∷ a ∷ st) = some (f a b ∷ st)

-- The comments on `Stk`, with the top of the stack first.
unfoldable pub motion : Stk → Stack → Option Stack
motion Stk.dup (a ∷ st) = some (a ∷ a ∷ st)
motion Stk.drop (a ∷ st) = some st
motion Stk.swap (b ∷ a ∷ st) = some (a ∷ b ∷ st)
motion Stk.over (b ∷ a ∷ st) = some (a ∷ b ∷ a ∷ st)
motion Stk.nip (b ∷ a ∷ st) = some (b ∷ st)
motion Stk.rot (c ∷ b ∷ a ∷ st) = some (a ∷ c ∷ b ∷ st)
motion Stk.minus_rot (c ∷ b ∷ a ∷ st) = some (b ∷ a ∷ c ∷ st)
motion Stk.tuck (b ∷ a ∷ st) = some (b ∷ a ∷ b ∷ st)
motion s st = none

unfoldable pub compare_cells : Cmp → Stack → Option Stack
compare_cells Cmp.zeq st = unary (cmp_eval_zero Cmp.zeq) st
compare_cells Cmp.zne st = unary (cmp_eval_zero Cmp.zne) st
compare_cells Cmp.zlt st = unary (cmp_eval_zero Cmp.zlt) st
compare_cells Cmp.zgt st = unary (cmp_eval_zero Cmp.zgt) st
compare_cells c st = binary (cmp_eval c) st

module _ (host : Host) where
  open host use {World, perform, compare_floats}

  abbrev pub Machine : Type 0
  Machine = Stack × World

  abbrev pub with_world : World → Option Stack → Option Machine
  with_world w none = none
  with_world w (some st) = some (st, w)

  -- One token; `none` is a stack underflow, or what the host does not perform.
  unfoldable pub exec : Tok → Machine → Option Machine
  unfolding motion compare_cells
  exec (Tok.lit k) (st, w) = some (k ∷ st, w)
  exec (Tok.bin op) (st, w) = with_world w (binary (bin_eval op) st)
  exec (Tok.imm_bin op k) (st, w) = with_world w (unary (λ a. bin_eval op a k) st)
  exec (Tok.dup_bin op) (st, w) = with_world w (unary (λ a. bin_eval op a a) st)
  exec (Tok.shift sh) (st, w) = with_world w (binary (sh_eval sh) st)
  exec (Tok.imm_shift sh k) (st, w) = with_world w (unary (λ a. sh_eval_imm sh a k) st)
  exec (Tok.dup_shift_bin op sh k) (st, w) =
      with_world w (unary (λ a. bin_eval op a (sh_eval_imm sh a k)) st)
  exec (Tok.stk s) (st, w) = with_world w (motion s st)
  exec (Tok.cmp c) (st, w) = with_world w (compare_cells c st)
  exec (Tok.sel s) (st, w) = with_world w (binary (sel_eval s) st)
  exec (Tok.fcmp c) (st, w) = elim (compare_floats c w) [
    | none ↦ none
    | some (t, w') ↦ some (flag t ∷ st, w')
  ]
  exec t (st, w) = perform t st w

  abbrev pub and_then : Option Machine → (Machine → Option Machine) → Option Machine
  and_then none f = none
  and_then (some s) f = f s

  -- A run of tokens, the first one first.
  unfoldable pub run : List Tok → Machine → Option Machine
  run [] s = some s
  run (t ∷ toks) s = and_then (exec t s) (run toks)

  -- The same for a list that stands in reverse.
  unfoldable pub run_back : List Tok → Machine → Option Machine
  run_back [] s = some s
  run_back (t ∷ out) s = and_then (run_back out s) (exec t)

-- The types of the source: a literal is an i64, a reduced count is below 64, a condition is a code.
abbrev pub IsTok : Tok → Type 0
IsTok (Tok.lit k) = IsWord k
IsTok (Tok.imm_bin op k) = IsWord k
IsTok (Tok.fcmp c) = IsCondition c
IsTok t = Unit
