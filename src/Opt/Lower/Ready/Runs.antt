-- ===== src/Opt/Lower/Ready/Runs.antt =====
-- A run of tokens that reserve their registers lowers without a panic.
use mf.Prelude.{ℕ, ◌≤◌, ◌≡◌, ◌≢◌, refl, arith, true, List, [], ◌∷◌, Option, none, some, All}
use mf.Opt.Tok.{Tok, Bin}
use mf.Opt.Lower.{Low, M}
use mf.Opt.Lower.Run.{counted, lower_tok, lower_toks, start}
use mf.Opt.Lower.Ready.{Returns, bind}
use mf.Opt.Lower.Ready.Total.{IsLow, Total}
use mf.Opt.Lower.Ready.Binary.{bin-Total, sel-Total, shift-Total}
use mf.Opt.Lower.Ready.Single.{
  imm_bin-Total, imm_shift-Total, dup_bin-Total, dup_shift_bin-Total, cmp-Total,
}
use mf.Opt.Lower.Ready.Motion.{lit-Total, pick_n-Total, roll_n-Total, reserves, stk-Total}

-- Literals, operators, comparisons, and the stack words that reserve registers, no deeper than the pool.
abbrev pub IsCovered : Tok → Type 0
IsCovered (Tok.lit n) = Unit
IsCovered (Tok.bin op) = Unit
IsCovered (Tok.imm_bin op k) = Unit
IsCovered (Tok.dup_bin op) = Unit
IsCovered (Tok.shift sh) = Unit
IsCovered (Tok.imm_shift sh k) = Unit
IsCovered (Tok.dup_shift_bin op sh k) = op ≢ Bin.mul
IsCovered (Tok.stk w) = reserves w ≡ true
IsCovered (Tok.pick_n n) = n ≤ 6
IsCovered (Tok.roll_n n) = n ≤ 6
IsCovered (Tok.cmp c) = Unit
IsCovered (Tok.sel s) = Unit
IsCovered t = ⊥

start-IsLow : (hot_cells hot_locals : List ℕ) → IsLow (start hot_cells hot_locals [])
start-IsLow hot_cells hot_locals = (
  omega arith,
  (λ (q : ℕ) (u : (start hot_cells hot_locals []).used q ≡ true). ground (arith, u)),
  refl,
)

counted-Total : (op : M (Unit {0})) → Total op → Total (counted op)
counted-Total op total low h = go (op low) (total low h)
  where
    go :
        (r : Option (Unit {0} × Low))
        → Returns r (λ _ low'. IsLow low')
        → Returns (counted (λ _. r) low) (λ _ low'. IsLow low')
    go none q = q
    go (some (a, low')) q = q

module _ (other : Tok → M (Unit {0})) where
  lower_tok-Total : (t : Tok) → IsCovered t → Total (lower_tok other t)
  unfolding lower_tok
  lower_tok-Total (Tok.lit n) c = lit-Total n
  lower_tok-Total (Tok.bin op) c = bin-Total op
  lower_tok-Total (Tok.imm_bin op k) c = imm_bin-Total op k
  lower_tok-Total (Tok.dup_bin op) c = dup_bin-Total op
  lower_tok-Total (Tok.shift sh) c = shift-Total sh
  lower_tok-Total (Tok.imm_shift sh k) c = imm_shift-Total sh k
  lower_tok-Total (Tok.dup_shift_bin op sh k) c = dup_shift_bin-Total op sh k c
  lower_tok-Total (Tok.stk w) c = counted-Total _ (stk-Total w c)
  lower_tok-Total (Tok.pick_n n) c = counted-Total _ (pick_n-Total n c)
  lower_tok-Total (Tok.roll_n n) c = counted-Total _ (roll_n-Total n c)
  lower_tok-Total (Tok.cmp k) c = cmp-Total k
  lower_tok-Total (Tok.sel s) c = sel-Total s
  lower_tok-Total t c = absurd c

  lower_toks-Total : (toks : List Tok) → All IsCovered toks → Total (lower_toks other toks)
  unfolding lower_toks
  lower_toks-Total [] c low h = h
  lower_toks-Total (t ∷ toks) (c, cs) low h =
      bind (lower_tok other t) (λ _. lower_toks other toks) (λ _ low'. IsLow low')
        (λ _ low'. IsLow low') low (lower_tok-Total t c low h)
        (λ a low' g. lower_toks-Total toks cs low' g)

  -- Lowering a run of literals, integer operators, comparisons and stack words from the start of a
  -- window, with no pinned local, does not panic: `alloc` always finds a register, and afterwards
  -- each used register stands in the virtual stack or in a cache. Of the stack words `drop`, `nip`
  -- and `-rot` are left out, `pick` and `roll` go at most six deep, and no `mul` has a shifted
  -- operand.
  pub lower_toks-IsLow :
      (hot_cells hot_locals : List ℕ) (toks : List Tok)
      → All IsCovered toks
      → (low : Low) × (lower_toks other toks (start hot_cells hot_locals []) ≡ some (tt, low))
        × IsLow low
  lower_toks-IsLow hot_cells hot_locals toks c =
      found (lower_toks other toks first) refl
        (lower_toks-Total toks c first (start-IsLow hot_cells hot_locals))
    where
      first : Low
      first = start hot_cells hot_locals []

      found :
          (r : Option (Unit {0} × Low))
          → lower_toks other toks first ≡ r
          → Returns r (λ _ low'. IsLow low')
          → (low : Low) × (lower_toks other toks first ≡ some (tt, low)) × IsLow low
      found none e q = absurd q
      found (some (a, low)) e q = (low, e, q)
