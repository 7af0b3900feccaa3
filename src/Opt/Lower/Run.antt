-- ===== src/Opt/Lower/Run.antt =====
-- The loop of `lower` in src/opt.rs over the tokens of a run. What the floating-point tokens, the calls
-- and the loop words do is a parameter.
use mf.Prelude.{ℕ, ◌+◌, ◌==◌, true, List, [], ◌∷◌, none, some, length, if◌then◌else◌}
use mf.Opt.Tok.{Tok}
use mf.Opt.Lower.{Low, M, ◌>>◌, skip, reg, mark}
use mf.Opt.Lower.Registers.{pinned}
use mf.Opt.Lower.Words.{lit, stk, pick_n, roll_n}
use mf.Opt.Lower.Operators.{bin, imm_bin, dup_bin, shift, imm_shift, dup_shift_bin, cmp, sel}
use mf.Opt.Lower.Locals.{mem, local_fetch, local_store}
use mf.Opt.Metrics
use mf.Opt.Metrics.{Metrics}

-- `Low::new`, with the counts of `lower` done: the sets of hot cells and locals.
abbrev pub start : List ℕ → List ℕ → List (ℕ × ℕ) → Low
start hot_cells hot_locals ipins = record {
  out = [];
  vs = reg 0 ∷ [];
  used = mark 0 true (pinned ipins);
  consumed = 0;
  m = Metrics.default;
  fetched = [];
  cell_cache = [];
  hot_cells = hot_cells;
  lcache = [];
  hot_locals = hot_locals;
  ipins = ipins;
}

-- A stack word, counted; one that put out no code is counted as free.
abbrev pub counted : M (Unit {0}) → M (Unit {0})
counted op low = elim (op low) [
  | none ↦ none
  | some (a, low') ↦ some (
    tt,
    record low' {
      m = record low'.m {
        stack_ops = low'.m.stack_ops + 1;
        stack_ops_free =
            if length low'.out == length low.out
            then low'.m.stack_ops_free + 1
            else low'.m.stack_ops_free;
      };
    },
  )
]

module _ (other : Tok → M (Unit {0})) where
  unfoldable pub lower_tok : Tok → M (Unit {0})
  unfolding lit bin imm_bin dup_bin shift imm_shift dup_shift_bin stk pick_n roll_n cmp sel mem
      local_fetch local_store
  lower_tok (Tok.lit n) = lit n
  lower_tok (Tok.bin op) = bin op
  lower_tok (Tok.imm_bin op k) = imm_bin op k
  lower_tok (Tok.dup_bin op) = dup_bin op
  lower_tok (Tok.shift sh) = shift sh
  lower_tok (Tok.imm_shift sh k) = imm_shift sh k
  lower_tok (Tok.dup_shift_bin op sh k) = dup_shift_bin op sh k
  lower_tok (Tok.stk w) = counted (stk w)
  lower_tok (Tok.pick_n n) = counted (pick_n n)
  lower_tok (Tok.roll_n n) = counted (roll_n n)
  lower_tok (Tok.cmp c) = cmp c
  lower_tok (Tok.sel s) = sel s
  lower_tok (Tok.mem mm) = mem mm
  lower_tok (Tok.local_fetch i) = local_fetch i
  lower_tok (Tok.local_store i) = local_store i
  lower_tok t = other t

  unfoldable pub lower_toks : List Tok → M (Unit {0})
  unfolding lower_tok
  lower_toks [] = skip
  lower_toks (t ∷ toks) = lower_tok t >> lower_toks toks
