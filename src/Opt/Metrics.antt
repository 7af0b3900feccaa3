-- ===== src/Opt/Metrics.antt =====
-- The per-word counters of src/opt.rs. A counter is a u32 in the source; here it is a plain number, so
-- no statement speaks of a body with 2 ^ 32 rewrites.
use mf.Prelude.{ℕ, ◌+◌, ◌≡◌, max, arith}

pub record Metrics : Type 0 where
  pub toks_in : ℕ
  pub toks_out : ℕ
  pub const_folds : ℕ
  pub imm_folds : ℕ
  pub imm_chains : ℕ
  pub dup_fuses : ℕ
  pub dce : ℕ
  pub stack_cancels : ℕ
  pub cmp_negates : ℕ
  pub identities : ℕ
  pub instrs : ℕ
  pub stack_ops : ℕ
  pub stack_ops_free : ℕ
  pub const_mat : ℕ
  pub reg_copies : ℕ
  pub gp_allocs : ℕ
  pub peak_gp : ℕ
  pub peak_fp : ℕ
  pub spills : ℕ
  pub stack_loads : ℕ
  pub stack_stores : ℕ
  pub mem_fetches : ℕ
  pub mem_stores : ℕ
  pub local_loads : ℕ
  pub local_hits : ℕ
  pub local_spills : ℕ
  pub fp_fetches : ℕ
  pub fp_stores : ℕ
  pub fp_hits : ℕ
  pub fp_spills : ℕ
  pub redundant_ffetches : ℕ
  pub redundant_fetches : ℕ
  pub dsp_adjusts : ℕ
  pub calls : ℕ
  pub settles : ℕ

-- `Metrics::default()`
abbrev pub default : Metrics
default = record {
  toks_in = 0;
  toks_out = 0;
  const_folds = 0;
  imm_folds = 0;
  imm_chains = 0;
  dup_fuses = 0;
  dce = 0;
  stack_cancels = 0;
  cmp_negates = 0;
  identities = 0;
  instrs = 0;
  stack_ops = 0;
  stack_ops_free = 0;
  const_mat = 0;
  reg_copies = 0;
  gp_allocs = 0;
  peak_gp = 0;
  peak_fp = 0;
  spills = 0;
  stack_loads = 0;
  stack_stores = 0;
  mem_fetches = 0;
  mem_stores = 0;
  local_loads = 0;
  local_hits = 0;
  local_spills = 0;
  fp_fetches = 0;
  fp_stores = 0;
  fp_hits = 0;
  fp_spills = 0;
  redundant_ffetches = 0;
  redundant_fetches = 0;
  dsp_adjusts = 0;
  calls = 0;
  settles = 0;
}

-- The peaks take the maximum, `instrs` stays, the rest sum.
unfoldable pub merge : Metrics → Metrics → Metrics
merge m o = record {
  toks_in = m.toks_in + o.toks_in;
  toks_out = m.toks_out + o.toks_out;
  const_folds = m.const_folds + o.const_folds;
  imm_folds = m.imm_folds + o.imm_folds;
  imm_chains = m.imm_chains + o.imm_chains;
  dup_fuses = m.dup_fuses + o.dup_fuses;
  dce = m.dce + o.dce;
  stack_cancels = m.stack_cancels + o.stack_cancels;
  cmp_negates = m.cmp_negates + o.cmp_negates;
  identities = m.identities + o.identities;
  instrs = m.instrs;
  stack_ops = m.stack_ops + o.stack_ops;
  stack_ops_free = m.stack_ops_free + o.stack_ops_free;
  const_mat = m.const_mat + o.const_mat;
  reg_copies = m.reg_copies + o.reg_copies;
  gp_allocs = m.gp_allocs + o.gp_allocs;
  peak_gp = max m.peak_gp o.peak_gp;
  peak_fp = max m.peak_fp o.peak_fp;
  spills = m.spills + o.spills;
  stack_loads = m.stack_loads + o.stack_loads;
  stack_stores = m.stack_stores + o.stack_stores;
  mem_fetches = m.mem_fetches + o.mem_fetches;
  mem_stores = m.mem_stores + o.mem_stores;
  local_loads = m.local_loads + o.local_loads;
  local_hits = m.local_hits + o.local_hits;
  local_spills = m.local_spills + o.local_spills;
  fp_fetches = m.fp_fetches + o.fp_fetches;
  fp_stores = m.fp_stores + o.fp_stores;
  fp_hits = m.fp_hits + o.fp_hits;
  fp_spills = m.fp_spills + o.fp_spills;
  redundant_ffetches = m.redundant_ffetches + o.redundant_ffetches;
  redundant_fetches = m.redundant_fetches + o.redundant_fetches;
  dsp_adjusts = m.dsp_adjusts + o.dsp_adjusts;
  calls = m.calls + o.calls;
  settles = m.settles + o.settles;
}

-- Total reduce-pass rewrites.
abbrev pub rewrites : Metrics → ℕ
rewrites m =
    m.const_folds + m.imm_folds + m.imm_chains + m.dup_fuses + m.dce + m.stack_cancels
    + m.cmp_negates + m.identities

-- Merging two runs adds up their rewrites.
pub rewrites-merge : (m o : Metrics) → rewrites (merge m o) ≡ rewrites m + rewrites o
unfolding merge
rewrites-merge m o = omega arith
