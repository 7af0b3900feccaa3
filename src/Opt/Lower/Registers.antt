-- ===== src/Opt/Lower/Registers.antt =====
-- src/opt.rs: allocation of registers, the caches' ends, and settling the virtual stack to memory.
use mf.Prelude.{
  ℕ, zero, suc, ◌+◌, ◌-◌, ◌*◌, ◌==◌, ltb, max, Bool, true, false, List, [], ◌∷◌, ◌++◌, Option, none,
  some, length, if◌then◌else◌,
}
use mf.Opt.Lower.Code.{Instr}
use mf.Opt.Lower.{Loc, const, reg, Low, M, ret, ◌>>=◌, ◌>>◌, skip, modify, emit, count, mark}

abbrev pub pool : List ℕ
pool = 9 ∷ 10 ∷ 11 ∷ 12 ∷ 13 ∷ 14 ∷ 15 ∷ []

abbrev pub tos : ℕ
tos = 0

abbrev pub dsp : ℕ
dsp = 19

abbrev pub lp : ℕ
lp = 21

unfoldable pub free_in : (ℕ → Bool) → List ℕ → ℕ
free_in used [] = 0
free_in used (r ∷ rs) = (if used r then 0 else 1) + free_in used rs

abbrev pub nfree : Low → ℕ
nfree low = free_in low.used pool

-- `POOL.iter().find(|&&r| !self.used[r as usize])`
unfoldable pub find_free : (ℕ → Bool) → List ℕ → Option ℕ
find_free used [] = none
find_free used (r ∷ rs) = if used r then find_free used rs else some r

abbrev pub take_reg : Option ℕ → M ℕ
take_reg none low = none
take_reg (some r) low =
    let used = mark r true low.used in
    some (
      r,
      record low {
        used = used;
        m = record low.m {
          gp_allocs = low.m.gp_allocs + 1;
          peak_gp = max low.m.peak_gp (7 - free_in used pool);
        };
      },
    )

unfoldable pub alloc : M ℕ
unfolding find_free
alloc low = take_reg (find_free low.used pool) low

abbrev pub freer : ℕ → M (Unit {0})
freer r = modify (λ low. record low { used = mark r false low.used })

abbrev pub free_loc : Loc → M (Unit {0})
free_loc (const n) = skip
free_loc (reg r) = freer r

abbrev pub free_cells : List (ℕ × ℕ) → (ℕ → Bool) → ℕ → Bool
free_cells [] used = used
free_cells ((a, r) ∷ cells) used = free_cells cells (mark r false used)

unfoldable pub clear_cell_cache : M (Unit {0})
clear_cell_cache =
    modify (λ low. record low { used = free_cells low.cell_cache low.used; cell_cache = [] })

-- The loop of `spill_locals` over the drained cache.
abbrev pub spill_each : List (ℕ × ℕ × Bool) → Low → Low
spill_each [] low = low
spill_each ((i, r, dirty) ∷ cached) low = spill_each cached (
    if dirty
    then record low {
      out = Instr.str_off r lp (i * 8) ∷ low.out;
      m = record low.m { local_spills = low.m.local_spills + 1 };
      used = mark r false low.used;
    }
    else record low { used = mark r false low.used })

unfoldable pub spill_locals : M (Unit {0})
spill_locals = modify (λ low. spill_each low.lcache (record low { lcache = [] }))

-- One cell of the entry stack, under the others.
unfoldable pub pull : M (Unit {0})
unfolding alloc
pull = do
  r ← alloc
  modify (λ low. record low {
    out = Instr.ldr_off r dsp (low.consumed * 8) ∷ low.out;
    m = record low.m { stack_loads = low.m.stack_loads + 1 };
    consumed = low.consumed + 1;
    vs = low.vs ++ reg r ∷ [];
  })

abbrev pub times : ℕ → M (Unit {0}) → M (Unit {0})
times zero f = skip
times (suc n) f = f >> times n f

-- `while self.vs.len() < n`, in which each round pulls one cell.
unfoldable pub ensure : ℕ → M (Unit {0})
unfolding pull
ensure n low = times (n - length low.vs) pull low

-- The adjustment of the stack pointer by `consumed - (l - 1)` cells, for l values.
unfoldable pub adjust : ℕ → M (Unit {0})
adjust l low =
    if ltb (l - 1) low.consumed
    then some (
      tt,
      record low {
        out = Instr.add_imm dsp dsp ((low.consumed - (l - 1)) * 8) ∷ low.out;
        m = record low.m { dsp_adjusts = low.m.dsp_adjusts + 1 };
      },
    )
    else if ltb low.consumed (l - 1)
    then some (
      tt,
      record low {
        out = Instr.sub_imm dsp dsp ((l - 1 - low.consumed) * 8) ∷ low.out;
        m = record low.m { dsp_adjusts = low.m.dsp_adjusts + 1 };
      },
    )
    else some (tt, low)

abbrev pub store_reg : ℕ → Loc → M (Unit {0})
store_reg depth (const n) = skip
store_reg depth (reg r) = do
  emit (Instr.str_off r dsp (depth * 8))
  count (λ m. record m { stack_stores = m.stack_stores + 1 })
  freer r

-- Pass 1, the deepest first.
unfoldable pub store_regs : ℕ → List Loc → M (Unit {0})
store_regs depth [] = skip
store_regs depth (l ∷ deep) = store_regs (depth + 1) deep >> store_reg depth l

unfoldable pub raise_tos : Loc → M (Unit {0})
raise_tos (const n) = emit (Instr.load_imm64 tos n)
raise_tos (reg zero) = skip
raise_tos (reg (suc r)) = do emit (Instr.mov_reg tos (suc r)); freer (suc r)

abbrev pub store_const : ℕ → Loc → M (Unit {0})
store_const depth (reg r) = skip
store_const depth (const n) = do
  t ← alloc
  emit (Instr.load_imm64 t n)
  emit (Instr.str_off t dsp (depth * 8))
  freer t

-- Pass 2.
unfoldable pub store_consts : ℕ → List Loc → M (Unit {0})
unfolding alloc
store_consts depth [] = skip
store_consts depth (l ∷ deep) = store_consts (depth + 1) deep >> store_const depth l

abbrev pub pinned : List (ℕ × ℕ) → ℕ → Bool
pinned [] q = false
pinned ((i, r) ∷ pins) q = if q == r then true else pinned pins q

-- The virtual stack of a window that starts.
abbrev pub reset : Low → Low
reset low = record low {
  vs = reg 0 ∷ [];
  used = mark 0 true (pinned low.ipins);
  consumed = 0;
  fetched = [];
}

abbrev pub store_all : List Loc → M (Unit {0})
store_all [] low = none
store_all (top ∷ deep) low =
    (do
      adjust (length (top ∷ deep))
      store_regs 0 deep
      raise_tos top
      store_consts 0 deep
      modify reset)
      low

unfoldable pub settle_data : M (Unit {0})
unfolding clear_cell_cache spill_locals ensure adjust store_regs raise_tos store_consts
settle_data = do clear_cell_cache; spill_locals; ensure 1; λ low. store_all low.vs low

unfoldable pub reserve : ℕ → M (Unit {0})
unfolding settle_data free_in
reserve n low =
    if ltb (nfree low) n
    then (count (λ m. record m { spills = m.spills + 1 }) >> settle_data) low
    else some (tt, low)

unfoldable pub to_reg : Loc → M ℕ
unfolding alloc
to_reg (reg r) = ret r
to_reg (const n) = do
  r ← alloc
  emit (Instr.load_imm64 r n)
  count (λ m. record m { const_mat = m.const_mat + 1 })
  ret r

unfoldable pub copy_of : Loc → M Loc
unfolding alloc
copy_of (const n) = ret (const n)
copy_of (reg r) = do
  r2 ← alloc
  emit (Instr.mov_reg r2 r)
  count (λ m. record m { reg_copies = m.reg_copies + 1 })
  ret (reg r2)
