-- ===== src/Opt/Lower/Locals.antt =====
-- Memory words and locals of `Low` in src/opt.rs, with the caches that keep a cell or a local in a
-- register.
use mf.Prelude.{
  ℕ, ◌+◌, ◌*◌, ◌==◌, Bool, true, false, ◌||◌, List, [], ◌∷◌, Option, none, some, if◌then◌else◌,
}
use mf.Opt.Tok.{Mem}
use mf.Opt.Lower.Code.{Instr}
use mf.Opt.Lower.{Loc, const, reg, M, ◌>>=◌, ◌>>◌, skip, modify, emit, count, push, pop}
use mf.Opt.Lower.Registers.{lp, reserve, ensure, alloc, freer, to_reg, copy_of, clear_cell_cache}

abbrev pub contains : List ℕ → ℕ → Bool
contains [] a = false
contains (x ∷ xs) a = a == x || contains xs a

-- `HashMap::get`
abbrev pub lookup : List (ℕ × ℕ) → ℕ → Option ℕ
lookup [] k = none
lookup ((j, v) ∷ m) k = if j == k then some v else lookup m k

abbrev pub lookup_local : List (ℕ × ℕ × Bool) → ℕ → Option ℕ
lookup_local [] k = none
lookup_local ((j, r, dirty) ∷ m) k = if j == k then some r else lookup_local m k

-- `HashMap::insert`
abbrev pub insert_local : ℕ → ℕ → Bool → List (ℕ × ℕ × Bool) → List (ℕ × ℕ × Bool)
insert_local i r dirty [] = (i, r, dirty) ∷ []
insert_local i r dirty ((j, q, d) ∷ m) =
    if j == i then (i, r, dirty) ∷ m else (j, q, d) ∷ insert_local i r dirty m

abbrev pub note_addr : ℕ → M (Unit {0})
note_addr addr low =
    if contains low.fetched addr
    then some
        (tt, record low { m = record low.m { redundant_fetches = low.m.redundant_fetches + 1 } })
    else some (tt, record low { fetched = addr ∷ low.fetched })

unfoldable pub note_fetch : Loc → M (Unit {0})
note_fetch (const addr) = note_addr addr
note_fetch (reg r) = skip

abbrev pub fetched_once : M (Unit {0})
fetched_once = count (λ m. record m { mem_fetches = m.mem_fetches + 1 })

abbrev pub stored_once : M (Unit {0})
stored_once = count (λ m. record m { mem_stores = m.mem_stores + 1 })

-- A read with no cache.
abbrev pub fetch_plain : Loc → M (Unit {0})
fetch_plain a = do note_fetch a; r ← to_reg a; emit (Instr.ldr0 r r); fetched_once; push (reg r)

-- The first read of a hot cell.
abbrev pub fetch_hot : ℕ → M (Unit {0})
fetch_hot addr = do
  rc ← alloc
  emit (Instr.load_imm64 rc addr)
  emit (Instr.ldr0 rc rc)
  fetched_once
  modify (λ low. record low { cell_cache = (addr, rc) ∷ low.cell_cache })
  c ← copy_of (reg rc)
  push c

abbrev pub fetch_const : ℕ → M (Unit {0})
fetch_const addr low = elim (lookup low.cell_cache addr) [
  | some rc ↦ (do c ← copy_of (reg rc); push c) low
  | none ↦ if contains low.hot_cells addr then fetch_hot addr low else fetch_plain (const addr) low
]

unfoldable pub fetch_loc : Loc → M (Unit {0})
unfolding note_fetch to_reg alloc copy_of
fetch_loc (const addr) = fetch_const addr
fetch_loc (reg r) = fetch_plain (reg r)

unfoldable pub store_with : (ℕ → ℕ → Instr) → M (Unit {0})
unfolding clear_cell_cache ensure pop to_reg
store_with instr = do
  clear_cell_cache
  ensure 2
  addr ← pop
  x ← pop
  raddr ← to_reg addr
  rx ← to_reg x
  emit (instr rx raddr)
  stored_once
  freer rx
  freer raddr

unfoldable pub mem : Mem → M (Unit {0})
unfolding reserve ensure pop fetch_loc note_fetch to_reg store_with
mem Mem.fetch = do reserve 3; ensure 1; a ← pop; fetch_loc a
mem Mem.cfetch = do
  reserve 3
  ensure 1
  a ← pop
  note_fetch a
  r ← to_reg a
  emit (Instr.ldrb0 r r)
  fetched_once
  push (reg r)
mem Mem.store = do reserve 3; store_with (λ rx raddr. Instr.str_off rx raddr 0)
mem Mem.cstore = do reserve 3; store_with (λ rx raddr. Instr.strb0 rx raddr)

abbrev pub local_hit : M (Unit {0})
local_hit = count (λ m. record m { local_hits = m.local_hits + 1 })

abbrev pub local_load : M (Unit {0})
local_load = count (λ m. record m { local_loads = m.local_loads + 1 })

-- A copy of a register that holds the local.
abbrev pub reuse : ℕ → M (Unit {0})
reuse r = do reserve 1; c ← copy_of (reg r); push c; local_hit

abbrev pub load_hot : ℕ → M (Unit {0})
load_hot i = do
  reserve 2
  rc ← alloc
  emit (Instr.ldr_off rc lp (i * 8))
  local_load
  modify (λ low. record low { lcache = insert_local i rc false low.lcache })
  c ← copy_of (reg rc)
  push c

abbrev pub load_cold : ℕ → M (Unit {0})
load_cold i = do reserve 1; r ← alloc; emit (Instr.ldr_off r lp (i * 8)); local_load; push (reg r)

unfoldable pub local_fetch : ℕ → M (Unit {0})
unfolding reserve copy_of alloc
local_fetch i low = elim (lookup low.ipins i) [
  | some rp ↦ reuse rp low
  | none ↦ elim (lookup_local low.lcache i) [
    | some r ↦ reuse r low
    | none ↦ if contains low.hot_locals i then load_hot i low else load_cold i low
  ]
]

-- A pinned local is written in its register.
abbrev pub write_pin : ℕ → Loc → M (Unit {0})
write_pin rp (reg r) = if r == rp then skip else (emit (Instr.mov_reg rp r) >> freer r)
write_pin rp (const n) = emit (Instr.load_imm64 rp n)

-- The register that the cache gives up.
abbrev pub supersede : Option ℕ → ℕ → M (Unit {0})
supersede none r = skip
supersede (some old) r = if old == r then skip else freer old

unfoldable pub local_store : ℕ → M (Unit {0})
unfolding reserve ensure pop to_reg
local_store i low = elim (lookup low.ipins i) [
  | some rp ↦ (do ensure 1; a ← pop; write_pin rp a; local_hit) low
  | none ↦
      (do
        reserve 2
        ensure 1
        a ← pop
        r ← to_reg a
        λ low.
            (do
              modify (λ low. record low { lcache = insert_local i r true low.lcache })
              supersede (lookup_local low.lcache i) r)
              low)
        low
]
