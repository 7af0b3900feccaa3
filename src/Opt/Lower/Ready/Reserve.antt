-- ===== src/Opt/Lower/Ready/Reserve.antt =====
-- `settle_data` and `reserve` of src/opt.rs do not panic.
use mf.Prelude.{
  ℕ, ◌+◌, ◌-◌, ◌≤◌, ◌<◌, ◌≡◌, refl, sym, ap, ◌∙◌, arith, Bool, true, false, List, [], ◌∷◌, length,
  length-append, ltb, Bool-cases, List-cases, inl, inr, lt→ltb, ltb→le,
}
use mf.Opt.Lower.{reg, Low, skip, mark}
use mf.Opt.Lower.Registers.{
  pool, free_in, nfree, alloc, free_cells, clear_cell_cache, spill_each, spill_locals, pull, ensure,
  store_all, settle_data, reserve,
}
use mf.Opt.Lower.Ready.Steps.{weaken, has-append_end}
use mf.Opt.Lower.Ready.{Returns, bind, has, has_cell, has_local, Tracked, Ready}
use mf.Opt.Lower.Ready.Settling.{First, Settled, alloc-First, store_all-Settled}

free_cells_lem :
    (cells : List (ℕ × ℕ)) (used : ℕ → Bool) (q : ℕ)
    → free_cells cells used q ≡ true
    → (used q ≡ true) × (has_cell q cells ≡ false)
free_cells_lem [] used q h = (h, refl)
free_cells_lem ((a, r) ∷ cells) used q h =
    let (u, n) = free_cells_lem cells (mark r false used) q h in ground (arith, u, n)

-- What `spill_locals` leaves.
abbrev Spilled : List (ℕ × ℕ × Bool) → Low → Low → Type 0
Spilled cached low low' =
    (low'.vs ≡ low.vs)
    × (low'.ipins ≡ low.ipins)
    × ((q : ℕ) → low'.used q ≡ true → (low.used q ≡ true) × (has_local q cached ≡ false))

spill_each-Spilled :
    (cached : List (ℕ × ℕ × Bool)) (low : Low) → Spilled cached low (spill_each cached low)
spill_each-Spilled [] low = (refl, refl, λ (q : ℕ) (u : low.used q ≡ true). (u, refl))
spill_each-Spilled ((i, r, true) ∷ cached) low =
    let (v, p, h) = spill_each-Spilled cached _ in
    (v, p, λ q u. let (m, n) = h q u in ground (arith, m, n))
spill_each-Spilled ((i, r, false) ∷ cached) low =
    let (v, p, h) = spill_each-Spilled cached _ in
    (v, p, λ q u. let (m, n) = h q u in ground (arith, m, n))

-- Only the virtual stack holds registers, and no local is pinned.
abbrev OnStack : Low → Type 0
OnStack low = ((q : ℕ) → low.used q ≡ true → has q low.vs ≡ true) × (low.ipins ≡ [])

pull-First :
    (low : Low)
    → First false low
    → Returns (pull low) (λ _ low'. (0 < length low'.vs) × First (has 9 low'.vs) low')
unfolding pull
pull-First low h =
    bind alloc _ (λ r low'. (r ≡ 9) × (low'.ipins ≡ [])) _ low (alloc-First low h)
      (λ r low' (e, pins). (
        omega (arith, length-append low'.vs (reg r ∷ [])),
        ((λ (u : low'.used 9 ≡ true). ground (arith, has-append_end 9 r low'.vs, e)), pins),
      ))

ensure_one-First :
    (low : Low)
    → OnStack low
    → Returns (ensure 1 low) (λ _ low'. (0 < length low'.vs) × First (has 9 low'.vs) low')
unfolding ensure
ensure_one-First low (h, pins) = elim (List-cases low.vs) [
  | inl e ↦
      let one : 1 - length low.vs ≡ 1 = omega (arith, ap length e) in
      let unused = λ (u : low.used 9 ≡ true). ap (has 9) (sym e) ∙ h 9 u in
      rw one (
        bind pull (λ _. skip) (λ _ low'. (0 < length low'.vs) × First (has 9 low'.vs) low') _ low
          (pull-First low (unused, pins)) (λ a low' g. g))
  | inr (l, vs, e) ↦
      let z : 1 - length low.vs ≡ 0 = omega (arith, ap length e) in
      rw z (omega (arith, ap length e), ((λ (u : low.used 9 ≡ true). h 9 u), pins))
]

-- Settling a tracked window with no pinned local does not panic, and frees the whole pool.
pub settle_data-Settled :
    (low : Low)
    → Tracked [] low
    → low.ipins ≡ []
    → Returns (settle_data low) (λ _ low'. Settled low')
unfolding settle_data clear_cell_cache spill_locals
settle_data-Settled low tracked pins =
    let cleared = record low { used = free_cells low.cell_cache low.used; cell_cache = [] } in
    let spilled = spill_each low.lcache (record cleared { lcache = [] }) in
    let (v, p, h) = spill_each-Spilled low.lcache (record cleared { lcache = [] }) in
    let on_stack = λ (q : ℕ) (u : spilled.used q ≡ true).
      let (u', not_local) = h q u in
      let (u'', not_cell) = free_cells_lem low.cell_cache low.used q u' in
      let t : has q low.vs ≡ true = ground (arith, tracked q u'', not_local, not_cell) in
      ap (has q) v ∙ t in
    bind (ensure 1) (λ _ low'. store_all low'.vs low')
      (λ _ low'. (0 < length low'.vs) × First (has 9 low'.vs) low') _ spilled
      (ensure_one-First spilled (on_stack, p ∙ pins))
      (λ a low' (n, first). store_all-Settled low'.vs low' n first)

-- `reserve` of at most the pool, in a tracked window, does not panic and gives what it is asked for.
pub reserve-Ready :
    (n : ℕ) (low : Low)
    → n ≤ 7
    → Ready 0 [] low
    → Returns (reserve n low) (λ _ low'. Ready n [] low')
unfolding reserve
reserve-Ready n low small (free, tracked, pins) = elim (Bool-cases (ltb (nfree low) n)) [
  | inl short ↦ rw short (
      let counted : Low = record low { m = record low.m { spills = low.m.spills + 1 } } in
      weaken (settle_data counted) (λ _ low'. Settled low') _
        (settle_data-Settled counted tracked pins)
        (λ a low' ((f, t, p), w). (omega (arith, f, small), t, p)))
  | inr enough ↦ rw enough (ltb→le (nfree low) n enough, tracked, pins)
]

free_in-le : (used : ℕ → Bool) (rs : List ℕ) → free_in used rs ≤ length rs
unfolding free_in
free_in-le used [] = omega arith
free_in-le used (r ∷ rs) = ground (arith, free_in-le used rs)

-- `reserve` of more than the pool always settles.
pub reserve-Settled :
    (n : ℕ) (low : Low) → 7 < n → Ready 0 [] low → Returns (reserve n low) (λ _ low'. Settled low')
unfolding reserve
reserve-Settled n low large (free, tracked, pins) =
    let short : ltb (nfree low) n ≡ true =
      lt→ltb (nfree low) n (omega (arith, free_in-le low.used pool, large)) in
    let counted : Low = record low { m = record low.m { spills = low.m.spills + 1 } } in
    rw short (settle_data-Settled counted tracked pins)
