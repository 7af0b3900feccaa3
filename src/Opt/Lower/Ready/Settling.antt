-- ===== src/Opt/Lower/Ready/Settling.antt =====
-- Storing the virtual stack of src/opt.rs needs no register beforehand, and frees the whole pool.
use mf.Prelude.{
  ℕ, zero, suc, ◌+◌, ◌-◌, ◌<◌, ◌==◌, ◌≡◌, refl, ap, arith, Bool, true, false, ◌||◌, List, [], ◌∷◌,
  length, ltb, Bool-cases, inl, inr,
}
use mf.Opt.Lower.{Loc, const, reg, Low, mark}
use mf.Opt.Lower.Registers.{
  free_in, find_free, alloc, adjust, store_regs, store_reg, raise_tos, store_consts, store_const,
  pinned, reset, store_all,
}
use mf.Opt.Lower.Ready.{Returns, bind, has, Ready}

-- The first register of the pool is used only if `t`, and no local is pinned.
abbrev pub First : Bool → Low → Type 0
First t low = (low.used 9 ≡ true → t ≡ true) × (low.ipins ≡ [])

adjust-First :
    (t : Bool) (l : ℕ) (low : Low) → First t low → Returns (adjust l low) (λ _ low'. First t low')
unfolding adjust
adjust-First t l low h = elim (Bool-cases (ltb (l - 1) low.consumed)) [
  | inl a ↦ rw a h
  | inr b ↦ elim (Bool-cases (ltb low.consumed (l - 1))) [
    | inl a ↦ rw (b, a) h
    | inr c ↦ rw (b, c) h
  ]
]

store_regs-First :
    (t : Bool) (depth : ℕ) (deep : List Loc) (low : Low)
    → First (has 9 deep || t) low
    → Returns (store_regs depth deep low) (λ _ low'. First t low')
unfolding store_regs
store_regs-First t depth [] low h = h
store_regs-First t depth (const c ∷ deep) low h =
    bind (store_regs (depth + 1) deep) (λ _. store_reg depth (const c)) (λ _ low'. First t low') _
      low (store_regs-First t (depth + 1) deep low h) (λ a low' g. g)
store_regs-First t depth (reg r ∷ deep) low (h, pins) =
    bind (store_regs (depth + 1) deep) (λ _. store_reg depth (reg r))
      (λ _ low'. First (9 == r || t) low') _ low
      (store_regs-First (9 == r || t) (depth + 1) deep low
        ((λ (u : low.used 9 ≡ true). ground (arith, h u)), pins))
      (λ a low' (g, pins'). ((λ (u : mark r false low'.used 9 ≡ true). ground (arith, g)), pins'))

raise_tos-First :
    (top : Loc) (low : Low)
    → First (has 9 (top ∷ [])) low
    → Returns (raise_tos top low) (λ _ low'. First false low')
unfolding raise_tos
raise_tos-First (const c) low h = h
raise_tos-First (reg zero) low (h, pins) = ((λ (u : low.used 9 ≡ true). ground (arith, h u)), pins)
raise_tos-First (reg (suc r)) low (h, pins) =
    ((λ (u : mark (suc r) false low.used 9 ≡ true). ground (arith, h)), pins)

pub alloc-First :
    (low : Low) → First false low → Returns (alloc low) (λ r low'. (r ≡ 9) × (low'.ipins ≡ []))
unfolding alloc find_free
alloc-First low (h, pins) = elim (Bool-cases (low.used 9)) [
  | inl t ↦ absurd (ground (arith, h t))
  | inr f ↦ rw f (refl, pins)
]

store_consts-First :
    (depth : ℕ) (deep : List Loc) (low : Low)
    → First false low
    → Returns (store_consts depth deep low) (λ _ low'. First false low')
unfolding store_consts
store_consts-First depth [] low h = h
store_consts-First depth (reg r ∷ deep) low h =
    bind (store_consts (depth + 1) deep) (λ _. store_const depth (reg r))
      (λ _ low'. First false low') _ low (store_consts-First (depth + 1) deep low h) (λ a low' g. g)
store_consts-First depth (const c ∷ deep) low h =
    bind (store_consts (depth + 1) deep) (λ _. store_const depth (const c))
      (λ _ low'. First false low') _ low (store_consts-First (depth + 1) deep low h)
      (λ a low' g.
        bind alloc _ (λ r low''. (r ≡ 9) × (low''.ipins ≡ [])) _ low' (alloc-First low' g)
          (λ r low'' (e, pins). ((λ (u : mark r false low''.used 9 ≡ true). ground arith), pins)))

-- A window that starts: the whole pool is free.
abbrev pub Settled : Low → Type 0
Settled low = Ready 7 [] low × (low.vs ≡ reg 0 ∷ [])

reset-Settled : (low : Low) → low.ipins ≡ [] → Settled (reset low)
unfolding free_in
reset-Settled low pins = (
  (
    rw pins (omega arith),
    (λ (q : ℕ) (u : mark 0 true (pinned low.ipins) q ≡ true).
        ground (arith, ap (λ p. pinned p q) pins)),
    pins,
  ),
  refl,
)

pub store_all-Settled :
    (vs : List Loc) (low : Low)
    → 0 < length vs
    → First (has 9 vs) low
    → Returns (store_all vs low) (λ _ low'. Settled low')
store_all-Settled [] low n h = absurd (omega arith)
store_all-Settled (top ∷ deep) low n (h, pins) =
    let t = has 9 (top ∷ []) in
    bind (adjust (length (top ∷ deep))) _ (λ _ low'. First (has 9 deep || t) low') _ low
      (adjust-First (has 9 deep || t) (length (top ∷ deep)) low
        ((λ (u : low.used 9 ≡ true). top_last top deep (h u)), pins))
      (λ a low1 h1.
        bind (store_regs 0 deep) _ (λ _ low'. First t low') _ low1
          (store_regs-First t 0 deep low1 h1)
          (λ b low2 h2.
            bind (raise_tos top) _ (λ _ low'. First false low') _ low2 (raise_tos-First top low2 h2)
              (λ c low3 h3.
                bind (store_consts 0 deep) _ (λ _ low'. First false low') _ low3
                  (store_consts-First 0 deep low3 h3) (λ d low4 h4. reset-Settled low4 h4.1))))
  where
    top_last :
        (top : Loc) (deep : List Loc)
        → has 9 (top ∷ deep) ≡ true
        → (has 9 deep || has 9 (top ∷ [])) ≡ true
    top_last (const c) deep g = ground (arith, g)
    top_last (reg r) deep g = ground (arith, g)
