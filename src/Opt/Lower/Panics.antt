-- ===== src/Opt/Lower/Panics.antt =====
-- Where the lowering of src/opt.rs runs out of registers: `nip` does not reserve any.
use mf.Prelude.{
  ℕ, ◌-◌, ◌≤◌, ◌<◌, ◌==◌, ◌≡◌, refl, ap, ◌∙◌, arith, Bool, List, [], ◌∷◌, Option, none, some,
  length, Bool-cases, ==→eq, inl, inr,
}
use mf.Opt.Tok.{Stk}
use mf.Opt.Lower.{Low, M, ◌>>=◌, ◌>>◌}
use mf.Opt.Lower.Registers.{pool, free_in, find_free, nfree, alloc, pull, times, ensure}
use mf.Opt.Lower.Words.{stk}
use mf.Opt.Lower.Ready.{Returns, bind, find_free_lem}

bind_none : {A B : Type 0} (f : M A) (k : A → M B) (low : Low) → f low ≡ none → (f >>= k) low ≡ none
bind_none {A} {B} f k low e = ap stepped e
  where
    stepped : Option (A × Low) → Option (B × Low)
    stepped r = elim r [ none ↦ none | some (a, low') ↦ k a low' ]

-- No register is found where none is free.
find_free-none : (used : ℕ → Bool) (rs : List ℕ) → free_in used rs ≡ 0 → find_free used rs ≡ none
unfolding find_free free_in
find_free-none used [] h = refl
find_free-none used (r ∷ rs) h = ground (arith, find_free-none used rs)

alloc-none : (low : Low) → nfree low ≡ 0 → alloc low ≡ none
unfolding alloc
alloc-none low h = rw (find_free-none low.used pool h) refl

-- The last register is taken.
alloc_last :
    (low : Low) → 0 < nfree low → nfree low ≤ 1 → Returns (alloc low) (λ r low'. nfree low' ≡ 0)
unfolding alloc
alloc_last low p h = let (r, e, n) = find_free_lem low.used p in rw e (omega (arith, n, h))

pull_last :
    (low : Low) → 0 < nfree low → nfree low ≤ 1 → Returns (pull low) (λ _ low'. nfree low' ≡ 0)
unfolding pull
pull_last low p h =
    bind alloc _ (λ r low'. nfree low' ≡ 0) (λ _ low'. nfree low' ≡ 0) low (alloc_last low p h)
      (λ r low' g. g)

pull-none : (low : Low) → nfree low ≡ 0 → pull low ≡ none
unfolding pull
pull-none low h = bind_none alloc _ low (alloc-none low h)

none_after :
    (Q : Low → Type 0) (f g : M (Unit {0})) (low : Low)
    → Returns (f low) (λ _ low'. Q low')
    → ((low' : Low) → Q low' → g low' ≡ none)
    → (f >> g) low ≡ none
none_after Q f g low h k = go (f low) h
  where
    go :
        (r : Option (Unit {0} × Low))
        → Returns r (λ _ low'. Q low')
        → ((λ (l : Low). r) >> g) low ≡ none
    go none q = refl
    go (some (a, low')) q = k low' q

pull_twice : (low : Low) → nfree low ≤ 1 → times 2 pull low ≡ none
pull_twice low h = elim (Bool-cases (nfree low == 0)) [
  | inl z ↦ bind_none pull (λ _. times 1 pull) low (pull-none low (==→eq (nfree low) 0 z))
  | inr z ↦
      none_after (λ low'. nfree low' ≡ 0) pull (times 1 pull) low (pull_last low (ground arith) h)
        (λ low' g. bind_none pull (λ _. times 0 pull) low' (pull-none low' g))
]

-- Where the window is empty and at most one register of the pool is free, lowering `nip` panics.
pub stk-nip : (low : Low) → low.vs ≡ [] → nfree low ≤ 1 → stk Stk.nip low ≡ none
unfolding stk ensure
stk-nip low e h =
    let n : 2 - length low.vs ≡ 2 = omega (arith, ap length e) in
    bind_none (ensure 2) _ low (ap (λ k. times k pull low) n ∙ pull_twice low h)
