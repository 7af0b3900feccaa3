-- ===== src/Opt/Lower/Ready/Steps.antt =====
-- The steps that operators of src/opt.rs are made of: what each needs and leaves.
use mf.Prelude.{
  ℕ, zero, suc, ◌+◌, ◌-◌, ◌≤◌, ◌==◌, ◌≡◌, refl, ap, ◌∙◌, arith, true, false, ◌||◌, List, [], ◌∷◌,
  ◌++◌, Option, none, some, length, length-append, List-cases, inl, inr,
}
use mf.Opt.Lower.{Loc, const, reg, Low, M, ◌>>=◌, mark, push, pop}
use mf.Opt.Lower.Registers.{pool, alloc, freer, pull, times, ensure, to_reg, copy_of}
use mf.Opt.Lower.Ready.{Returns, bind, has, Ready, find_free_lem, free_in-mark_le}

-- Ready, with at least k values in the window.
abbrev pub Deep : ℕ → ℕ → List Loc → Low → Type 0
Deep k n held low = Ready n held low × (k ≤ length low.vs)

pub alloc-Deep :
    (k n : ℕ) (held : List Loc) (low : Low)
    → Deep k (suc n) held low
    → Returns (alloc low) (λ r low'. Deep k n (reg r ∷ held) low' × (low'.vs ≡ low.vs))
unfolding alloc
alloc-Deep k n held low ((free, tracked, pins), deep) =
    let (r, e, one_less) = find_free_lem low.used (omega (arith, free)) in
    rw e (
      (
        (
          omega (arith, one_less, free),
          (λ (q : ℕ) (u : mark r true low.used q ≡ true). ground (arith, tracked q)),
          pins,
        ),
        deep,
      ),
      refl,
    )

pub freer-Deep :
    (k n r : ℕ) (held : List Loc) (low : Low)
    → Deep k n (reg r ∷ held) low
    → Returns (freer r low) (λ _ low'. Deep k n held low')
freer-Deep k n r held low ((free, tracked, pins), deep) = (
  (
    omega (arith, free, free_in-mark_le low.used r pool),
    (λ (q : ℕ) (u : mark r false low.used q ≡ true). ground (arith, tracked q)),
    pins,
  ),
  deep,
)

-- A held value goes on the virtual stack.
pub push-Deep :
    (k n : ℕ) (l : Loc) (held : List Loc) (low : Low)
    → Deep k n (l ∷ held) low
    → Returns (push l low) (λ _ low'. Deep (suc k) n held low')
push-Deep k n (const c) held low ((free, tracked, pins), deep) =
    ((free, (λ (q : ℕ) (u : low.used q ≡ true). tracked q u), pins), omega (arith, deep))
push-Deep k n (reg r) held low ((free, tracked, pins), deep) = (
  (free, (λ (q : ℕ) (u : low.used q ≡ true). ground (arith, tracked q u)), pins),
  omega (arith, deep),
)

pub pop-Deep :
    (k n : ℕ) (held : List Loc) (low : Low)
    → Deep (suc k) n held low
    → Returns (pop low) (λ l low'. Deep k n (l ∷ held) low')
unfolding pop
pop-Deep k n held low ((free, tracked, pins), deep) = elim (List-cases low.vs) [
  | inl e ↦ absurd (omega (arith, deep, ap length e))
  | inr (l, vs, e) ↦ rw e (popped l vs e)
]
  where
    popped :
        (l : Loc) (vs : List Loc) → low.vs ≡ l ∷ vs → Deep k n (l ∷ held) (record low { vs = vs })
    popped (const c) vs e = (
      (free, (λ (q : ℕ) (u : low.used q ≡ true). rw e at (tracked q u)), pins),
      omega (arith, deep, ap length e),
    )
    popped (reg r) vs e = (
      (free, (λ (q : ℕ) (u : low.used q ≡ true). ground (arith, tracked q u, ap (has q) e)), pins),
      omega (arith, deep, ap length e),
    )

pub has-append_end : (q r : ℕ) (vs : List Loc) → has q (vs ++ reg r ∷ []) ≡ (q == r || has q vs)
has-append_end q r [] = refl
has-append_end q r (const c ∷ vs) = has-append_end q r vs
has-append_end q r (reg p ∷ vs) = ground (arith, has-append_end q r vs)

pub pull-Deep :
    (k n : ℕ) (held : List Loc) (low : Low)
    → Deep k (suc n) held low
    → Returns (pull low) (λ _ low'. Deep (suc k) n held low' × (length low'.vs ≡ length low.vs + 1))
unfolding pull
pull-Deep k n held low h =
    bind alloc _ (λ r low'. Deep k n (reg r ∷ held) low' × (low'.vs ≡ low.vs)) _ low
      (alloc-Deep k n held low h)
      (λ r low' (((free, tracked, pins), deep), same). (
        (
          (
            free,
            (λ (q : ℕ) (u : low'.used q ≡ true).
                ground (arith, tracked q u, has-append_end q r low'.vs)),
            pins,
          ),
          omega (arith, deep, length-append low'.vs (reg r ∷ [])),
        ),
        length-append low'.vs (reg r ∷ []) ∙ ap (λ vs. length vs + 1) same,
      ))

pub weaken :
    {A : Type 0} (r : Option (A × Low)) (Q R : A → Low → Type 0)
    → Returns r Q
    → ((a : A) (low : Low) → Q a low → R a low)
    → Returns r R
weaken none Q R h f = absurd h
weaken (some (a, low)) Q R h f = f a low h

times-Deep :
    (i k n : ℕ) (held : List Loc) (low : Low)
    → Deep k (n + i) held low
    → Returns (times i pull low) (λ _ low'. Deep (k + i) n held low')
times-Deep zero k n held low ((free, tracked, pins), deep) =
    ((omega (arith, free), tracked, pins), omega (arith, deep))
times-Deep (suc i) k n held low ((free, tracked, pins), deep) =
    bind pull (λ _. times i pull) (λ _ low'. Deep (suc k) (n + i) held low') _ low
      (weaken (pull low) _ _
        (pull-Deep k (n + i) held low ((omega (arith, free), tracked, pins), deep))
        (λ a low' h. h.0))
      (λ a low' h.
        weaken (times i pull low') _ _ (times-Deep i (suc k) n held low' h)
          (λ b low'' (ready, deep'). (ready, omega (arith, deep'))))

-- What is missing in the window is pulled in.
pub ensure-Deep :
    (j n : ℕ) (held : List Loc) (low : Low)
    → Ready (n + (j - length low.vs)) held low
    → Returns (ensure j low) (λ _ low'. Deep j n held low')
unfolding ensure
ensure-Deep j n held low ready =
    weaken (times (j - length low.vs) pull low) _ _
      (times-Deep (j - length low.vs) (length low.vs) n held low (ready, omega arith))
      (λ a low' (r, deep). (r, omega (arith, deep)))

-- What it takes to have a value in a register.
abbrev pub cost : Loc → ℕ
cost (const c) = 1
cost (reg r) = 0

-- A value that is held goes into a register.
pub to_reg-Deep :
    (k n : ℕ) (l : Loc) (held : List Loc) (low : Low)
    → Deep k (n + cost l) (l ∷ held) low
    → Returns (to_reg l low) (λ r low'. Deep k n (reg r ∷ held) low')
unfolding to_reg
to_reg-Deep k n (reg r) held low ((free, tracked, pins), deep) =
    ((omega (arith, free), tracked, pins), deep)
to_reg-Deep k n (const c) held low ((free, tracked, pins), deep) =
    bind alloc _ (λ r low'. Deep k n (reg r ∷ held) low') _ low
      (weaken (alloc low) _ _
        (alloc-Deep k n held low
          ((omega (arith, free), (λ (q : ℕ) (u : low.used q ≡ true). tracked q u), pins), deep))
        (λ r low' h. h.0))
      (λ r low' h. h)

pub copy_of-Deep :
    (k n : ℕ) (l : Loc) (held : List Loc) (low : Low)
    → Deep k (suc n) held low
    → Returns (copy_of l low) (λ c low'. Deep k n (c ∷ held) low' × (low'.vs ≡ low.vs))
unfolding copy_of
copy_of-Deep k n (const c) held low ((free, tracked, pins), deep) =
    (((omega (arith, free), (λ (q : ℕ) (u : low.used q ≡ true). tracked q u), pins), deep), refl)
copy_of-Deep k n (reg r) held low h =
    bind alloc _ (λ r2 low'. Deep k n (reg r2 ∷ held) low' × (low'.vs ≡ low.vs)) _ low
      (alloc-Deep k n held low h) (λ r2 low' g. g)

-- Two held values change places.
pub swap_held :
    (k n : ℕ) (a b : Loc) (held : List Loc) (low : Low)
    → Deep k n (a ∷ b ∷ held) low
    → Deep k n (b ∷ a ∷ held) low
swap_held k n (const c) (const d) held low h = h
swap_held k n (const c) (reg s) held low h = h
swap_held k n (reg r) (const d) held low h = h
swap_held k n (reg r) (reg s) held low ((free, tracked, pins), deep) =
    ((free, (λ (q : ℕ) (u : low.used q ≡ true). ground (arith, tracked q u)), pins), deep)

-- Two values are taken off, the second one then the first held.
pub pop_two-Deep :
    (f : Loc → Loc → M (Unit {0})) (n : ℕ) (low : Low) (R : Unit {0} → Low → Type 0)
    → Deep 2 n [] low
    → ((a b : Loc) (low' : Low) → Deep 0 n (a ∷ b ∷ []) low' → Returns (f a b low') R)
    → Returns ((pop >>= λ b. pop >>= λ a. f a b) low) R
pop_two-Deep f n low R h body =
    bind pop _ (λ b low'. Deep 1 n (b ∷ []) low') R low (pop-Deep 1 n [] low h)
      (λ b low1 h1.
        bind pop _ (λ a low'. Deep 0 n (a ∷ b ∷ []) low') R low1 (pop-Deep 0 n (b ∷ []) low1 h1)
          (λ a low2 h2. body a b low2 h2))
