-- ===== src/Opt/Lower/Ready/Motion.antt =====
-- The stack words of src/opt.rs that reserve their registers do not panic.
use mf.Prelude.{
  ℕ, zero, suc, ◌+◌, ◌≤◌, ◌<◌, ◌==◌, ◌≡◌, refl, ap, ◌∙◌, sym, arith, Bool, true, false, ◌||◌, List,
  [], ◌∷◌, some, length, get_elem?, Bool-cases, ==→eq, inl, inr,
}
use mathlib.Core.Option.{some-injective}
use mf.Opt.Tok.{Stk}
use mf.Opt.Lower.{Loc, const, reg, Low, ◌>>=◌, ◌>>◌, modify, push}
use mf.Opt.Lower.Registers.{reserve, ensure, copy_of}
use mf.Opt.Lower.Words.{lit, peek, pick_n, roll_n, remove_at, tuck_copy, stk}
use mf.Opt.Lower.Ready.{Returns, bind, has}
use mf.Opt.Lower.Ready.Steps.{Deep, ensure-Deep, copy_of-Deep}
use mf.Opt.Lower.Ready.Settling.{Settled}
use mf.Opt.Lower.Ready.Reserve.{reserve-Settled}
use mf.Opt.Lower.Ready.Total.{IsLow, Total, reserved, push-IsLow}

pub lit-Total : (n : ℕ) → Total (lit n)
unfolding lit
lit-Total n low (free, tracked, pins) =
    (omega arith, (λ (q : ℕ) (u : low.used q ≡ true). tracked q u), pins)

get_elem?-inside : (vs : List Loc) (n : ℕ) → n < length vs → (l : Loc) × (get_elem? vs n ≡ some l)
get_elem?-inside [] n h = absurd (omega arith)
get_elem?-inside (l ∷ vs) zero h = (l, refl)
get_elem?-inside (l ∷ vs) (suc n) h = get_elem?-inside vs n (omega arith)

-- The value at a depth inside the window.
peek-Deep :
    (k n d : ℕ) (low : Low)
    → d < k
    → Deep k n [] low
    → Returns (peek d low) (λ l low'. Deep k n [] low' × (get_elem? low'.vs d ≡ some l))
peek-Deep k n d low h ((free, tracked, pins), deep) =
    let (l, e) = get_elem?-inside low.vs d (omega (arith, deep, h)) in
    rw (e, peek) (((free, tracked, pins), deep), e)

picked :
    (n : ℕ) (low : Low)
    → Deep (n + 1) 1 [] low
    → Returns ((peek n >>= λ src. copy_of src >>= push) low) (λ _ low'. IsLow low')
picked n low h =
    bind (peek n) (λ src. copy_of src >>= push)
      (λ l low'. Deep (n + 1) 1 [] low' × (get_elem? low'.vs n ≡ some l)) (λ _ low'. IsLow low') low
      (peek-Deep (n + 1) 1 n low (omega arith) h)
      (λ l low1 (h1, e).
        bind (copy_of l) push (λ c low'. Deep (n + 1) 0 (c ∷ []) low' × (low'.vs ≡ low1.vs))
          (λ _ low'. IsLow low') low1 (copy_of-Deep (n + 1) 0 l [] low1 h1)
          (λ c low2 (h2, same). push-IsLow (n + 1) 0 c low2 h2))

pick_small : (n : ℕ) → n ≤ 5 → Total (pick_n n)
unfolding pick_n
pick_small n small =
    reserved (n + 2) (n + 1) (peek n >>= λ src. copy_of src >>= push) (omega arith) (omega arith)
      (λ low ((free, tracked, pins), deep).
        picked n low ((omega (arith, free), tracked, pins), deep))

-- For the deepest one the window is settled first.
pick_six : Total (pick_n 6)
unfolding pick_n
pick_six low h =
    bind (reserve 8) (λ _. ensure 7 >> (peek 6 >>= λ src. copy_of src >>= push))
      (λ _ low'. Settled low') (λ _ low'. IsLow low') low (reserve-Settled 8 low (omega arith) h)
      (λ a low1 ((free, tracked, pins), w).
        bind (ensure 7) (λ _. peek 6 >>= λ src. copy_of src >>= push) (λ _ low'. Deep 7 1 [] low')
          (λ _ low'. IsLow low') low1
          (ensure-Deep 7 1 [] low1 (omega (arith, free, ap length w), tracked, pins))
          (λ b low2 g. picked 6 low2 g))

-- At most six deep.
pub pick_n-Total : (n : ℕ) → n ≤ 6 → Total (pick_n n)
pick_n-Total n small = elim (Bool-cases (n == 6)) [
  | inl six ↦ rw (==→eq n 6 six) pick_six
  | inr other ↦ pick_small n (ground arith)
]

-- Moving a value to the top keeps the registers.
has-remove_at :
    (q n : ℕ) (vs : List Loc) (l : Loc)
    → get_elem? vs n ≡ some l
    → has q (l ∷ remove_at n vs) ≡ has q vs
has-remove_at q n [] l e = cc
has-remove_at q zero (v ∷ vs) l e = ap (λ u. has q (u ∷ vs)) (sym (some-injective _ _ e))
has-remove_at q (suc n) (const c ∷ vs) (const d) e = has-remove_at q n vs (const d) e
has-remove_at q (suc n) (const c ∷ vs) (reg r) e = has-remove_at q n vs (reg r) e
has-remove_at q (suc n) (reg p ∷ vs) (const d) e = ground (arith, has-remove_at q n vs (const d) e)
has-remove_at q (suc n) (reg p ∷ vs) (reg r) e = ground (arith, has-remove_at q n vs (reg r) e)

-- At most six deep.
pub roll_n-Total : (n : ℕ) → n ≤ 6 → Total (roll_n n)
unfolding roll_n
roll_n-Total zero small = λ low h. h
roll_n-Total (suc n) small =
    reserved (suc n + 1) (suc n + 1) _ (omega arith) (omega arith)
      (λ low ((free, tracked, pins), deep).
        bind (peek (suc n))
          (λ item. modify (λ low. record low { vs = item ∷ remove_at (suc n) low.vs }))
          (λ l low'. Deep (suc n + 1) 0 [] low' × (get_elem? low'.vs (suc n) ≡ some l))
          (λ _ low'. IsLow low') low
          (peek-Deep (suc n + 1) 0 (suc n) low (omega arith) ((omega arith, tracked, pins), deep))
          (λ l low1 (((f, t, p), d), e). (
            omega arith,
            (λ (q : ℕ) (u : low1.used q ≡ true).
                ground (arith, t q u, has-remove_at q (suc n) low1.vs l e)),
            p,
          )))

has-cons : (q : ℕ) (l : Loc) (vs : List Loc) → has q (l ∷ vs) ≡ (has q (l ∷ []) || has q vs)
has-cons q (const c) vs = refl
has-cons q (reg r) vs = ground arith

tuck_copy-IsLow :
    (vs : List Loc) (low : Low)
    → low.vs ≡ vs
    → 2 ≤ length vs
    → Deep 0 1 [] low
    → Returns (tuck_copy vs low) (λ _ low'. IsLow low')
tuck_copy-IsLow [] low e n h = absurd (omega arith)
tuck_copy-IsLow (b ∷ []) low e n h = absurd (omega arith)
tuck_copy-IsLow (b ∷ a ∷ vs) low e n h =
    bind (copy_of b) _ (λ c low'. Deep 0 0 (c ∷ []) low' × (low'.vs ≡ low.vs))
      (λ _ low'. IsLow low') low (copy_of-Deep 0 0 b [] low h)
      (λ c low1 (((f, t, p), d), same). (
        omega arith,
        (λ (q : ℕ) (u : low1.used q ≡ true). ground (
          arith,
          t q u,
          ap (has q) (same ∙ e),
          has-cons q b (a ∷ c ∷ vs),
          has-cons q a (c ∷ vs),
          has-cons q c vs,
          has-cons q b (a ∷ vs),
          has-cons q a vs,
        )),
        p,
      ))

-- The stack words that reserve registers.
abbrev pub reserves : Stk → Bool
reserves Stk.drop = false
reserves Stk.nip = false
reserves Stk.minus_rot = false
reserves w = true

pub stk-Total : (w : Stk) → reserves w ≡ true → Total (stk w)
unfolding stk
stk-Total Stk.dup h = pick_n-Total 0 (omega arith)
stk-Total Stk.over h = pick_n-Total 1 (omega arith)
stk-Total Stk.swap h = roll_n-Total 1 (omega arith)
stk-Total Stk.rot h = roll_n-Total 2 (omega arith)
stk-Total Stk.tuck h =
    reserved 3 2 (λ low. tuck_copy low.vs low) (omega arith) (omega arith)
      (λ low (ready, deep). tuck_copy-IsLow low.vs low refl deep (ready, omega arith))
stk-Total Stk.drop h = cc
stk-Total Stk.nip h = cc
stk-Total Stk.minus_rot h = cc
