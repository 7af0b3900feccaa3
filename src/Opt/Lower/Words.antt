-- ===== src/Opt/Lower/Words.antt =====
-- The stack words of `Low` in src/opt.rs: most of them only reorder the virtual stack.
use mf.Prelude.{ℕ, zero, suc, ◌+◌, List, [], ◌∷◌, none, some, get_elem?}
use mf.Opt.Tok.{Stk}
use mf.Opt.Lower.{Loc, const, M, ◌>>=◌, ◌>>◌, skip, modify, push, pop}
use mf.Opt.Lower.Registers.{reserve, ensure, free_loc, copy_of}

unfoldable pub lit : ℕ → M (Unit {0})
lit n = push (const n)

-- The value at a depth; an index out of range panics.
abbrev pub peek : ℕ → M Loc
peek n low = elim (get_elem? low.vs n) [ none ↦ none | some l ↦ some (l, low) ]

unfoldable pub pick_n : ℕ → M (Unit {0})
unfolding reserve ensure copy_of
pick_n n = do reserve (n + 2); ensure (n + 1); src ← peek n; c ← copy_of src; push c

-- `vs.remove(idx)`, by depth.
abbrev pub remove_at : ℕ → List Loc → List Loc
remove_at n [] = []
remove_at zero (l ∷ vs) = vs
remove_at (suc n) (l ∷ vs) = l ∷ remove_at n vs

unfoldable pub roll_n : ℕ → M (Unit {0})
unfolding reserve ensure
roll_n zero = skip
roll_n (suc n) = do
  reserve (suc n + 1)
  ensure (suc n + 1)
  item ← peek (suc n)
  modify (λ low. record low { vs = item ∷ remove_at (suc n) low.vs })

-- `self.vs.remove(n - 2)`, freed.
abbrev pub remove_second : List Loc → M (Unit {0})
remove_second (t ∷ u ∷ vs) low = (modify (λ low. record low { vs = t ∷ vs }) >> free_loc u) low
remove_second vs low = none

-- The top is put under the two below it.
abbrev pub sink_top : List Loc → M (Unit {0})
sink_top (c ∷ b ∷ a ∷ vs) low = some (tt, record low { vs = b ∷ a ∷ c ∷ vs })
sink_top vs low = none

-- A copy of the top is put under the second.
abbrev pub tuck_copy : List Loc → M (Unit {0})
tuck_copy (b ∷ a ∷ vs) low =
    (do c ← copy_of b; modify (λ low. record low { vs = b ∷ a ∷ c ∷ vs })) low
tuck_copy vs low = none

unfoldable pub stk : Stk → M (Unit {0})
unfolding pick_n roll_n reserve ensure pop copy_of
stk Stk.dup = pick_n 0
stk Stk.over = pick_n 1
stk Stk.swap = roll_n 1
stk Stk.rot = roll_n 2
stk Stk.drop = do ensure 1; t ← pop; free_loc t
stk Stk.nip = do ensure 2; λ low. remove_second low.vs low
stk Stk.minus_rot = do ensure 3; λ low. sink_top low.vs low
stk Stk.tuck = do reserve 3; ensure 2; λ low. tuck_copy low.vs low
