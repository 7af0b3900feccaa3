-- ===== src/Tests/Lowering.antt =====
-- Runs of a few tokens.
use mf.Prelude.{ℕ, ◌≡◌, refl, arith, List, [], ◌∷◌, ◌++◌, Option, none, some}
use mf.Opt.Tok.{Tok, Stk, Bin, Cmp}
use mf.Opt.Lower.{Low, M, panic}
use mf.Opt.Lower.Words.{stk}
use mf.Opt.Lower.Run.{start, lower_toks}
use mf.Opt.Lower.Ready.Total.{IsLow}
use mf.Opt.Lower.Ready.Runs.{lower_toks-IsLow}
use mf.Opt.Lower.Panics.{stk-nip}

abbrev no_other : Tok → M (Unit {0})
no_other t = panic

-- `2 over + 5 <`
abbrev sum_run : List Tok
sum_run = Tok.lit 2 ∷ Tok.stk Stk.over ∷ Tok.bin Bin.add ∷ Tok.lit 5 ∷ Tok.cmp Cmp.lt ∷ []

lower_toks-IsLow_example :
    (low : Low) × (lower_toks no_other sum_run (start [] [] []) ≡ some (tt, low)) × IsLow low
lower_toks-IsLow_example =
    lower_toks-IsLow no_other [] [] sum_run (tt, (refl, (tt, (tt, (tt, tt)))))

-- Each local is read and dropped.
abbrev reads : List ℕ → List Tok
reads [] = []
reads (i ∷ is) = Tok.local_fetch i ∷ Tok.stk Stk.drop ∷ reads is

abbrev six_locals : List ℕ
six_locals = 0 ∷ 1 ∷ 2 ∷ 3 ∷ 4 ∷ 5 ∷ []

abbrev state_of : Option (Unit {0} × Low) → Low
state_of none = start [] [] []
state_of (some (a, low)) = low

-- Six hot locals are cached, and the window is empty.
abbrev cached : Low
cached =
    state_of (lower_toks no_other (Tok.stk Stk.drop ∷ reads six_locals) (start [] six_locals []))

stk-nip_example : stk Stk.nip cached ≡ none
stk-nip_example = stk-nip cached (unfold lower_toks in refl) (unfold lower_toks in omega arith)

-- The run with `nip` at its end panics.
nip_run :
    lower_toks no_other
      (Tok.stk Stk.drop ∷ (reads six_locals ++ Tok.stk Stk.nip ∷ []))
      (start [] six_locals [])
    ≡ none
unfolding lower_toks
nip_run = refl
