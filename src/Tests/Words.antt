-- ===== src/Tests/Words.antt =====
-- Words on the data stack.
use mf.Prelude.{◌≡◌, arith}
use mf.Word.{IsWord, all_ones}
use mf.Aenc.Conditions
use mf.Opt.Tok.{Bin, Cmp}
use mf.Opt.Eval.{bin_eval, cmp_eval, cmp_cond, cmp_swapped_cond, flag}
use mf.Opt.Eval.Laws.{bin_eval-IsWord, flag-holds}

bin_eval-IsWord_example : IsWord (bin_eval Bin.add all_ones 1)
bin_eval-IsWord_example = bin_eval-IsWord Bin.add all_ones 1 (omega arith) (omega arith)

flag-holds_example :
    (flag (Conditions.holds (cmp_cond Cmp.lt) all_ones 1) ≡ cmp_eval Cmp.lt all_ones 1)
    × (flag (Conditions.holds (cmp_swapped_cond Cmp.lt) 1 all_ones) ≡ cmp_eval Cmp.lt all_ones 1)
flag-holds_example = flag-holds Cmp.lt all_ones 1 tt
