-- ===== src/Aenc/Conditions.antt =====
-- The AArch64 condition codes of src/aenc.rs, with the comparison of two words that its comments give
-- for each.
use mf.Prelude.{ℕ, Bool, not, if◌then◌else◌, ltb, ◌==◌}
use mf.Word.{lt_signed}

abbrev pub eq : ℕ
eq = 0

abbrev pub ne : ℕ
ne = 1

abbrev pub hs : ℕ
hs = 2

abbrev pub lo : ℕ
lo = 3

abbrev pub mi : ℕ
mi = 4

abbrev pub hi : ℕ
hi = 8

abbrev pub ls : ℕ
ls = 9

abbrev pub ge : ℕ
ge = 10

abbrev pub lt : ℕ
lt = 11

abbrev pub gt : ℕ
gt = 12

abbrev pub le : ℕ
le = 13

abbrev pub al : ℕ
al = 14

-- Whether a condition holds after `cmp a, b`, for the codes that compare two words.
unfoldable pub holds : ℕ → ℕ → ℕ → Bool
holds code a b =
    if code == eq
    then a == b
    else if code == ne
    then not (a == b)
    else if code == hs
    then not (ltb a b)
    else if code == lo
    then ltb a b
    else if code == hi
    then ltb b a
    else if code == ls
    then not (ltb b a)
    else if code == ge
    then not (lt_signed a b)
    else if code == lt
    then lt_signed a b
    else if code == gt
    then lt_signed b a
    else if code == le
    then not (lt_signed b a)
    else code == al
