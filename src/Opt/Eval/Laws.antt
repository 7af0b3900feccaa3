-- ===== src/Opt/Eval/Laws.antt =====
-- Words stay words, the conditions say what the folders compute, and the identities that `reduce`
-- relies on.
use mf.Prelude.{
  ℕ, ◌%◌, ◌^◌, ◌≡◌, refl, arith, true, false, not, some, if◌then◌else◌, bit_xor, Bool-cases, inl,
  inr,
}
use mf.Word.{IsWord, lt_signed}
use mf.Word.Bits.{and_width, or_width, xor_width}
use mf.Aenc.Conditions
use mf.Opt.Tok.{Bin, Sh, Cmp, Sel}
use mf.Opt.Eval.{
  bin_eval, sh_eval, cmp_eval, cmp_eval_zero, cmp_cond, cmp_swapped_cond, cmp_negate, sel_eval,
  sel_cond, flag,
}

pub bin_eval-IsWord : (op : Bin) (a b : ℕ) → IsWord a → IsWord b → IsWord (bin_eval op a b)
unfolding bin_eval
bin_eval-IsWord Bin.add a b h k = omega arith
bin_eval-IsWord Bin.sub a b h k = omega arith
bin_eval-IsWord Bin.mul a b h k = omega arith
bin_eval-IsWord Bin.and a b h k = and_width 64 a b h k
bin_eval-IsWord Bin.or a b h k = or_width 64 a b h k
bin_eval-IsWord Bin.xor a b h k = xor_width 64 a b h k

pub sh_eval-IsWord : (sh : Sh) (a n : ℕ) → IsWord a → IsWord (sh_eval sh a n)
unfolding sh_eval
sh_eval-IsWord Sh.lsl a n h = omega arith
sh_eval-IsWord Sh.lsr a n h = omega arith
sh_eval-IsWord Sh.asr a n h = ground arith

-- A count of zero shifts nothing.
pub sh_eval-zero : (sh : Sh) (a n : ℕ) → IsWord a → n % 2 ^ 32 % 64 ≡ 0 → sh_eval sh a n ≡ a
unfolding sh_eval
sh_eval-zero Sh.lsl a n h e = rw e (omega arith)
sh_eval-zero Sh.lsr a n h e = rw e (omega arith)
sh_eval-zero Sh.asr a n h e = rw e (ground arith)

-- The comparisons of two operands.
abbrev pub IsBinary : Cmp → Type 0
IsBinary Cmp.zeq = ⊥
IsBinary Cmp.zne = ⊥
IsBinary Cmp.zlt = ⊥
IsBinary Cmp.zgt = ⊥
IsBinary c = Unit

-- For a comparison of two operands, after `cmp a, b` its condition says what the comparison folds
-- to, and after `cmp b, a` its swapped condition does.
pub flag-holds :
    (c : Cmp) (a b : ℕ)
    → IsBinary c
    → (flag (Conditions.holds (cmp_cond c) a b) ≡ cmp_eval c a b)
      × (flag (Conditions.holds (cmp_swapped_cond c) b a) ≡ cmp_eval c a b)
unfolding Conditions.holds cmp_cond cmp_swapped_cond cmp_eval
flag-holds Cmp.eq a b h = (refl, ground arith)
flag-holds Cmp.ne a b h = (refl, ground arith)
flag-holds Cmp.lt a b h = (refl, refl)
flag-holds Cmp.gt a b h = (refl, refl)
flag-holds Cmp.le a b h = (refl, refl)
flag-holds Cmp.ge a b h = (refl, refl)
flag-holds Cmp.ult a b h = (refl, refl)
flag-holds Cmp.ugt a b h = (refl, refl)
flag-holds Cmp.zeq a b h = absurd h
flag-holds Cmp.zne a b h = absurd h
flag-holds Cmp.zlt a b h = absurd h
flag-holds Cmp.zgt a b h = absurd h

-- Inverting the low bit of a condition code inverts the condition.
pub holds-xor_one :
    (c : Cmp) (a b : ℕ)
    → Conditions.holds (bit_xor (cmp_cond c) 1) a b ≡ not (Conditions.holds (cmp_cond c) a b)
unfolding Conditions.holds cmp_cond
holds-xor_one Cmp.eq a b = refl
holds-xor_one Cmp.ne a b = ground arith
holds-xor_one Cmp.lt a b = ground arith
holds-xor_one c a b = ground arith

lt_signed_asymm : (a b : ℕ) → lt_signed a b ≡ true → lt_signed b a ≡ false
lt_signed_asymm a b h = ground arith

eq_of_not_lt :
    (a b : ℕ) → IsWord a → IsWord b → lt_signed a b ≡ false → lt_signed b a ≡ false → a ≡ b
eq_of_not_lt a b h k p q = ground arith

-- On two words, `csel` on the condition of a select word gives what the word folds to.
pub csel-holds :
    (s : Sel) (a b : ℕ)
    → IsWord a
    → IsWord b
    → (if Conditions.holds (sel_cond s) a b then a else b) ≡ sel_eval s a b
unfolding Conditions.holds sel_cond sel_eval
csel-holds Sel.min a b h k = elim (Bool-cases (lt_signed a b)) [
  | inl t ↦ rw (t, lt_signed_asymm a b t)
  | inr f ↦ elim (Bool-cases (lt_signed b a)) [
    | inl t ↦ rw (f, t)
    | inr g ↦ rw (f, g, eq_of_not_lt a b h k f g)
  ]
]
csel-holds Sel.max a b h k = elim (Bool-cases (lt_signed b a)) [
  | inl t ↦ rw (t, lt_signed_asymm b a t)
  | inr f ↦ elim (Bool-cases (lt_signed a b)) [
    | inl t ↦ rw (f, t)
    | inr g ↦ rw (f, g, eq_of_not_lt a b h k g f)
  ]
]
csel-holds Sel.umin a b h k = ground arith
csel-holds Sel.umax a b h k = ground arith

-- Where a comparison has a negation, the comparison of two cells followed by `0=` folds to what the
-- negation does.
pub cmp_eval-negate :
    (c n : Cmp) (a b : ℕ)
    → cmp_negate c ≡ some n
    → cmp_eval_zero Cmp.zeq (cmp_eval c a b) ≡ cmp_eval n a b
unfolding cmp_eval cmp_eval_zero cmp_negate
cmp_eval-negate c n a b h = ground arith
