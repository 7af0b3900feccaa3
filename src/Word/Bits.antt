-- ===== src/Word/Bits.antt =====
-- Laws of `bit_and`, `bit_or` and `bit_xor` at every width, by induction on binary digits.
use Prim.Native.Nat.{digits, bitwise, differ, bit_and-bitwise, bit_or-bitwise, bit_xor-bitwise}
use native.Mathlib.Nat.{le_refl, pow-suc, one-le-pow}
use mf.Prelude.{
  ℕ, zero, suc, ◌+◌, ◌-◌, ◌*◌, ◌/◌, ◌%◌, ◌^◌, ◌≤◌, ◌<◌, ◌≡◌, refl, arith, min, max, bit_and, bit_or,
  bit_xor, ◌∙◌,
}

module _ (z : ℕ → ℕ) (f : ℕ → ℕ → ℕ) where
  -- More fuel than the number changes nothing.
  digits_enough : (n m a b : ℕ) → a ≤ n → a ≤ m → digits z f n a b ≡ digits z f m a b
  digits_enough zero zero a b p q = refl
  digits_enough zero (suc m) zero b p q = refl
  digits_enough zero (suc m) (suc a) b p q = absurd (omega arith)
  digits_enough (suc n) zero zero b p q = refl
  digits_enough (suc n) zero (suc a) b p q = absurd (omega arith)
  digits_enough (suc n) (suc m) zero b p q = refl
  digits_enough (suc n) (suc m) (suc a) b p q =
      rw (digits_enough n m (suc a / 2) (b / 2) (omega arith) (omega arith))

  lowest_digit :
      (a b : ℕ)
      → bitwise z f (suc a) b ≡ bitwise z f (suc a / 2) (b / 2) * 2 + f (suc a % 2) (b % 2)
  lowest_digit a b =
      omega (arith, digits_enough a (suc a / 2) (suc a / 2) (b / 2) (omega arith) (le_refl _))

-- Each operation, by its lowest digit.
pub and_step : (a b : ℕ) → bit_and a b ≡ bit_and (a / 2) (b / 2) * 2 + min (a % 2) (b % 2)
and_step zero b = simp bit_and-bitwise (omega arith)
and_step (suc a) b = simp bit_and-bitwise (lowest_digit (λ y. 0) min a b)

pub or_step : (a b : ℕ) → bit_or a b ≡ bit_or (a / 2) (b / 2) * 2 + max (a % 2) (b % 2)
or_step zero b = simp bit_or-bitwise (omega arith)
or_step (suc a) b = simp bit_or-bitwise (lowest_digit (λ y. y) max a b)

differ_lem : (x y : ℕ) → differ x y ≡ (x - y) + (y - x)
differ_lem zero y = omega arith
differ_lem (suc x) zero = omega arith
differ_lem (suc x) (suc y) = omega (arith, differ_lem x y)

pub xor_step : (a b : ℕ) → bit_xor a b ≡ bit_xor (a / 2) (b / 2) * 2 + (a + b) % 2
xor_step zero b = simp bit_xor-bitwise (omega arith)
xor_step (suc a) b =
    let low : (suc a + b) % 2 ≡ differ (suc a % 2) (b % 2) =
      omega (arith, differ_lem (suc a % 2) (b % 2)) in
    rw low (simp bit_xor-bitwise (lowest_digit (λ y. y) differ a b))

-- Associativity, on fuel above the first operand.
half-and : (a b : ℕ) → bit_and a b / 2 ≡ bit_and (a / 2) (b / 2)
half-and a b = omega (arith, and_step a b)

zero-and : (b : ℕ) → bit_and 0 b ≡ 0
zero-and b = bit_and-bitwise 0 b

and_assoc_fuel : (n a b c : ℕ) → a ≤ n → bit_and (bit_and a b) c ≡ bit_and a (bit_and b c)
and_assoc_fuel zero a b c h =
    let e : a ≡ 0 = omega arith in rw (e, zero-and b, zero-and (bit_and b c), zero-and c)
and_assoc_fuel (suc n) a b c h = ground (
  arith,
  and_step (bit_and a b) c,
  and_step a (bit_and b c),
  and_step a b,
  and_step b c,
  half-and a b,
  half-and b c,
  and_assoc_fuel n (a / 2) (b / 2) (c / 2),
)

pub and_assoc : (a b c : ℕ) → bit_and (bit_and a b) c ≡ bit_and a (bit_and b c)
and_assoc a b c = and_assoc_fuel a a b c (le_refl a)

half-or : (a b : ℕ) → bit_or a b / 2 ≡ bit_or (a / 2) (b / 2)
half-or a b = omega (arith, or_step a b)

zero-or : (b : ℕ) → bit_or 0 b ≡ b
zero-or b = bit_or-bitwise 0 b

or_assoc_fuel : (n a b c : ℕ) → a ≤ n → bit_or (bit_or a b) c ≡ bit_or a (bit_or b c)
or_assoc_fuel zero a b c h = let e : a ≡ 0 = omega arith in rw (e, zero-or b, zero-or (bit_or b c))
or_assoc_fuel (suc n) a b c h = ground (
  arith,
  or_step (bit_or a b) c,
  or_step a (bit_or b c),
  or_step a b,
  or_step b c,
  half-or a b,
  half-or b c,
  or_assoc_fuel n (a / 2) (b / 2) (c / 2),
)

pub or_assoc : (a b c : ℕ) → bit_or (bit_or a b) c ≡ bit_or a (bit_or b c)
or_assoc a b c = or_assoc_fuel a a b c (le_refl a)

half-xor : (a b : ℕ) → bit_xor a b / 2 ≡ bit_xor (a / 2) (b / 2)
half-xor a b = omega (arith, xor_step a b)

zero-xor : (b : ℕ) → bit_xor 0 b ≡ b
zero-xor b = bit_xor-bitwise 0 b

xor_assoc_fuel : (n a b c : ℕ) → a ≤ n → bit_xor (bit_xor a b) c ≡ bit_xor a (bit_xor b c)
xor_assoc_fuel zero a b c h =
    let e : a ≡ 0 = omega arith in rw (e, zero-xor b, zero-xor (bit_xor b c))
xor_assoc_fuel (suc n) a b c h = ground (
  arith,
  xor_step (bit_xor a b) c,
  xor_step a (bit_xor b c),
  xor_step a b,
  xor_step b c,
  half-xor a b,
  half-xor b c,
  xor_assoc_fuel n (a / 2) (b / 2) (c / 2),
)

pub xor_assoc : (a b c : ℕ) → bit_xor (bit_xor a b) c ≡ bit_xor a (bit_xor b c)
xor_assoc a b c = xor_assoc_fuel a a b c (le_refl a)

-- An operand with itself.
and_self_fuel : (n a : ℕ) → a ≤ n → bit_and a a ≡ a
and_self_fuel zero a h = let e : a ≡ 0 = omega arith in rw (e, zero-and 0)
and_self_fuel (suc n) a h = ground (arith, and_step a a, and_self_fuel n (a / 2))

or_self_fuel : (n a : ℕ) → a ≤ n → bit_or a a ≡ a
or_self_fuel zero a h = let e : a ≡ 0 = omega arith in rw (e, zero-or 0)
or_self_fuel (suc n) a h = ground (arith, or_step a a, or_self_fuel n (a / 2))

xor_self_fuel : (n a : ℕ) → a ≤ n → bit_xor a a ≡ 0
xor_self_fuel zero a h = let e : a ≡ 0 = omega arith in rw (e, zero-xor 0)
xor_self_fuel (suc n) a h = ground (arith, xor_step a a, xor_self_fuel n (a / 2))

-- Zero as the second operand.
and-zero_fuel : (n a : ℕ) → a ≤ n → bit_and a 0 ≡ 0
and-zero_fuel zero a h = let e : a ≡ 0 = omega arith in rw (e, zero-and 0)
and-zero_fuel (suc n) a h = ground (arith, and_step a 0, and-zero_fuel n (a / 2))

or-zero_fuel : (n a : ℕ) → a ≤ n → bit_or a 0 ≡ a
or-zero_fuel zero a h = let e : a ≡ 0 = omega arith in rw (e, zero-or 0)
or-zero_fuel (suc n) a h = ground (arith, or_step a 0, or-zero_fuel n (a / 2))

xor-zero_fuel : (n a : ℕ) → a ≤ n → bit_xor a 0 ≡ a
xor-zero_fuel zero a h = let e : a ≡ 0 = omega arith in rw (e, zero-xor 0)
xor-zero_fuel (suc n) a h = ground (arith, xor_step a 0, xor-zero_fuel n (a / 2))

pub and_self : (a : ℕ) → bit_and a a ≡ a
and_self a = and_self_fuel a a (le_refl a)

pub or_self : (a : ℕ) → bit_or a a ≡ a
or_self a = or_self_fuel a a (le_refl a)

pub xor_self : (a : ℕ) → bit_xor a a ≡ 0
xor_self a = xor_self_fuel a a (le_refl a)

pub and-zero : (a : ℕ) → bit_and a 0 ≡ 0
and-zero a = and-zero_fuel a a (le_refl a)

pub or-zero : (a : ℕ) → bit_or a 0 ≡ a
or-zero a = or-zero_fuel a a (le_refl a)

pub xor-zero : (a : ℕ) → bit_xor a 0 ≡ a
xor-zero a = xor-zero_fuel a a (le_refl a)

-- All ones as the second operand, at every width.
pub and_ones : (k a : ℕ) → a < 2 ^ k → bit_and a (2 ^ k - 1) ≡ a
and_ones zero a h = let e : a ≡ 0 = omega arith in rw (e, zero-and (2 ^ 0 - 1))
and_ones (suc k) a h =
    let p = pow-suc 2 k in
    let q = one-le-pow k 2 in
    let half : (2 ^ suc k - 1) / 2 ≡ 2 ^ k - 1 = omega arith in
    let low : (2 ^ suc k - 1) % 2 ≡ 1 = omega arith in
    and_step a (2 ^ suc k - 1) ∙ rw (half, low, and_ones k (a / 2) (omega arith)) (omega arith)

pub or_ones : (k a : ℕ) → a < 2 ^ k → bit_or a (2 ^ k - 1) ≡ 2 ^ k - 1
or_ones zero a h = let e : a ≡ 0 = omega arith in rw (e, zero-or (2 ^ 0 - 1))
or_ones (suc k) a h =
    let p = pow-suc 2 k in
    let q = one-le-pow k 2 in
    let half : (2 ^ suc k - 1) / 2 ≡ 2 ^ k - 1 = omega arith in
    let low : (2 ^ suc k - 1) % 2 ≡ 1 = omega arith in
    or_step a (2 ^ suc k - 1) ∙ rw (half, low, or_ones k (a / 2) (omega arith)) (omega arith)

-- The results stay in the width.
pub and_width : (k a b : ℕ) → a < 2 ^ k → b < 2 ^ k → bit_and a b < 2 ^ k
and_width zero a b h g = let e : a ≡ 0 = omega arith in rw (e, zero-and b) (omega arith)
and_width (suc k) a b h g =
    let p = pow-suc 2 k in
    omega (arith, and_step a b, and_width k (a / 2) (b / 2) (omega arith) (omega arith))

pub or_width : (k a b : ℕ) → a < 2 ^ k → b < 2 ^ k → bit_or a b < 2 ^ k
or_width zero a b h g = let e : a ≡ 0 = omega arith in rw (e, zero-or b) (omega arith)
or_width (suc k) a b h g =
    let p = pow-suc 2 k in
    omega (arith, or_step a b, or_width k (a / 2) (b / 2) (omega arith) (omega arith))

pub xor_width : (k a b : ℕ) → a < 2 ^ k → b < 2 ^ k → bit_xor a b < 2 ^ k
xor_width zero a b h g = let e : a ≡ 0 = omega arith in rw (e, zero-xor b) (omega arith)
xor_width (suc k) a b h g =
    let p = pow-suc 2 k in
    omega (arith, xor_step a b, xor_width k (a / 2) (b / 2) (omega arith) (omega arith))
