-- ===== src/Word.antt =====
-- Machine words: a Rust i64 or u64 is its bit pattern, a number below 2 ^ 64.
pub mod Bits
pub mod Fields
use mf.Prelude.{
  ℕ, ◌+◌, ◌-◌, ◌*◌, ◌/◌, ◌%◌, ◌^◌, ◌<◌, Bool, true, false, if◌then◌else◌, ltb, bit_and, bit_or,
  bit_xor,
}
use mf.Prelude.Int.{ℤ, pos, negsuc, ltb_ℤ}

abbrev pub word_mod : ℕ
word_mod = 2 ^ 64

abbrev pub sign_bit : ℕ
sign_bit = 2 ^ 63

-- The pattern of -1.
abbrev pub all_ones : ℕ
all_ones = 2 ^ 64 - 1

abbrev pub IsWord : ℕ → Type 0
IsWord a = a < word_mod

abbrev pub wrapping_add : ℕ → ℕ → ℕ
wrapping_add a b = (a + b) % word_mod

-- `-` on ℕ stops at 0, so the modulus is added first.
abbrev pub wrapping_sub : ℕ → ℕ → ℕ
wrapping_sub a b = (a + word_mod - b) % word_mod

abbrev pub wrapping_mul : ℕ → ℕ → ℕ
wrapping_mul a b = a * b % word_mod

-- The integer that a pattern stands for.
abbrev pub signed64 : ℕ → ℤ
signed64 a = if ltb a sign_bit then pos a else negsuc (word_mod - a - 1)

-- `<` on i64.
abbrev pub lt_signed : ℕ → ℕ → Bool
lt_signed a b = ltb_ℤ (signed64 a) (signed64 b)

-- `(a as u64) << n`, `(a as u64) >> n` and `a >> n` on i64, for n < 64. A negative number is
-- shifted through its complement.
unfoldable pub shl : ℕ → ℕ → ℕ
shl a n = a * 2 ^ n % word_mod

unfoldable pub shr : ℕ → ℕ → ℕ
shr a n = a / 2 ^ n

unfoldable pub sar : ℕ → ℕ → ℕ
sar a n = if ltb a sign_bit then a / 2 ^ n else all_ones - (all_ones - a) / 2 ^ n
