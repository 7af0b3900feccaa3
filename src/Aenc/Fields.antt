-- ===== src/Aenc/Fields.antt =====
-- The u32 arithmetic that the encoders of src/aenc.rs share.
use mf.Prelude.{ℕ, ◌-◌, ◌*◌, ◌%◌, ◌^◌}
use mf.Prelude.Int.{ℤ, pos, negsuc}

-- 2 ^ 32
abbrev pub u32_mod : ℕ
u32_mod = 4294967296

-- `x << k` of a u32.
abbrev pub shl32 : ℕ → ℕ → ℕ
shl32 x k = x * 2 ^ k % u32_mod

-- `x as u32` of an i32.
abbrev pub as_u32 : ℤ → ℕ
as_u32 (pos n) = n % u32_mod
as_u32 (negsuc n) = u32_mod - 1 - n % u32_mod
