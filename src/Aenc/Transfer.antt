-- ===== src/Aenc/Transfer.antt =====
-- src/aenc.rs: moves, branches, loads and stores. An instruction word and a register number are u32,
-- an immediate is the number of its type; a shift of a u32 keeps its low 32 bits.
use mf.Prelude.{ℕ, ◌/◌, ◌^◌, bit_and, bit_or}
use mf.Prelude.Int.{ℤ}
use mf.Aenc.Fields.{shl32, as_u32}

unfoldable pub movz : ℕ → ℕ → ℕ → ℕ
movz rd imm16 shift =
    bit_or (bit_or (bit_or 0xD280_0000 (shl32 (shift / 16) 21)) (shl32 imm16 5)) (bit_and rd 0x1F)

unfoldable pub movk : ℕ → ℕ → ℕ → ℕ
movk rd imm16 shift =
    bit_or (bit_or (bit_or 0xF280_0000 (shl32 (shift / 16) 21)) (shl32 imm16 5)) (bit_and rd 0x1F)

unfoldable pub blr : ℕ → ℕ
blr rn = bit_or 0xD63F_0000 (shl32 (bit_and rn 0x1F) 5)

unfoldable pub br_reg : ℕ → ℕ
br_reg rn = bit_or 0xD61F_0000 (shl32 (bit_and rn 0x1F) 5)

abbrev pub ret : ℕ
ret = 0xD65F_03C0

unfoldable pub str_pre : ℕ → ℕ → ℤ → ℕ
str_pre rt rn imm9 =
    bit_or
      (bit_or (bit_or 0xF800_0C00 (shl32 (bit_and (as_u32 imm9) 0x1FF) 12))
        (shl32 (bit_and rn 0x1F) 5))
      (bit_and rt 0x1F)

unfoldable pub ldr_post : ℕ → ℕ → ℤ → ℕ
ldr_post rt rn imm9 =
    bit_or
      (bit_or (bit_or 0xF840_0400 (shl32 (bit_and (as_u32 imm9) 0x1FF) 12))
        (shl32 (bit_and rn 0x1F) 5))
      (bit_and rt 0x1F)

unfoldable pub mov_reg : ℕ → ℕ → ℕ
mov_reg rd rm = bit_or (bit_or 0xAA00_03E0 (shl32 (bit_and rm 0x1F) 16)) (bit_and rd 0x1F)

unfoldable pub ldr0 : ℕ → ℕ → ℕ
ldr0 rt rn = bit_or (bit_or 0xF940_0000 (shl32 (bit_and rn 0x1F) 5)) (bit_and rt 0x1F)

unfoldable pub add_imm : ℕ → ℕ → ℕ → ℕ
add_imm rd rn imm12 =
    bit_or
      (bit_or (bit_or 0x9100_0000 (shl32 (bit_and imm12 0xFFF) 10)) (shl32 (bit_and rn 0x1F) 5))
      (bit_and rd 0x1F)

unfoldable pub cbz : ℕ → ℤ → ℕ
cbz rt off = bit_or (bit_or 0xB400_0000 (shl32 (bit_and (as_u32 off) 0x7FFFF) 5)) (bit_and rt 0x1F)

unfoldable pub b : ℤ → ℕ
b off = bit_or 0x1400_0000 (bit_and (as_u32 off) 0x03FF_FFFF)

unfoldable pub bcond : ℕ → ℤ → ℕ
bcond cond off =
    bit_or (bit_or 0x5400_0000 (shl32 (bit_and (as_u32 off) 0x7FFFF) 5)) (bit_and cond 15)

unfoldable pub ldr_off : ℕ → ℕ → ℕ → ℕ
ldr_off rt rn imm =
    bit_or
      (bit_or (bit_or 0xF940_0000 (shl32 (bit_and (imm / 8) 0xFFF) 10)) (shl32 (bit_and rn 0x1F) 5))
      (bit_and rt 0x1F)

unfoldable pub str_off : ℕ → ℕ → ℕ → ℕ
str_off rt rn imm =
    bit_or
      (bit_or (bit_or 0xF900_0000 (shl32 (bit_and (imm / 8) 0xFFF) 10)) (shl32 (bit_and rn 0x1F) 5))
      (bit_and rt 0x1F)

unfoldable pub tbz : ℕ → ℕ → ℤ → ℕ
tbz rt bit off =
    let b5 = bit_and (bit / 2 ^ 5) 1 in
    let b40 = bit_and bit 31 in
    bit_or
      (bit_or (bit_or (bit_or (shl32 b5 31) 0x3600_0000) (shl32 b40 19))
        (shl32 (bit_and (as_u32 off) 0x3FFF) 5))
      (bit_and rt 0x1F)
