-- ===== src/Aenc/Float.antt =====
-- src/aenc.rs: scalar double-precision floating point.
use mf.Prelude.{ℕ, ◌/◌, bit_and, bit_or}
use mf.Prelude.Int.{ℤ}
use mf.Aenc.Fields.{shl32, as_u32}

unfoldable pub fadd : ℕ → ℕ → ℕ → ℕ
fadd rd rn rm =
    bit_or (bit_or (bit_or 0x1E60_2800 (shl32 (bit_and rm 0x1F) 16)) (shl32 (bit_and rn 0x1F) 5))
      (bit_and rd 0x1F)

unfoldable pub fsub : ℕ → ℕ → ℕ → ℕ
fsub rd rn rm =
    bit_or (bit_or (bit_or 0x1E60_3800 (shl32 (bit_and rm 0x1F) 16)) (shl32 (bit_and rn 0x1F) 5))
      (bit_and rd 0x1F)

unfoldable pub fmul : ℕ → ℕ → ℕ → ℕ
fmul rd rn rm =
    bit_or (bit_or (bit_or 0x1E60_0800 (shl32 (bit_and rm 0x1F) 16)) (shl32 (bit_and rn 0x1F) 5))
      (bit_and rd 0x1F)

unfoldable pub fdiv : ℕ → ℕ → ℕ → ℕ
fdiv rd rn rm =
    bit_or (bit_or (bit_or 0x1E60_1800 (shl32 (bit_and rm 0x1F) 16)) (shl32 (bit_and rn 0x1F) 5))
      (bit_and rd 0x1F)

unfoldable pub fneg : ℕ → ℕ → ℕ
fneg rd rn = bit_or (bit_or 0x1E61_4000 (shl32 (bit_and rn 0x1F) 5)) (bit_and rd 0x1F)

unfoldable pub fabs : ℕ → ℕ → ℕ
fabs rd rn = bit_or (bit_or 0x1E60_C000 (shl32 (bit_and rn 0x1F) 5)) (bit_and rd 0x1F)

unfoldable pub fsqrt : ℕ → ℕ → ℕ
fsqrt rd rn = bit_or (bit_or 0x1E61_C000 (shl32 (bit_and rn 0x1F) 5)) (bit_and rd 0x1F)

unfoldable pub frintm : ℕ → ℕ → ℕ
frintm rd rn = bit_or (bit_or 0x1E65_4000 (shl32 (bit_and rn 0x1F) 5)) (bit_and rd 0x1F)

unfoldable pub frinta : ℕ → ℕ → ℕ
frinta rd rn = bit_or (bit_or 0x1E66_4000 (shl32 (bit_and rn 0x1F) 5)) (bit_and rd 0x1F)

unfoldable pub frintz : ℕ → ℕ → ℕ
frintz rd rn = bit_or (bit_or 0x1E65_C000 (shl32 (bit_and rn 0x1F) 5)) (bit_and rd 0x1F)

unfoldable pub fmov_dd : ℕ → ℕ → ℕ
fmov_dd rd rn = bit_or (bit_or 0x1E60_4000 (shl32 (bit_and rn 0x1F) 5)) (bit_and rd 0x1F)

unfoldable pub fmov_dx : ℕ → ℕ → ℕ
fmov_dx rd rn = bit_or (bit_or 0x9E67_0000 (shl32 (bit_and rn 0x1F) 5)) (bit_and rd 0x1F)

unfoldable pub fmov_xd : ℕ → ℕ → ℕ
fmov_xd rd rn = bit_or (bit_or 0x9E66_0000 (shl32 (bit_and rn 0x1F) 5)) (bit_and rd 0x1F)

unfoldable pub fldr_post : ℕ → ℕ → ℤ → ℕ
fldr_post rt rn imm9 =
    bit_or
      (bit_or (bit_or 0xFC40_0400 (shl32 (bit_and (as_u32 imm9) 0x1FF) 12))
        (shl32 (bit_and rn 0x1F) 5))
      (bit_and rt 0x1F)

unfoldable pub fstr_pre : ℕ → ℕ → ℤ → ℕ
fstr_pre rt rn imm9 =
    bit_or
      (bit_or (bit_or 0xFC00_0C00 (shl32 (bit_and (as_u32 imm9) 0x1FF) 12))
        (shl32 (bit_and rn 0x1F) 5))
      (bit_and rt 0x1F)

unfoldable pub fldr0 : ℕ → ℕ → ℕ
fldr0 rt rn = bit_or (bit_or 0xFD40_0000 (shl32 (bit_and rn 0x1F) 5)) (bit_and rt 0x1F)

unfoldable pub fstr0 : ℕ → ℕ → ℕ
fstr0 rt rn = bit_or (bit_or 0xFD00_0000 (shl32 (bit_and rn 0x1F) 5)) (bit_and rt 0x1F)

unfoldable pub fldr_off : ℕ → ℕ → ℕ → ℕ
fldr_off rt rn off =
    bit_or (bit_or (bit_or 0xFD40_0000 (shl32 (off / 8) 10)) (shl32 (bit_and rn 0x1F) 5))
      (bit_and rt 0x1F)

unfoldable pub fstr_off : ℕ → ℕ → ℕ → ℕ
fstr_off rt rn off =
    bit_or (bit_or (bit_or 0xFD00_0000 (shl32 (off / 8) 10)) (shl32 (bit_and rn 0x1F) 5))
      (bit_and rt 0x1F)

unfoldable pub fcmp : ℕ → ℕ → ℕ
fcmp rn rm = bit_or (bit_or 0x1E60_2000 (shl32 (bit_and rm 0x1F) 16)) (shl32 (bit_and rn 0x1F) 5)

unfoldable pub fcmp_zero : ℕ → ℕ
fcmp_zero rn = bit_or 0x1E60_2008 (shl32 (bit_and rn 0x1F) 5)
