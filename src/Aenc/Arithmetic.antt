-- ===== src/Aenc/Arithmetic.antt =====
-- src/aenc.rs: integer arithmetic, logic, shifts, comparisons and selections.
use mf.Prelude.{ℕ, ◌-◌, bit_and, bit_or, bit_xor}
use mf.Aenc.Fields.{shl32}

unfoldable pub add_reg : ℕ → ℕ → ℕ → ℕ
add_reg rd rn rm =
    bit_or (bit_or (bit_or 0x8B00_0000 (shl32 (bit_and rm 0x1F) 16)) (shl32 (bit_and rn 0x1F) 5))
      (bit_and rd 0x1F)

unfoldable pub sub_reg : ℕ → ℕ → ℕ → ℕ
sub_reg rd rn rm =
    bit_or (bit_or (bit_or 0xCB00_0000 (shl32 (bit_and rm 0x1F) 16)) (shl32 (bit_and rn 0x1F) 5))
      (bit_and rd 0x1F)

unfoldable pub eor_reg : ℕ → ℕ → ℕ → ℕ
eor_reg rd rn rm =
    bit_or (bit_or (bit_or 0xCA00_0000 (shl32 (bit_and rm 0x1F) 16)) (shl32 (bit_and rn 0x1F) 5))
      (bit_and rd 0x1F)

unfoldable pub mul : ℕ → ℕ → ℕ → ℕ
mul rd rn rm =
    bit_or (bit_or (bit_or 0x9B00_7C00 (shl32 (bit_and rm 0x1F) 16)) (shl32 (bit_and rn 0x1F) 5))
      (bit_and rd 0x1F)

unfoldable pub lsl_imm : ℕ → ℕ → ℕ → ℕ
lsl_imm rd rn sh =
    let immr = bit_and (64 - sh) 63 in
    let imms = 63 - sh in
    bit_or
      (bit_or (bit_or (bit_or 0xD340_0000 (shl32 immr 16)) (shl32 imms 10))
        (shl32 (bit_and rn 0x1F) 5))
      (bit_and rd 0x1F)

unfoldable pub lsr_imm : ℕ → ℕ → ℕ → ℕ
lsr_imm rd rn sh =
    bit_or
      (bit_or (bit_or (bit_or 0xD340_0000 (shl32 (bit_and sh 63) 16)) (shl32 63 10))
        (shl32 (bit_and rn 0x1F) 5))
      (bit_and rd 0x1F)

unfoldable pub asr_imm : ℕ → ℕ → ℕ → ℕ
asr_imm rd rn sh =
    bit_or
      (bit_or (bit_or (bit_or 0x9340_0000 (shl32 (bit_and sh 63) 16)) (shl32 63 10))
        (shl32 (bit_and rn 0x1F) 5))
      (bit_and rd 0x1F)

unfoldable pub lsl_reg : ℕ → ℕ → ℕ → ℕ
lsl_reg rd rn rm =
    bit_or (bit_or (bit_or 0x9AC0_2000 (shl32 (bit_and rm 0x1F) 16)) (shl32 (bit_and rn 0x1F) 5))
      (bit_and rd 0x1F)

unfoldable pub lsr_reg : ℕ → ℕ → ℕ → ℕ
lsr_reg rd rn rm =
    bit_or (bit_or (bit_or 0x9AC0_2400 (shl32 (bit_and rm 0x1F) 16)) (shl32 (bit_and rn 0x1F) 5))
      (bit_and rd 0x1F)

unfoldable pub asr_reg : ℕ → ℕ → ℕ → ℕ
asr_reg rd rn rm =
    bit_or (bit_or (bit_or 0x9AC0_2800 (shl32 (bit_and rm 0x1F) 16)) (shl32 (bit_and rn 0x1F) 5))
      (bit_and rd 0x1F)

unfoldable pub shifted : ℕ → ℕ → ℕ → ℕ → ℕ → ℕ → ℕ
shifted base rd rn rm shift amount =
    bit_or
      (bit_or
        (bit_or (bit_or (bit_or base (shl32 (bit_and shift 3) 22)) (shl32 (bit_and rm 0x1F) 16))
          (shl32 (bit_and amount 63) 10))
        (shl32 (bit_and rn 0x1F) 5))
      (bit_and rd 0x1F)

unfoldable pub add_shift : ℕ → ℕ → ℕ → ℕ → ℕ → ℕ
unfolding shifted
add_shift rd rn rm shift amount = shifted 0x8B00_0000 rd rn rm shift amount

unfoldable pub sub_shift : ℕ → ℕ → ℕ → ℕ → ℕ → ℕ
unfolding shifted
sub_shift rd rn rm shift amount = shifted 0xCB00_0000 rd rn rm shift amount

unfoldable pub and_shift : ℕ → ℕ → ℕ → ℕ → ℕ → ℕ
unfolding shifted
and_shift rd rn rm shift amount = shifted 0x8A00_0000 rd rn rm shift amount

unfoldable pub orr_shift : ℕ → ℕ → ℕ → ℕ → ℕ → ℕ
unfolding shifted
orr_shift rd rn rm shift amount = shifted 0xAA00_0000 rd rn rm shift amount

unfoldable pub eor_shift : ℕ → ℕ → ℕ → ℕ → ℕ → ℕ
unfolding shifted
eor_shift rd rn rm shift amount = shifted 0xCA00_0000 rd rn rm shift amount

unfoldable pub and_reg : ℕ → ℕ → ℕ → ℕ
and_reg rd rn rm =
    bit_or (bit_or (bit_or 0x8A00_0000 (shl32 (bit_and rm 0x1F) 16)) (shl32 (bit_and rn 0x1F) 5))
      (bit_and rd 0x1F)

unfoldable pub orr_reg : ℕ → ℕ → ℕ → ℕ
orr_reg rd rn rm =
    bit_or (bit_or (bit_or 0xAA00_0000 (shl32 (bit_and rm 0x1F) 16)) (shl32 (bit_and rn 0x1F) 5))
      (bit_and rd 0x1F)

unfoldable pub sub_imm : ℕ → ℕ → ℕ → ℕ
sub_imm rd rn imm12 =
    bit_or
      (bit_or (bit_or 0xD100_0000 (shl32 (bit_and imm12 0xFFF) 10)) (shl32 (bit_and rn 0x1F) 5))
      (bit_and rd 0x1F)

unfoldable pub cmp_reg : ℕ → ℕ → ℕ
cmp_reg rn rm =
    bit_or (bit_or (bit_or 0xEB00_0000 (shl32 (bit_and rm 0x1F) 16)) (shl32 (bit_and rn 0x1F) 5)) 31

unfoldable pub cmp_imm : ℕ → ℕ → ℕ
cmp_imm rn imm12 =
    bit_or
      (bit_or (bit_or 0xF100_0000 (shl32 (bit_and imm12 0xFFF) 10)) (shl32 (bit_and rn 0x1F) 5)) 31

unfoldable pub csetm : ℕ → ℕ → ℕ
csetm rd cond =
    let inv = bit_xor cond 1 in
    bit_or
      (bit_or (bit_or (bit_or 0xDA80_0000 (shl32 31 16)) (shl32 (bit_and inv 15) 12)) (shl32 31 5))
      (bit_and rd 0x1F)

unfoldable pub csel : ℕ → ℕ → ℕ → ℕ → ℕ
csel rd rn rm cond =
    bit_or
      (bit_or
        (bit_or (bit_or 0x9A80_0000 (shl32 (bit_and rm 0x1F) 16)) (shl32 (bit_and cond 15) 12))
        (shl32 (bit_and rn 0x1F) 5))
      (bit_and rd 0x1F)

unfoldable pub ldrb0 : ℕ → ℕ → ℕ
ldrb0 rt rn = bit_or (bit_or 0x3940_0000 (shl32 (bit_and rn 0x1F) 5)) (bit_and rt 0x1F)

unfoldable pub strb0 : ℕ → ℕ → ℕ
strb0 rt rn = bit_or (bit_or 0x3900_0000 (shl32 (bit_and rn 0x1F) 5)) (bit_and rt 0x1F)

unfoldable pub neg : ℕ → ℕ → ℕ
neg rd rm = bit_or (bit_or 0xCB00_03E0 (shl32 (bit_and rm 0x1F) 16)) (bit_and rd 0x1F)

unfoldable pub mvn : ℕ → ℕ → ℕ
mvn rd rm = bit_or (bit_or 0xAA20_03E0 (shl32 (bit_and rm 0x1F) 16)) (bit_and rd 0x1F)
