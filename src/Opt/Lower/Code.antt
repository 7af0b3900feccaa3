-- ===== src/Opt/Lower/Code.antt =====
-- The instructions that the lowering of src/opt.rs puts out.
use mf.Prelude.{ℕ, List, [], ◌∷◌, ◌++◌}
use mf.Opt.Tok.{Bin, Sh}
use mf.Opt.Eval.{sh_code}
use mf.Aenc.Arithmetic
use mf.Aenc.Transfer
use mf.Aenc.Emit

pub data Instr : Type 0 where
  mov_reg : ℕ → ℕ → Instr
  load_imm64 : ℕ → ℕ → Instr
  -- The operation, then destination and operands.
  bin : Bin → ℕ → ℕ → ℕ → Instr
  bin_shifted : Bin → Sh → ℕ → ℕ → ℕ → ℕ → Instr
  shift_reg : Sh → ℕ → ℕ → ℕ → Instr
  shift_imm : Sh → ℕ → ℕ → ℕ → Instr
  add_imm sub_imm : ℕ → ℕ → ℕ → Instr
  cmp_reg cmp_imm csetm : ℕ → ℕ → Instr
  csel : ℕ → ℕ → ℕ → ℕ → Instr
  ldr0 ldrb0 strb0 : ℕ → ℕ → Instr
  ldr_off str_off : ℕ → ℕ → ℕ → Instr

unfoldable pub bin_word : Bin → ℕ → ℕ → ℕ → ℕ
bin_word Bin.add d a b = Arithmetic.add_reg d a b
bin_word Bin.sub d a b = Arithmetic.sub_reg d a b
bin_word Bin.mul d a b = Arithmetic.mul d a b
bin_word Bin.and d a b = Arithmetic.and_reg d a b
bin_word Bin.or d a b = Arithmetic.orr_reg d a b
bin_word Bin.xor d a b = Arithmetic.eor_reg d a b

-- `dup_shift_bin` is never asked for a `mul`, where the source has `unreachable!`.
unfoldable pub shifted_word : Bin → ℕ → ℕ → ℕ → ℕ → ℕ → ℕ
shifted_word Bin.add d a b sc k = Arithmetic.add_shift d a b sc k
shifted_word Bin.sub d a b sc k = Arithmetic.sub_shift d a b sc k
shifted_word Bin.mul d a b sc k = 0
shifted_word Bin.and d a b sc k = Arithmetic.and_shift d a b sc k
shifted_word Bin.or d a b sc k = Arithmetic.orr_shift d a b sc k
shifted_word Bin.xor d a b sc k = Arithmetic.eor_shift d a b sc k

unfoldable pub shift_word : Sh → ℕ → ℕ → ℕ → ℕ
shift_word Sh.lsl d a b = Arithmetic.lsl_reg d a b
shift_word Sh.lsr d a b = Arithmetic.lsr_reg d a b
shift_word Sh.asr d a b = Arithmetic.asr_reg d a b

unfoldable pub shift_imm_word : Sh → ℕ → ℕ → ℕ → ℕ
shift_imm_word Sh.lsl d a k = Arithmetic.lsl_imm d a k
shift_imm_word Sh.lsr d a k = Arithmetic.lsr_imm d a k
shift_imm_word Sh.asr d a k = Arithmetic.asr_imm d a k

unfoldable pub words : Instr → List ℕ
unfolding bin_word shifted_word shift_word shift_imm_word sh_code
words (Instr.mov_reg d a) = Transfer.mov_reg d a ∷ []
words (Instr.load_imm64 d n) = Emit.load_imm64 d n []
words (Instr.bin op d a b) = bin_word op d a b ∷ []
words (Instr.bin_shifted op sh d a b k) = shifted_word op d a b (sh_code sh) k ∷ []
words (Instr.shift_reg sh d a b) = shift_word sh d a b ∷ []
words (Instr.shift_imm sh d a k) = shift_imm_word sh d a k ∷ []
words (Instr.add_imm d a k) = Transfer.add_imm d a k ∷ []
words (Instr.sub_imm d a k) = Arithmetic.sub_imm d a k ∷ []
words (Instr.cmp_reg a b) = Arithmetic.cmp_reg a b ∷ []
words (Instr.cmp_imm a k) = Arithmetic.cmp_imm a k ∷ []
words (Instr.csetm d c) = Arithmetic.csetm d c ∷ []
words (Instr.csel d a b c) = Arithmetic.csel d a b c ∷ []
words (Instr.ldr0 d a) = Transfer.ldr0 d a ∷ []
words (Instr.ldrb0 d a) = Arithmetic.ldrb0 d a ∷ []
words (Instr.strb0 s a) = Arithmetic.strb0 s a ∷ []
words (Instr.ldr_off d a off) = Transfer.ldr_off d a off ∷ []
words (Instr.str_off s a off) = Transfer.str_off s a off ∷ []

-- The words of code that stands with its last instruction first.
unfoldable pub all_words : List Instr → List ℕ
unfolding words
all_words [] = []
all_words (i ∷ out) = all_words out ++ words i
