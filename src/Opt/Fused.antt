-- ===== src/Opt/Fused.antt =====
-- src/opt.rs, `fused_cmp`: a comparison before a conditional branch, without a flag.
use mf.Prelude.{ℕ, List, [], ◌∷◌, ◌++◌}
use mf.Prelude.Int.{pos}
use mf.Aenc.Conditions.{eq, ne, lo, hi, ge, lt, gt, le}
use mf.Aenc.Transfer.{ldr_post}
use mf.Aenc.Arithmetic.{cmp_reg, cmp_imm}
use mf.Aenc.Emit.{tos, dsp}
use mf.Opt.Tok.{Cmp}

-- A test of the top cell: the cell is dropped after the comparison.
abbrev pub zero_words : List ℕ
zero_words = cmp_imm tos 0 ∷ ldr_post tos dsp (pos 8) ∷ []

-- The deeper cell comes to x9 before the comparison.
abbrev pub pair_words : ℕ → ℕ → List ℕ
pair_words rn rm = ldr_post 9 dsp (pos 8) ∷ cmp_reg rn rm ∷ ldr_post tos dsp (pos 8) ∷ []

-- The body, and the condition that holds where the comparison does.
unfoldable pub fused_cmp : Cmp → List ℕ → List ℕ × ℕ
fused_cmp Cmp.zeq out = (out ++ zero_words, eq)
fused_cmp Cmp.zne out = (out ++ zero_words, ne)
fused_cmp Cmp.zlt out = (out ++ zero_words, lt)
fused_cmp Cmp.zgt out = (out ++ zero_words, gt)
fused_cmp Cmp.eq out = (out ++ pair_words tos 9, eq)
fused_cmp Cmp.ne out = (out ++ pair_words tos 9, ne)
fused_cmp Cmp.lt out = (out ++ pair_words 9 tos, lt)
fused_cmp Cmp.gt out = (out ++ pair_words 9 tos, gt)
fused_cmp Cmp.le out = (out ++ pair_words 9 tos, le)
fused_cmp Cmp.ge out = (out ++ pair_words 9 tos, ge)
fused_cmp Cmp.ult out = (out ++ pair_words 9 tos, lo)
fused_cmp Cmp.ugt out = (out ++ pair_words 9 tos, hi)
