-- ===== src/Aenc/Emit.antt =====
-- src/aenc.rs: the sequences that the colon compiler puts out, and the patching of branches. `out` is
-- the vector of instruction words; a branch counts words from its own place. An index outside `out`
-- panics in the source and gives `none` here. An index fits an i32, so `as i32` does not change it.
use mf.Prelude.{
  ℕ, ◌*◌, ◌/◌, ◌%◌, ◌^◌, List, [], ◌∷◌, ◌++◌, Option, some, none, length, get_elem?, set, bit_and,
}
use mf.Prelude.Int.{ℤ, pos, negsuc, sub_ℕ}
use mf.Aenc.Conditions.{eq, al}
use mf.Aenc.Transfer.{
  movz, movk, blr, br_reg, ret, str_pre, ldr_post, mov_reg, ldr0, add_imm, cbz, b, bcond, ldr_off,
  str_off, tbz,
}
use mf.Aenc.Arithmetic.{add_reg, sub_reg, eor_reg, cmp_reg}

-- x0
abbrev pub tos : ℕ
tos = 0

-- x19
abbrev pub dsp : ℕ
dsp = 19

-- x28
abbrev pub rp : ℕ
rp = 28

-- x16
abbrev pub call_tmp : ℕ
call_tmp = 16

-- x30
abbrev pub lr : ℕ
lr = 30

-- x9
abbrev pub scratch : ℕ
scratch = 9

abbrev pub cell : ℕ
cell = 8

-- `-CELL`
abbrev pub minus_cell : ℤ
minus_cell = negsuc 7

-- The four chunks of 16 bits, the lowest one first.
unfoldable pub load_imm64 : ℕ → ℕ → List ℕ → List ℕ
load_imm64 rd val out =
    out
    ++ (movz rd (val % 2 ^ 16) 0
        ∷ movk rd (val / 2 ^ 16 % 2 ^ 16) 16
        ∷ movk rd (val / 2 ^ 32 % 2 ^ 16) 32
        ∷ movk rd (val / 2 ^ 48 % 2 ^ 16) 48
        ∷ [])

unfoldable pub emit_nest : List ℕ → List ℕ
emit_nest out = out ++ (str_pre lr rp minus_cell ∷ [])

unfoldable pub emit_unnest : List ℕ → List ℕ
emit_unnest out = out ++ (ldr_post lr rp (pos cell) ∷ [])

unfoldable pub emit_unnest_ret : List ℕ → List ℕ
unfolding emit_unnest
emit_unnest_ret out = emit_unnest out ++ (ret ∷ [])

unfoldable pub emit_call : ℕ → List ℕ → List ℕ
unfolding load_imm64
emit_call xt out = load_imm64 call_tmp xt out ++ (blr call_tmp ∷ [])

unfoldable pub emit_tail_call : ℕ → List ℕ → List ℕ
unfolding load_imm64
emit_tail_call xt out = load_imm64 call_tmp xt out ++ (br_reg call_tmp ∷ [])

unfoldable pub emit_lit : ℕ → List ℕ → List ℕ
unfolding load_imm64
emit_lit n out = load_imm64 tos n (out ++ (str_pre tos dsp minus_cell ∷ []))

-- `do`: the index and the limit go from the data stack to a frame on the return stack.
unfoldable pub emit_do : List ℕ → List ℕ
emit_do out =
    out
    ++ (ldr0 9 dsp
        ∷ str_pre 9 rp minus_cell
        ∷ str_pre tos rp minus_cell
        ∷ ldr_off tos dsp cell
        ∷ add_imm dsp dsp (cell * 2)
        ∷ [])

-- `loop`: back to `top` unless the index crossed the limit.
unfoldable pub emit_loop : List ℕ → ℕ → List ℕ
emit_loop out top =
    let body =
      out
      ++ (ldr0 9 rp
          ∷ ldr_off 10 rp cell
          ∷ sub_reg 11 9 10
          ∷ add_imm 9 9 1
          ∷ str_off 9 rp 0
          ∷ sub_reg 12 9 10
          ∷ eor_reg 11 11 12
          ∷ []) in
    body ++ (tbz 11 63 (sub_ℕ top (length body)) ∷ add_imm rp rp 16 ∷ [])

-- `+loop`: the same, by the number on the data stack.
unfoldable pub emit_plus_loop : List ℕ → ℕ → List ℕ
emit_plus_loop out top =
    let body =
      out
      ++ (ldr0 9 rp
          ∷ ldr_off 10 rp cell
          ∷ sub_reg 11 9 10
          ∷ add_reg 9 9 tos
          ∷ str_off 9 rp 0
          ∷ sub_reg 12 9 10
          ∷ eor_reg 11 11 12
          ∷ ldr0 tos dsp
          ∷ add_imm dsp dsp cell
          ∷ []) in
    body ++ (tbz 11 63 (sub_ℕ top (length body)) ∷ add_imm rp rp 16 ∷ [])

-- `?do`: the code, and the place of the branch to patch.
unfoldable pub emit_qdo : List ℕ → List ℕ × ℕ
unfolding emit_do
emit_qdo out =
    let body = emit_do out ++ (ldr0 9 rp ∷ ldr_off 10 rp cell ∷ cmp_reg 9 10 ∷ []) in
    (body ++ (bcond eq (pos 0) ∷ []), length body)

unfoldable pub emit_leave : List ℕ → List ℕ × ℕ
emit_leave out = (out ++ (bcond al (pos 0) ∷ []), length out)

unfoldable pub emit_unloop : List ℕ → List ℕ
emit_unloop out = out ++ (add_imm rp rp 16 ∷ [])

unfoldable pub emit_flag_test_cbz : List ℕ → List ℕ × ℕ
emit_flag_test_cbz out =
    let body = out ++ (mov_reg scratch tos ∷ ldr0 tos dsp ∷ add_imm dsp dsp cell ∷ []) in
    (body ++ (cbz scratch (pos 0) ∷ []), length body)

unfoldable pub patch_bcond : List ℕ → ℕ → ℕ → Option (List ℕ)
patch_bcond out at_pos target = elim (get_elem? out at_pos) [
  | none ↦ none
  | some old ↦ some (set out at_pos (bcond (bit_and old 0xF) (sub_ℕ target at_pos)))
]

unfoldable pub patch_cbz : List ℕ → ℕ → ℕ → Option (List ℕ)
patch_cbz out at_pos target = elim (get_elem? out at_pos) [
  | none ↦ none
  | some old ↦ some (set out at_pos (cbz scratch (sub_ℕ target at_pos)))
]

unfoldable pub patch_b : List ℕ → ℕ → ℕ → Option (List ℕ)
patch_b out at_pos target = elim (get_elem? out at_pos) [
  | none ↦ none
  | some old ↦ some (set out at_pos (b (sub_ℕ target at_pos)))
]
