-- ===== src/Aenc/Branches.antt =====
-- What the processor reads in the branches that src/aenc.rs patches.
use mf.Prelude.{
  ℕ, ◌+◌, ◌-◌, ◌*◌, ◌/◌, ◌%◌, ◌<◌, ◌≤◌, ◌≡◌, refl, arith, List, some, if◌then◌else◌, ltb, leb,
  bit_and, bit_or, get_elem?, set, Bool-cases, inl, inr, leb→le, leb→lt, lt→ltb, le→ltb,
}
use mf.Prelude.Int.{ℤ, pos, negsuc, sub_ℕ}
use mf.Word.Fields.{or_disjoint, and_mask4, and_mask5, and_mask19, and_mask26}
use mf.Aenc.Fields.{shl32, as_u32}
use mf.Aenc.Transfer.{b, bcond, cbz}
use mf.Aenc.Emit.{patch_bcond, patch_cbz, patch_b, scratch}

-- A field in two's complement whose sign bit has the weight `half`.
abbrev pub signed_field : ℕ → ℕ → ℤ
signed_field half v = if ltb v half then pos v else negsuc (half + half - 1 - v)

-- The offset of `cbz` and `b.cond`: 19 bits above the low five.
abbrev pub branch_offset : ℕ → ℤ
branch_offset word = signed_field 262144 (word / 32 % 524288)

-- The offset of `b`: the low 26 bits.
abbrev pub jump_offset : ℕ → ℤ
jump_offset word = signed_field 33554432 (word % 67108864)

-- The remainder of a distance within reach reads back as that distance.
signed19-sub_ℕ :
    (target at_pos : ℕ)
    → target < at_pos + 262144
    → at_pos ≤ target + 262144
    → signed_field 262144 (as_u32 (sub_ℕ target at_pos) % 524288) ≡ sub_ℕ target at_pos
signed19-sub_ℕ target at_pos h k = elim (Bool-cases (leb at_pos target)) [
  | inl t ↦
      let fw = leb→le at_pos target t in
      let e : (target - at_pos) % 4294967296 % 524288 ≡ target - at_pos = omega arith in
      rw (t, e, lt→ltb (target - at_pos) 262144 (omega arith)) refl
  | inr f ↦
      let bw = leb→lt at_pos target f in
      let d = at_pos - target - 1 in
      let e : (4294967296 - 1 - d % 4294967296) % 524288 ≡ 524287 - d = omega arith in
      let g : 262144 + 262144 - 1 - (524287 - d) ≡ d = omega arith in
      rw (f, e, le→ltb (524287 - d) 262144 (omega arith), g) refl
]

signed26-sub_ℕ :
    (target at_pos : ℕ)
    → target < at_pos + 33554432
    → at_pos ≤ target + 33554432
    → signed_field 33554432 (as_u32 (sub_ℕ target at_pos) % 67108864) ≡ sub_ℕ target at_pos
signed26-sub_ℕ target at_pos h k = elim (Bool-cases (leb at_pos target)) [
  | inl t ↦
      let fw = leb→le at_pos target t in
      let e : (target - at_pos) % 4294967296 % 67108864 ≡ target - at_pos = omega arith in
      rw (t, e, lt→ltb (target - at_pos) 33554432 (omega arith)) refl
  | inr f ↦
      let bw = leb→lt at_pos target f in
      let d = at_pos - target - 1 in
      let e : (4294967296 - 1 - d % 4294967296) % 67108864 ≡ 67108863 - d = omega arith in
      let g : 33554432 + 33554432 - 1 - (67108863 - d) ≡ d = omega arith in
      rw (f, e, le→ltb (67108863 - d) 33554432 (omega arith), g) refl
]

-- The fields of a word with a 19-bit offset do not meet.
offset_fields :
    (base off low : ℕ)
    → off < 524288
    → low < 32
    → bit_or (bit_or (base * 16777216) (shl32 off 5)) low ≡ base * 16777216 + off * 32 + low
offset_fields base off low h k =
    let s : shl32 off 5 ≡ off * 32 = omega arith in
    let p : bit_or (base * 16777216) (off * 32) ≡ base * 16777216 + off * 32 =
      or_disjoint 24 base (off * 32) (omega arith) in
    let e : (base * 524288 + off) * 32 ≡ base * 16777216 + off * 32 = omega arith in
    let q : bit_or (base * 16777216 + off * 32) low ≡ base * 16777216 + off * 32 + low =
      rw (← e) (or_disjoint 5 (base * 524288 + off) low (omega arith)) in
    rw (s, p, q) refl

pub bcond_fields :
    (cond : ℕ) (off : ℤ)
    → (bcond cond off / 16777216 ≡ 0x54)
      × (bcond cond off % 32 ≡ cond % 16)
      × (bcond cond off / 32 % 524288 ≡ as_u32 off % 524288)
unfolding bcond
bcond_fields cond off =
    let e = offset_fields 0x54 (as_u32 off % 524288) (cond % 16) (omega arith) (omega arith) in
    rw (and_mask19 (as_u32 off), and_mask4 cond, e) (omega arith, omega arith, omega arith)

pub cbz_fields :
    (rt : ℕ) (off : ℤ)
    → (cbz rt off / 16777216 ≡ 0xB4)
      × (cbz rt off % 32 ≡ rt % 32)
      × (cbz rt off / 32 % 524288 ≡ as_u32 off % 524288)
unfolding cbz
cbz_fields rt off =
    let e = offset_fields 0xB4 (as_u32 off % 524288) (rt % 32) (omega arith) (omega arith) in
    rw (and_mask19 (as_u32 off), and_mask5 rt, e) (omega arith, omega arith, omega arith)

pub b_fields : (off : ℤ) → (b off / 67108864 ≡ 5) × (b off % 67108864 ≡ as_u32 off % 67108864)
unfolding b
b_fields off =
    let e = or_disjoint 26 5 (as_u32 off % 67108864) (omega arith) in
    rw (and_mask26 (as_u32 off), e) (omega arith, omega arith)

-- `patch_bcond` at a place in `out` writes one word: a conditional branch with the condition that
-- stood there and the offset to the target. The target is at most 2 ^ 18 words back and less than
-- that ahead.
pub patch_bcond_lem :
    (out : List ℕ) (at_pos target old : ℕ)
    → get_elem? out at_pos ≡ some old
    → target < at_pos + 262144
    → at_pos ≤ target + 262144
    → (word : ℕ) × (patch_bcond out at_pos target ≡ some (set out at_pos word))
      × (word / 16777216 ≡ 0x54)
      × (word % 32 ≡ old % 16)
      × (branch_offset word ≡ sub_ℕ target at_pos)
unfolding patch_bcond
patch_bcond_lem out at_pos target old g h k =
    let off = sub_ℕ target at_pos in
    let (a, c, o) = bcond_fields (bit_and old 0xF) off in
    (
      bcond (bit_and old 0xF) off,
      rw (g, patch_bcond) refl,
      a,
      omega (arith, c, and_mask4 old),
      rw o (signed19-sub_ℕ target at_pos h k),
    )

-- `patch_cbz` at a place in `out` writes one word: a `cbz` of the scratch register with the offset
-- to the target. The target is at most 2 ^ 18 words back and less than that ahead.
pub patch_cbz_lem :
    (out : List ℕ) (at_pos target old : ℕ)
    → get_elem? out at_pos ≡ some old
    → target < at_pos + 262144
    → at_pos ≤ target + 262144
    → (word : ℕ) × (patch_cbz out at_pos target ≡ some (set out at_pos word))
      × (word / 16777216 ≡ 0xB4)
      × (word % 32 ≡ scratch)
      × (branch_offset word ≡ sub_ℕ target at_pos)
unfolding patch_cbz
patch_cbz_lem out at_pos target old g h k =
    let off = sub_ℕ target at_pos in
    let (a, c, o) = cbz_fields scratch off in
    (cbz scratch off, rw (g, patch_cbz) refl, a, c, rw o (signed19-sub_ℕ target at_pos h k))

-- `patch_b` at a place in `out` writes one word: a `b` with the offset to the target. The target is
-- at most 2 ^ 25 words back and less than that ahead.
pub patch_b_lem :
    (out : List ℕ) (at_pos target old : ℕ)
    → get_elem? out at_pos ≡ some old
    → target < at_pos + 33554432
    → at_pos ≤ target + 33554432
    → (word : ℕ) × (patch_b out at_pos target ≡ some (set out at_pos word))
      × (word / 67108864 ≡ 5)
      × (jump_offset word ≡ sub_ℕ target at_pos)
unfolding patch_b
patch_b_lem out at_pos target old g h k =
    let off = sub_ℕ target at_pos in
    let (a, o) = b_fields off in
    (b off, rw (g, patch_b) refl, a, rw o (signed26-sub_ℕ target at_pos h k))
