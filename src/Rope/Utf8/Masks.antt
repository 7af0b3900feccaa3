-- ===== src/Rope/Utf8/Masks.antt =====
-- The masks of the decoder on a byte, as quotients and remainders.
use mf.Prelude.{
  ℕ, zero, suc, ◌+◌, ◌*◌, ◌/◌, ◌<◌, ◌==◌, ◌&&◌, ◌≡◌, refl, arith, Bool, true, bit_and, bit_or,
  ==→eq,
}
use mf.Word.Fields.{and_mask_split, or_disjoint}
use mf.Aenc.Fields.{shl32}
use mf.Rope.Utf8.{is_continuation}

-- The mask gives the multiple of `step` below each number before `top`.
abbrev rounds_down : (mask step top : ℕ) → Bool
rounds_down mask step zero = true
rounds_down mask step (suc top) = rounds_down mask step top && bit_and top mask == top / step * step

mask-rounds_down :
    (mask step top : ℕ) (byte : ℕ)
    → rounds_down mask step top ≡ true
    → byte < top
    → bit_and byte mask ≡ byte / step * step
mask-rounds_down mask step zero byte table small = absurd (omega arith)
mask-rounds_down mask step (suc top) byte table small =
    ground
      (arith, mask-rounds_down mask step top byte, ==→eq (bit_and byte mask) (byte / step * step))

pub mask_c0 : (x : ℕ) → x < 256 → bit_and x 0xC0 ≡ x / 64 * 64
mask_c0 x h = mask-rounds_down 0xC0 64 256 x refl h

pub mask_e0 : (x : ℕ) → x < 256 → bit_and x 0xE0 ≡ x / 32 * 32
mask_e0 x h = mask-rounds_down 0xE0 32 256 x refl h

pub mask_f0 : (x : ℕ) → x < 256 → bit_and x 0xF0 ≡ x / 16 * 16
mask_f0 x h = mask-rounds_down 0xF0 16 256 x refl h

pub mask_f8 : (x : ℕ) → x < 256 → bit_and x 0xF8 ≡ x / 8 * 8
mask_f8 x h = mask-rounds_down 0xF8 8 256 x refl h

-- A byte 10xxxxxx.
pub continuation_lem : (r : ℕ) → r < 64 → is_continuation (0x80 + r) ≡ true
continuation_lem r h =
    let e : (0x80 + r) / 64 * 64 ≡ 0x80 = omega arith in
    rw (mask_c0 (0x80 + r) (omega arith), e) refl

pub low6 : (q r : ℕ) → r < 64 → bit_and (q * 64 + r) 0x3F ≡ r
low6 q r h = and_mask_split 6 q r h

pub low_continuation : (r : ℕ) → r < 64 → bit_and (0x80 + r) 0x3F ≡ r
low_continuation r h = low6 2 r h

pub low5 : (r : ℕ) → r < 32 → bit_and (0xC0 + r) 0x1F ≡ r
low5 r h = and_mask_split 5 6 r h

pub low4 : (r : ℕ) → r < 16 → bit_and (0xE0 + r) 0x0F ≡ r
low4 r h = and_mask_split 4 14 r h

pub low3 : (r : ℕ) → r < 8 → bit_and (0xF0 + r) 0x07 ≡ r
low3 r h = and_mask_split 3 30 r h

-- The fields of a code point of two, three and four bytes.
pub join2 : (a b : ℕ) → a < 32 → b < 64 → bit_or (shl32 a 6) b ≡ a * 64 + b
join2 a b h k = let e : shl32 a 6 ≡ a * 64 = omega arith in rw e (or_disjoint 6 a b k)

pub join3 :
    (a b c : ℕ)
    → a < 16
    → b < 64
    → c < 64
    → bit_or (bit_or (shl32 a 12) (shl32 b 6)) c ≡ a * 4096 + b * 64 + c
join3 a b c h k l =
    let e : shl32 a 12 ≡ a * 4096 = omega arith in
    let f : shl32 b 6 ≡ b * 64 = omega arith in
    let g : (a * 64 + b) * 64 ≡ a * 4096 + b * 64 = omega arith in
    rw (e, f, or_disjoint 12 a (b * 64) (omega arith), ← g) (or_disjoint 6 (a * 64 + b) c l)

pub join4 :
    (a b c d : ℕ)
    → a < 8
    → b < 64
    → c < 64
    → d < 64
    → bit_or (bit_or (bit_or (shl32 a 18) (shl32 b 12)) (shl32 c 6)) d
      ≡ a * 262144 + b * 4096 + c * 64 + d
join4 a b c d h k l m =
    let e : shl32 a 18 ≡ a * 262144 = omega arith in
    let f : shl32 b 12 ≡ b * 4096 = omega arith in
    let g : shl32 c 6 ≡ c * 64 = omega arith in
    let p : (a * 64 + b) * 4096 ≡ a * 262144 + b * 4096 = omega arith in
    let q : (a * 4096 + b * 64 + c) * 64 ≡ a * 262144 + b * 4096 + c * 64 = omega arith in
    rw
      (
        e,
        f,
        g,
        or_disjoint 18 a (b * 4096) (omega arith),
        ← p,
        or_disjoint 12 (a * 64 + b) (c * 64) (omega arith),
        p,
        ← q,
      )
      (or_disjoint 6 (a * 4096 + b * 64 + c) d m)
