-- ===== src/Rope/Utf8.antt =====
-- The UTF-8 conversions of src/rope_buffer.rs. A byte is a number below 256. The loop over the byte index
-- is a step on the bytes that are left, which gives a code point and how far to advance; its fuel is the
-- number of bytes, and each step advances by one at least.
pub mod Fuel
pub mod Masks
pub mod Decode
pub mod RoundTrip
use mf.Prelude.{
  ℕ, zero, suc, ◌+◌, ◌-◌, ◌*◌, ◌/◌, ◌%◌, ◌≤◌, ◌≡◌, refl, arith, Bool, ◌==◌, ◌&&◌, ◌||◌, ltb, leb,
  if◌then◌else◌, List, [], ◌∷◌, ◌++◌, Option, none, some, length, drop, bit_and, bit_or,
}
use mf.Aenc.Fields.{shl32}
use mf.Rope.Buffer.{RopeBuffer, from_slice, insert, to_slice}

abbrev pub replacement : ℕ
replacement = 0xFFFD

-- `b & 0xC0 == 0x80`
abbrev pub is_continuation : ℕ → Bool
is_continuation byte = bit_and byte 0xC0 == 0x80

unfoldable pub newline_step : List ℕ → ℕ × ℕ
newline_step [] = (0x0A, 1)
newline_step (next ∷ bytes) = (0x0A, (if next == 0x0A then 2 else 1))

unfoldable pub two_byte : ℕ → List ℕ → ℕ × ℕ
two_byte byte (b1 ∷ bytes) =
    if is_continuation b1
    then (bit_or (shl32 (bit_and byte 0x1F) 6) (bit_and b1 0x3F), 2)
    else (replacement, 1)
two_byte byte [] = (replacement, 1)

unfoldable pub three_byte : ℕ → List ℕ → ℕ × ℕ
three_byte byte (b1 ∷ b2 ∷ bytes) =
    if is_continuation b1 && is_continuation b2
    then (
      bit_or (bit_or (shl32 (bit_and byte 0x0F) 12) (shl32 (bit_and b1 0x3F) 6)) (bit_and b2 0x3F),
      3,
    )
    else (replacement, 1)
three_byte byte bytes = (replacement, 1)

unfoldable pub four_byte : ℕ → List ℕ → ℕ × ℕ
four_byte byte (b1 ∷ b2 ∷ b3 ∷ bytes) =
    if is_continuation b1 && is_continuation b2 && is_continuation b3
    then (
      bit_or
          (bit_or (bit_or (shl32 (bit_and byte 0x07) 18) (shl32 (bit_and b1 0x3F) 12))
            (shl32 (bit_and b2 0x3F) 6))
          (bit_and b3 0x3F),
      4,
    )
    else (replacement, 1)
four_byte byte bytes = (replacement, 1)

-- The body of the `while`, at a byte and those behind it.
unfoldable pub decode_step : ℕ → List ℕ → ℕ × ℕ
unfolding newline_step two_byte three_byte four_byte
decode_step byte bytes =
    if byte == 0x0D
    then newline_step bytes
    else if ltb byte 0x80
    then (byte, 1)
    else if bit_and byte 0xE0 == 0xC0
    then two_byte byte bytes
    else if bit_and byte 0xF0 == 0xE0
    then three_byte byte bytes
    else if bit_and byte 0xF8 == 0xF0
    then four_byte byte bytes
    else (replacement, 1)

unfoldable pub decode_loop : ℕ → List ℕ → List ℕ
unfolding decode_step
decode_loop zero bytes = []
decode_loop (suc fuel) [] = []
decode_loop (suc fuel) (byte ∷ bytes) =
    let (cp, advance) = decode_step byte bytes in
    cp ∷ decode_loop fuel (drop advance (byte ∷ bytes))

-- The byte order mark at the start.
unfoldable pub skip_bom : List ℕ → List ℕ
skip_bom (b0 ∷ b1 ∷ b2 ∷ bytes) =
    if b0 == 0xEF && b1 == 0xBB && b2 == 0xBF then bytes else b0 ∷ b1 ∷ b2 ∷ bytes
skip_bom bytes = bytes

unfoldable pub utf8_to_codepoints : List ℕ → List ℕ
unfolding skip_bom decode_loop
utf8_to_codepoints utf8 = let bytes = skip_bom utf8 in decode_loop (length bytes) bytes

-- `char::from_u32`
unfoldable pub char_from_u32 : ℕ → Option ℕ
char_from_u32 cp = if (leb 0xD800 cp && ltb cp 0xE000) || ltb 0x10FFFF cp then none else some cp

-- `String::push`
unfoldable pub encode_char : ℕ → List ℕ
encode_char c =
    if ltb c 0x80
    then c ∷ []
    else if ltb c 0x800
    then (0xC0 + c / 64) ∷ (0x80 + c % 64) ∷ []
    else if ltb c 0x10000
    then (0xE0 + c / 4096) ∷ (0x80 + c / 64 % 64) ∷ (0x80 + c % 64) ∷ []
    else (0xF0 + c / 262144) ∷ (0x80 + c / 4096 % 64) ∷ (0x80 + c / 64 % 64) ∷ (0x80 + c % 64) ∷ []

-- The code point itself where it is a character.
unfoldable pub to_char : ℕ → ℕ
unfolding char_from_u32
to_char cp = elim (char_from_u32 cp) [ none ↦ replacement | some c ↦ c ]

unfoldable pub codepoints_to_utf8 : List ℕ → List ℕ
unfolding to_char
codepoints_to_utf8 [] = []
codepoints_to_utf8 (cp ∷ cps) = to_char cp ∷ codepoints_to_utf8 cps

-- `String::as_bytes`
unfoldable pub as_bytes : List ℕ → List ℕ
unfolding encode_char
as_bytes [] = []
as_bytes (c ∷ s) = encode_char c ++ as_bytes s

unfoldable pub from_utf8 : List ℕ → RopeBuffer
unfolding utf8_to_codepoints
from_utf8 utf8 = from_slice (utf8_to_codepoints utf8)

unfoldable pub insert_utf8 : RopeBuffer → ℕ → List ℕ → RopeBuffer
unfolding utf8_to_codepoints
insert_utf8 b at_pos utf8 = insert b at_pos (utf8_to_codepoints utf8)

unfoldable pub to_utf8 : RopeBuffer → List ℕ
unfolding codepoints_to_utf8
to_utf8 b = codepoints_to_utf8 (to_slice b)
