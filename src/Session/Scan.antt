-- ===== src/Session/Scan.antt =====
-- src/session.rs, `scan_word`, `scan_span` and `scan_escaped`: the words and strings of the source text. A
-- text is the list of its bytes, and the cursor is returned. The text is valid UTF-8 and is cut at ASCII
-- characters, so `from_utf8` of a part succeeds. A loop runs on fuel, one round for each byte of the text.
pub mod Escapes
use mf.Prelude.{
  ℕ, zero, suc, ◌+◌, ◌-◌, ◌*◌, ◌==◌, leb, ltb, ◌&&◌, ◌||◌, not, Bool, true, false, List, [], ◌∷◌,
  ◌++◌, length, get_elem?, take, drop, Option, none, some, if◌then◌else◌,
}

-- Tab, newline, form feed, carriage return and space.
abbrev pub is_ascii_whitespace : ℕ → Bool
is_ascii_whitespace c = c == 32 || c == 9 || c == 10 || c == 12 || c == 13

-- The first place from `at_pos` on whose byte does not pass, or the end.
unfoldable pub skip_while : (ℕ → Bool) → ℕ → List ℕ → ℕ → ℕ
skip_while test zero b at_pos = at_pos
skip_while test (suc fuel) b at_pos = elim (get_elem? b at_pos) [
  | none ↦ at_pos
  | some c ↦ elim (test c) [ false ↦ at_pos | true ↦ skip_while test fuel b (at_pos + 1) ]
]

unfoldable pub scan_word : List ℕ → ℕ → Option (List ℕ) × ℕ
unfolding skip_while
scan_word b at_pos =
    let start = skip_while is_ascii_whitespace (length b) b at_pos in
    if leb (length b) start
    then (none, start)
    else (let end = skip_while (λ c. not (is_ascii_whitespace c)) (length b) b start in
        (some (take (end - start) (drop start b)), end))

-- One leading space is skipped.
unfoldable pub skip_space : List ℕ → ℕ → ℕ
skip_space b at_pos = elim (get_elem? b at_pos) [
  | none ↦ at_pos
  | some c ↦ if c == 32 then at_pos + 1 else at_pos
]

unfoldable pub scan_span : List ℕ → ℕ → ℕ → Option (List ℕ) × ℕ
unfolding skip_while skip_space
scan_span b at_pos delim =
    let start = skip_space b at_pos in
    let end = skip_while (λ c. not (c == delim)) (length b) b start in
    if leb (length b) end then (none, end) else (some (take (end - start) (drop start b)), end + 1)

unfoldable pub hex : ℕ → Option ℕ
hex d =
    if leb 48 d && leb d 57
    then some (d - 48)
    else if leb 97 d && leb d 102
    then some (d - 97 + 10)
    else if leb 65 d && leb d 70
    then some (d - 65 + 10)
    else none

-- The bytes of an escape that takes one character.
unfoldable pub escape : ℕ → List ℕ
escape e =
    if e == 97
    then 7 ∷ []
    else if e == 98
    then 8 ∷ []
    else if e == 101
    then 27 ∷ []
    else if e == 102
    then 12 ∷ []
    else if e == 108
    then 10 ∷ []
    else if e == 109
    then 13 ∷ 10 ∷ []
    else if e == 110
    then 10 ∷ []
    else if e == 113 || e == 34
    then 34 ∷ []
    else if e == 114
    then 13 ∷ []
    else if e == 116
    then 9 ∷ []
    else if e == 118
    then 11 ∷ []
    else if e == 122 || e == 48
    then 0 ∷ []
    else if e == 92
    then 92 ∷ []
    else e ∷ []

-- The two digits behind an `x` at `at_pos`.
unfoldable pub hex_pair : List ℕ → ℕ → Option ℕ
unfolding hex
hex_pair b at_pos = elim (get_elem? b (at_pos + 1)) [
  | none ↦ none
  | some d1 ↦ elim (hex d1) [
    | none ↦ none
    | some h1 ↦ elim (get_elem? b (at_pos + 2)) [
      | none ↦ none
      | some d2 ↦ elim (hex d2) [ none ↦ none | some h2 ↦ some (h1 * 16 + h2) ]
    ]
  ]
]

-- The bytes of the escape at `at_pos`, and the place behind it.
unfoldable pub escape_at : List ℕ → ℕ → Option (List ℕ × ℕ)
unfolding escape hex_pair
escape_at b at_pos = elim (get_elem? b at_pos) [
  | none ↦ none
  | some e ↦
      if e == 120 || e == 88
      then elim (hex_pair b at_pos) [ none ↦ none | some h ↦ some (h ∷ [], at_pos + 3) ]
      else some (escape e, at_pos + 1)
]

-- After a malformed escape the cursor stands behind its backslash.
unfoldable pub escaped_loop : ℕ → List ℕ → ℕ → List ℕ → Option (List ℕ) × ℕ
unfolding escape_at
escaped_loop zero b at_pos out = (none, at_pos)
escaped_loop (suc fuel) b at_pos out = elim (get_elem? b at_pos) [
  | none ↦ (none, at_pos)
  | some c ↦ elim (c == 34) [
    | true ↦ (some out, at_pos + 1)
    | false ↦ elim (c == 92) [
      | false ↦ escaped_loop fuel b (at_pos + 1) (out ++ (c ∷ []))
      | true ↦ elim (escape_at b (at_pos + 1)) [
        | none ↦ (none, at_pos + 1)
        | some (bytes, after) ↦ escaped_loop fuel b after (out ++ bytes)
      ]
    ]
  ]
]

unfoldable pub scan_escaped : List ℕ → ℕ → Option (List ℕ) × ℕ
unfolding escaped_loop skip_space
scan_escaped b at_pos = escaped_loop (length b + 1) b (skip_space b at_pos) []
