-- ===== src/Syntax.antt =====
-- The Forth syntax colouring of the editor, src/fsyntax.rs: a line is split into spans with a tag. A
-- `String` is the list of its characters, and the position in the line is the list of those to come.
pub mod Spans
use mf.Prelude.{
  ℕ, zero, suc, ◌+◌, ◌==◌, leb, Bool, true, false, not, ◌&&◌, ◌||◌, List, [], ◌∷◌, ◌++◌, Option,
  none, some, length, if◌then◌else◌,
}
use mf.Prelude.Words.{codes, same_text, is_one_of, is_whitespace}

pub data Tag : Type 0 where
  normal comment str def control number core : Tag

unfoldable pub is_control : List ℕ → Bool
is_control w = is_one_of w (
    "if" ∷ "else" ∷ "then" ∷ "begin" ∷ "until" ∷ "while" ∷ "repeat" ∷ "do" ∷ "loop" ∷ "+loop"
    ∷ "?do" ∷ "leave" ∷ "again" ∷ "unloop" ∷ "case" ∷ "of" ∷ "endof" ∷ "endcase" ∷ "recurse"
    ∷ "exit" ∷ "does>" ∷ "[if]" ∷ "[else]" ∷ "[then]" ∷ "unless" ∷ [])

unfoldable pub is_core : List ℕ → Bool
is_core w = is_one_of w (
    "dup" ∷ "drop" ∷ "swap" ∷ "over" ∷ "nip" ∷ "rot" ∷ "-rot" ∷ "tuck" ∷ "?dup" ∷ "2dup" ∷ "2drop"
    ∷ "2swap" ∷ "+" ∷ "-" ∷ "*" ∷ "/" ∷ "mod" ∷ "/mod" ∷ "1+" ∷ "1-" ∷ "2*" ∷ "2/" ∷ "negate"
    ∷ "abs" ∷ "min" ∷ "max" ∷ "and" ∷ "or" ∷ "xor" ∷ "invert" ∷ "lshift" ∷ "rshift" ∷ "=" ∷ "<>"
    ∷ "<" ∷ ">" ∷ "<=" ∷ ">=" ∷ "u<" ∷ "0=" ∷ "0<" ∷ "0>" ∷ "@" ∷ "!" ∷ "+!" ∷ "c@" ∷ "c!" ∷ "."
    ∷ "cr" ∷ "emit" ∷ "type" ∷ "space" ∷ ".s" ∷ "f+" ∷ "f-" ∷ "f*" ∷ "f/" ∷ "f." ∷ "f@" ∷ "f!"
    ∷ "fdup" ∷ "fdrop" ∷ "fswap" ∷ "fsqrt" ∷ "fabs" ∷ "f<" ∷ ">r" ∷ "r>" ∷ "r@" ∷ "i" ∷ "j" ∷ "pick"
    ∷ "roll" ∷ "execute" ∷ "here" ∷ "allot" ∷ "," ∷ [])

abbrev pub all_of : (ℕ → Bool) → List ℕ → Bool
all_of p [] = true
all_of p (c ∷ s) = p c && all_of p s

abbrev pub any_of : (ℕ → Bool) → List ℕ → Bool
any_of p [] = false
any_of p (c ∷ s) = p c || any_of p s

abbrev pub is_empty : List ℕ → Bool
is_empty [] = true
is_empty (c ∷ s) = false

abbrev pub is_digit : ℕ → Bool
is_digit c = leb b'0' c && leb c b'9'

abbrev pub is_hex_digit : ℕ → Bool
is_hex_digit c = is_digit c || (leb b'a' c && leb c b'f') || (leb b'A' c && leb c b'F')

abbrev pub is_sign : ℕ → Bool
is_sign c = c == b'-' || c == b'+'

abbrev pub strip_sign : List ℕ → List ℕ
strip_sign [] = []
strip_sign (c ∷ s) = if is_sign c then s else c ∷ s

-- `s.strip_prefix("0x").or_else(|| s.strip_prefix('$'))`
abbrev pub hex_digits : List ℕ → Option (List ℕ)
hex_digits [] = none
hex_digits (c ∷ []) = if c == b'$' then some [] else none
hex_digits (c ∷ d ∷ s) =
    if c == b'0' && d == b'x' then some s else if c == b'$' then some (d ∷ s) else none

-- `s.strip_prefix('%')`
abbrev pub binary_digits : List ℕ → Option (List ℕ)
binary_digits [] = none
binary_digits (c ∷ s) = if c == b'%' then some s else none

-- `matches!(c, '.' | 'e' | 'E' | '-' | '+')`, or a digit.
abbrev pub is_floaty : ℕ → Bool
is_floaty c = is_digit c || c == b'.' || c == b'e' || c == b'E' || is_sign c

-- A decimal integer or a float.
abbrev pub is_decimal : List ℕ → Bool
is_decimal s =
    all_of is_digit s
    || (all_of is_floaty s
        && any_of is_digit s
        && any_of (λ c. c == b'.' || c == b'e' || c == b'E') s)

unfoldable pub is_number : List ℕ → Bool
is_number w =
    let s = strip_sign w in
    if is_empty s then false else elim (hex_digits s) [
      | some h ↦ not (is_empty h) && all_of is_hex_digit h
      | none ↦ elim (binary_digits s) [
        | some b ↦ not (is_empty b) && all_of (λ c. c == b'0' || c == b'1') b
        | none ↦ is_decimal s
      ]
    ]

unfoldable pub classify : List ℕ → Tag
unfolding is_control is_core is_number
classify w =
    if is_one_of w (":" ∷ ";" ∷ ":noname" ∷ [])
    then def
    else if is_control w
    then control
    else if is_number w
    then number
    else if is_core w
    then core
    else normal

-- The run of characters of a kind in front, and what follows it.
unfoldable pub run_of : (ℕ → Bool) → List ℕ → List ℕ × List ℕ
run_of p [] = ([], [])
run_of p (c ∷ s) = let (run, rest) = run_of p s in if p c then (c ∷ run, rest) else ([], c ∷ s)

-- What goes up to a character and includes it, or up to the end of the line, and what follows it.
unfoldable pub through : ℕ → List ℕ → List ℕ × List ℕ
through close [] = ([], [])
through close (c ∷ s) =
    let (run, rest) = through close s in if c == close then (c ∷ [], s) else (c ∷ run, rest)

-- The closure `push`.
abbrev pub push : List ℕ → Tag → List (List ℕ × Tag) → List (List ℕ × Tag)
push [] t spans = spans
push (c ∷ s) t spans = (c ∷ s, t) ∷ spans

-- What a word does to the spans: a comment to the end of the line, a part up to a character, or a word
-- of its own.
pub data Start : Type 0 where
  to_end plain : Start
  up_to : ℕ → Tag → Start

unfoldable pub start_of : List ℕ → Start
start_of word =
    if same_text word (codes "\\")
    then to_end
    else if same_text word (codes "(")
    then up_to b')' comment
    else if is_one_of word ("s\"" ∷ ".\"" ∷ "c\"" ∷ "abort\"" ∷ "s\\\"" ∷ [])
    then up_to b'"' str
    else if same_text word (codes ".(")
    then up_to b')' str
    else plain

-- The loop `while i < n`, with one round of fuel for each character.
unfoldable pub spans_of : ℕ → Bool → List ℕ → List (List ℕ × Tag)
unfolding run_of through start_of classify
spans_of zero name_next chars = []
spans_of (suc fuel) name_next [] = []
spans_of (suc fuel) name_next (c ∷ s) =
    let (blank, after_blank) = run_of is_whitespace (c ∷ s) in
    let (word, rest) = run_of (λ d. not (is_whitespace d)) (c ∷ s) in
    elim (is_whitespace c) [
      | true ↦ push blank normal (spans_of fuel name_next after_blank)
      | false ↦ elim (start_of word) [
        | to_end ↦ push (c ∷ s) comment []
        | up_to close tag ↦
            push (word ++ (through close rest).0) tag
              (spans_of fuel name_next (through close rest).1)
        | plain ↦
            push word (if name_next then def else classify word)
              (spans_of fuel (same_text word (codes ":")) rest)
      ]
    ]

unfoldable pub highlight : List ℕ → List (List ℕ × Tag)
unfolding spans_of
highlight line = spans_of (length line) false line
