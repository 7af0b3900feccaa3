-- ===== src/Rope/Lines.antt =====
-- Lines of a plain text, the specification of the buffer's line queries: a newline ends a line.
use mf.Prelude.{
  ℕ, zero, suc, ◌+◌, ◌-◌, ◌≤◌, ◌<◌, ◌≡◌, refl, arith, List, [], ◌∷◌, ◌++◌, ◌==◌, length, take, drop,
  if◌then◌else◌, ltb, false, some, get_elem?,
}
use mf.Rope.Node.{count_newlines, newline}

-- The lines of a text, without their newlines; there is always one more than there are newlines.
pub split_lines : List ℕ → List (List ℕ)
split_lines [] = [] ∷ []
split_lines (cp ∷ buf) =
    if cp == newline
    then [] ∷ split_lines buf
    else elim (split_lines buf) [ [] ↦ (cp ∷ []) ∷ [] | line ∷ lines ↦ (cp ∷ line) ∷ lines ]

-- Where line `i` starts and ends, its newline left out; of use for `i ≤ count_newlines`.
unfoldable pub line_begin : List ℕ → ℕ → ℕ
line_begin buf zero = 0
line_begin [] (suc i) = 0
line_begin (cp ∷ buf) (suc i) = suc (line_begin buf (if cp == newline then i else suc i))

unfoldable pub line_end : List ℕ → ℕ → ℕ
line_end [] i = 0
line_end (cp ∷ buf) zero = if cp == newline then 0 else suc (line_end buf 0)
line_end (cp ∷ buf) (suc i) = suc (line_end buf (if cp == newline then i else suc i))

-- A line starts behind the end of the one before.
pub line_begin-suc :
    (buf : List ℕ) (i : ℕ) → i < count_newlines buf → line_begin buf (suc i) ≡ suc (line_end buf i)
unfolding line_begin line_end count_newlines
line_begin-suc [] i h = absurd (omega arith)
line_begin-suc (cp ∷ buf) zero h = ground (arith, line_begin-suc buf 0)
line_begin-suc (cp ∷ buf) (suc i) h =
    ground (arith, line_begin-suc buf i, line_begin-suc buf (suc i))

-- The last line ends with the text.
pub line_end_last : (buf : List ℕ) (n : ℕ) → n ≡ count_newlines buf → line_end buf n ≡ length buf
unfolding line_end count_newlines
line_end_last [] n h = refl
line_end_last (cp ∷ buf) zero h = ground (arith, line_end_last buf 0)
line_end_last (cp ∷ buf) (suc n) h = ground (arith, line_end_last buf n, line_end_last buf (suc n))

pub line_end-append :
    (xs ys : List ℕ) (i : ℕ)
    → line_end (xs ++ ys) i ≡ (
        if ltb i (count_newlines xs)
        then line_end xs i
        else length xs + line_end ys (i - count_newlines xs))
unfolding line_end count_newlines
line_end-append [] ys i =
    let t : ltb i 0 ≡ false = ground arith in
    let e : i - 0 ≡ i = omega arith in rw (t, e) (omega arith)
line_end-append (cp ∷ xs) ys zero = ground (arith, line_end-append xs ys 0)
line_end-append (cp ∷ xs) ys (suc i) =
    ground (arith, line_end-append xs ys i, line_end-append xs ys (suc i))

-- A position lies in the line that the newlines before it count.
pub line_of_position :
    (buf : List ℕ) (at_pos n : ℕ)
    → at_pos ≤ length buf
    → n ≡ count_newlines (take at_pos buf)
    → (line_begin buf n ≤ at_pos) × (at_pos ≤ line_end buf n)
unfolding line_begin line_end count_newlines
line_of_position buf zero zero h e = (omega arith, omega arith)
line_of_position buf zero (suc n) h e = absurd (omega arith)
line_of_position [] (suc p) n h e = absurd (omega arith)
line_of_position (cp ∷ buf) (suc p) zero h e = ground (arith, line_of_position buf p 0)
line_of_position (cp ∷ buf) (suc p) (suc n) h e =
    ground (arith, line_of_position buf p n, line_of_position buf p (suc n))

pub count_newlines-take-le :
    (buf : List ℕ) (p : ℕ) → count_newlines (take p buf) ≤ count_newlines buf
unfolding count_newlines
count_newlines-take-le buf zero = omega arith
count_newlines-take-le [] (suc p) = omega arith
count_newlines-take-le (cp ∷ buf) (suc p) = omega (arith, count_newlines-take-le buf p)

pub line_begin-le-line_end : (buf : List ℕ) (i : ℕ) → line_begin buf i ≤ line_end buf i
unfolding line_begin line_end
line_begin-le-line_end [] zero = omega arith
line_begin-le-line_end [] (suc i) = omega arith
line_begin-le-line_end (cp ∷ buf) zero = omega arith
line_begin-le-line_end (cp ∷ buf) (suc i) =
    ground (arith, line_begin-le-line_end buf i, line_begin-le-line_end buf (suc i))

pub line_end-le : (buf : List ℕ) (i : ℕ) → line_end buf i ≤ length buf
unfolding line_end
line_end-le [] i = omega arith
line_end-le (cp ∷ buf) zero = ground (arith, line_end-le buf 0)
line_end-le (cp ∷ buf) (suc i) = ground (arith, line_end-le buf i, line_end-le buf (suc i))

-- The part of the text from a line's start to its end is that line.
pub drop-take_line :
    (buf : List ℕ) (i : ℕ)
    → i ≤ count_newlines buf
    → get_elem? (split_lines buf) i ≡ some (drop (line_begin buf i) (take (line_end buf i) buf))
unfolding line_begin line_end count_newlines split_lines
drop-take_line [] zero h = refl
drop-take_line [] (suc i) h = absurd (omega arith)
drop-take_line (cp ∷ buf) zero h = ground (arith, drop-take_line buf 0)
drop-take_line (cp ∷ buf) (suc i) h =
    ground (arith, drop-take_line buf i, drop-take_line buf (suc i))
