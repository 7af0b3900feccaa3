-- ===== src/Arena/Commit.antt =====
-- What `commit` of src/codearena.rs promises to the compiler.
use mf.Prelude.{
  ℕ, ◌+◌, ◌-◌, ◌*◌, ◌%◌, ◌<◌, ◌≤◌, ◌≡◌, refl, ap, arith, true, ◌&&◌, List, length, some, none, ltb,
  leb, ltb→le, lt→ltb, le→ltb, ◌∷◌, Bool-cases, inl, inr,
}
use mathlib.Core.Option.{some-injective}
use mf.Arena.Store.{Memory, store_words, fetch_words, fetch_words-store_words, fetch_words_below}
use mf.Arena.{CodeArena, start, next_addr, contains, checkpoint, reset_to, commit}

-- The cursor stays in the region.
abbrev pub IsArena : CodeArena → Type 0
IsArena arena = arena.cursor ≤ arena.cap

none≢committed : (r : ℕ × CodeArena × Memory) → ¬ (none ≡ some r)
none≢committed r q = cc

-- `commit` of words that fit gives the address that `next_addr` promised, at a multiple of 16 from the
-- region. The words stand there, the cursor stays in the region, and a rollback to the checkpoint before
-- gives the same address again.
pub commit_lem :
    (arena : CodeArena) (memory : Memory) (words : List ℕ)
    → start arena + length words * 4 ≤ arena.cap
    → (after : CodeArena) × (kept : Memory) × (commit arena memory words
        ≡ some (next_addr arena, after, kept))
      × ((next_addr arena - arena.region) % 16 ≡ 0)
      × (fetch_words kept (next_addr arena) (length words) ≡ words)
      × IsArena after
      × (next_addr (reset_to after (checkpoint arena)) ≡ next_addr arena)
unfolding commit next_addr reset_to checkpoint
commit_lem arena memory words h = (
  record arena { cursor = start arena + length words * 4 },
  store_words memory (arena.region + start arena) words,
  rw (le→ltb arena.cap (start arena + length words * 4) h) refl,
  omega arith,
  fetch_words-store_words memory (arena.region + start arena) words,
  h,
  refl,
)

-- `commit` of words that do not fit is an error.
pub commit_exhausted :
    (arena : CodeArena) (memory : Memory) (words : List ℕ)
    → arena.cap < start arena + length words * 4
    → commit arena memory words ≡ none
unfolding commit
commit_exhausted arena memory words h =
    rw (lt→ltb arena.cap (start arena + length words * 4) h) refl

-- The words that stand below the cursor of an arena stay as they are in every `commit` that
-- succeeds.
pub fetch_words-commit :
    (arena after : CodeArena) (memory kept : Memory) (words : List ℕ) (addr body n : ℕ)
    → commit arena memory words ≡ some (addr, after, kept)
    → body + n * 4 ≤ arena.region + arena.cursor
    → fetch_words kept body n ≡ fetch_words memory body n
unfolding commit
fetch_words-commit arena after memory kept words addr body n e h =
    elim (Bool-cases (ltb arena.cap (start arena + length words * 4))) [
      | inl t ↦ absurd (none≢committed (addr, after, kept) (rw t at e))
      | inr f ↦
          let same = some-injective _ _ (rw f at e) in
          rw (← ap (λ r. r.2) same)
            (fetch_words_below memory (arena.region + start arena) words body n (omega arith))
    ]

inside :
    (base offset cap : ℕ)
    → offset < cap
    → (leb base (base + offset) && ltb (base + offset) (base + cap)) ≡ true
inside base offset cap h = ground arith

-- Where the `commit` of at least one word succeeds, `contains` of the arena after it finds the
-- address.
pub contains-commit :
    (arena after : CodeArena) (memory kept : Memory) (word : ℕ) (words : List ℕ) (addr : ℕ)
    → commit arena memory (word ∷ words) ≡ some (addr, after, kept)
    → contains after addr ≡ true
unfolding commit contains
contains-commit arena after memory kept word words addr e =
    elim (Bool-cases (ltb arena.cap (start arena + length (word ∷ words) * 4))) [
      | inl t ↦ absurd (none≢committed (addr, after, kept) (rw t at e))
      | inr f ↦
          let same = some-injective _ _ (rw f at e) in
          rw (← ap (λ r. contains r.1 r.0) same)
            (inside arena.region (start arena) arena.cap (omega (arith, ltb→le _ _ f)))
    ]
