-- ===== src/Arena/Store.antt =====
-- Words in memory, four bytes apart.
use mf.Prelude.{
  ℕ, zero, suc, ◌+◌, ◌*◌, ◌<◌, ◌≤◌, ◌==◌, ◌≡◌, refl, ap₂, ◌∙◌, arith, List, [], ◌∷◌, length,
  if◌then◌else◌, ==_self, Bool-cases, inl, inr, ==→eq,
}

abbrev pub Memory : Type 0
Memory = ℕ → ℕ

abbrev pub store_word : Memory → ℕ → ℕ → Memory
store_word memory addr word a = if a == addr then word else memory a

unfoldable pub store_words : Memory → ℕ → List ℕ → Memory
store_words memory addr [] = memory
store_words memory addr (word ∷ words) = store_words (store_word memory addr word) (addr + 4) words

unfoldable pub fetch_words : Memory → ℕ → ℕ → List ℕ
fetch_words memory addr zero = []
fetch_words memory addr (suc n) = memory addr ∷ fetch_words memory (addr + 4) n

-- Below the words, memory is as it was.
pub store_words_below :
    (memory : Memory) (addr : ℕ) (words : List ℕ) (a : ℕ)
    → a < addr
    → store_words memory addr words a ≡ memory a
unfolding store_words
store_words_below memory addr [] a h = refl
store_words_below memory addr (word ∷ words) a h =
    store_words_below (store_word memory addr word) (addr + 4) words a (omega arith)
    ∙ elim (Bool-cases (a == addr)) [
      | inl t ↦ let e = ==→eq a addr t in absurd (omega (arith, e))
      | inr f ↦ rw f refl
    ]

pub fetch_words-store_words :
    (memory : Memory) (addr : ℕ) (words : List ℕ)
    → fetch_words (store_words memory addr words) addr (length words) ≡ words
unfolding store_words fetch_words
fetch_words-store_words memory addr [] = refl
fetch_words-store_words memory addr (word ∷ words) =
    let here : store_word memory addr word addr ≡ word = rw (==_self addr) refl in
    let head =
      store_words_below (store_word memory addr word) (addr + 4) words addr (omega arith) ∙ here in
    ap₂ (◌∷◌) head (fetch_words-store_words (store_word memory addr word) (addr + 4) words)

pub fetch_words_below :
    (memory : Memory) (addr : ℕ) (words : List ℕ) (a n : ℕ)
    → a + n * 4 ≤ addr
    → fetch_words (store_words memory addr words) a n ≡ fetch_words memory a n
unfolding fetch_words
fetch_words_below memory addr words a zero h = refl
fetch_words_below memory addr words a (suc n) h =
    ap₂ (◌∷◌) (store_words_below memory addr words a (omega arith))
      (fetch_words_below memory addr words (a + 4) n (omega arith))
