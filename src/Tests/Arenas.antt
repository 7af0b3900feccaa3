-- ===== src/Tests/Arenas.antt =====
-- An arena with one body.
use mf.Prelude.{ℕ, ◌-◌, ◌%◌, ◌≡◌, refl, arith, List, [], ◌∷◌, some}
use mf.Arena.{CodeArena, next_addr, checkpoint, reset_to, commit}
use mf.Arena.Store.{Memory, store_words, fetch_words}
use mf.Arena.Commit.{IsArena, commit_lem, fetch_words-commit}

abbrev small_arena : CodeArena
small_arena = record { region = 4096; cap = 65536; cursor = 4 }

abbrev blank : Memory
blank a = 0

abbrev body : List ℕ
body = 7 ∷ 8 ∷ []

commit_lem_example :
    (after : CodeArena) × (kept : Memory) × (commit small_arena blank body
      ≡ some (next_addr small_arena, after, kept))
    × ((next_addr small_arena - 4096) % 16 ≡ 0)
    × (fetch_words kept (next_addr small_arena) 2 ≡ body)
    × IsArena after
    × (next_addr (reset_to after (checkpoint small_arena)) ≡ next_addr small_arena)
commit_lem_example = commit_lem small_arena blank body (omega arith)

abbrev filled_arena : CodeArena
filled_arena = record { region = 4096; cap = 65536; cursor = 24 }

committed : commit small_arena blank body ≡ some (4112, filled_arena, store_words blank 4112 body)
unfolding commit
committed = refl

fetch_words-commit_example :
    fetch_words (store_words blank 4112 body) 4096 1 ≡ fetch_words blank 4096 1
fetch_words-commit_example =
    fetch_words-commit small_arena filled_arena blank (store_words blank 4112 body) body 4112 4096 1
      committed (omega arith)
