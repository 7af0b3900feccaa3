-- ===== src/Arena.antt =====
-- The code arena, src/codearena.rs: a region of executable memory that compiled bodies fill from the
-- bottom. Memory is the word at each address. Mapping memory is a parameter; protection and cache
-- maintenance do not change what it holds.
pub mod Store
pub mod Commit
use mf.Prelude.{
  ℕ, ◌+◌, ◌*◌, ◌/◌, ◌==◌, ltb, leb, ◌&&◌, Bool, List, length, Option, none, some, if◌then◌else◌,
}
use mf.Arena.Store.{Memory, store_words}

-- `region` is its address.
pub record CodeArena : Type 0 where
  pub region : ℕ
  pub cap : ℕ
  pub cursor : ℕ

-- `map_rwx` gives 0 where it fails. The mask `!0xFFFF` rounds down to 64 KB.
unfoldable pub with_capacity : (ℕ → ℕ) → ℕ → Option CodeArena
with_capacity map_rwx cap =
    let rounded = (cap + 0xFFFF) / 65536 * 65536 in
    let region = map_rwx rounded in
    if region == 0 then none else some (record { region = region; cap = rounded; cursor = 0 })

-- `(cursor + 15) & !15`
abbrev pub start : CodeArena → ℕ
start arena = (arena.cursor + 15) / 16 * 16

unfoldable pub next_addr : CodeArena → ℕ
next_addr arena = arena.region + start arena

unfoldable pub contains : CodeArena → ℕ → Bool
contains arena addr = leb arena.region addr && ltb addr (arena.region + arena.cap)

unfoldable pub checkpoint : CodeArena → ℕ
checkpoint arena = arena.cursor

unfoldable pub reset_to : CodeArena → ℕ → CodeArena
reset_to arena cursor = record arena { cursor = cursor }

-- The address, the arena and the memory after it; `none` is the error, which changes nothing.
unfoldable pub commit : CodeArena → Memory → List ℕ → Option (ℕ × CodeArena × Memory)
commit arena memory words =
    let bytes = length words * 4 in
    if ltb arena.cap (start arena + bytes)
    then none
    else some (
      arena.region + start arena,
      record arena { cursor = start arena + bytes },
      store_words memory (arena.region + start arena) words,
    )
