-- ===== src/Session/Marker.antt =====
-- src/session.rs, `snapshot`, `rollback_overlay` and `run_marker`: a marker takes back the definitions
-- made after it. Data memory is the cell at each address; the maps of classes, objects, values, addresses
-- and defining words, which are copied and put back together, are one value of any type. The walk of
-- `rollback_overlay` runs on fuel.
pub mod Stale
use mf.Prelude.{
  ℕ, zero, suc, ◌+◌, ◌*◌, ◌%◌, ◌==◌, ltb, not, ◌&&◌, Bool, true, false, List, [], ◌∷◌, ◌++◌, Option,
  none, some, if◌then◌else◌,
}
use mf.Aenc.Transfer.{ret}
use mf.Aenc.Emit.{emit_lit}
use mf.Arena.{commit, checkpoint, reset_to}
use mf.Session.Commit.{Compiler}

abbrev pub user_latest : ℕ
user_latest = 0x10

abbrev pub user_here : ℕ
user_here = 0x18

abbrev pub user_var_here : ℕ
user_var_here = 0x1820

abbrev pub user_index_here : ℕ
user_index_here = 0x1518

abbrev pub user_index_latest : ℕ
user_index_latest = 0x1520

pub record Marker {ℓ} (A : Type ℓ) : Type ℓ where
  pub latest : ℕ
  pub here : ℕ
  pub var_here : ℕ
  pub index_here : ℕ
  pub index_latest : ℕ
  pub code_cursor : ℕ
  pub maps : A

pub record Session {ℓ} (A : Type ℓ) : Type ℓ where
  pub cells : ℕ → ℕ
  pub user_base : ℕ
  pub compiler : Compiler
  pub maps : A
  -- By the bytes of their names.
  pub markers : List (List ℕ × Marker A)

-- The body of a word that pushes a constant, as the word that a marker's name becomes.
unfoldable pub constant_words : ℕ → List ℕ
constant_words value = emit_lit value [] ++ (ret ∷ [])

-- Its header is left out; `none` is an error.
unfoldable pub publish_constant : ℕ → Compiler → Option (ℕ × Compiler)
publish_constant value c = elim (commit c.code c.memory (constant_words value)) [
  | none ↦ none
  | some (xt, code, memory) ↦ some (xt, record c { code = code; memory = memory })
]

unfoldable pub reset_code : ℕ → Compiler → Compiler
reset_code cursor c = record c { code = reset_to c.code cursor }

module _ {ℓ} {A : Type ℓ} where
  abbrev pub read_user : Session A → ℕ → ℕ
  read_user s off = s.cells (s.user_base + off)

  abbrev pub write_u64 : ℕ → ℕ → Session A → Session A
  write_u64 addr v s = record s { cells = λ a. if a == addr then v else s.cells a }

  abbrev pub write_user : ℕ → ℕ → Session A → Session A
  write_user off v s = write_u64 (s.user_base + off) v s

  unfoldable pub snapshot : Session A → Marker A
  snapshot s = record {
    latest = read_user s user_latest;
    here = read_user s user_here;
    var_here = read_user s user_var_here;
    index_here = read_user s user_index_here;
    index_latest = read_user s user_index_latest;
    code_cursor = checkpoint s.compiler.code;
    maps = s.maps;
  }

  -- A node is taken out of its bucket where it is the first one there.
  unfoldable pub unlink : ℕ → Session A → Session A
  unlink node s =
      let bucket_next = s.cells node in
      let hash = s.cells (node + 32) % 4294967296 in
      let bucket = s.cells (node + 24) + hash % 512 * 8 in
      if s.cells bucket == node then write_u64 bucket bucket_next s else s

  -- From the newest node down the chain of creation.
  unfoldable pub unlink_all : ℕ → ℕ → ℕ → Session A → Session A
  unfolding unlink
  unlink_all zero node threshold s = s
  unlink_all (suc fuel) node threshold s = elim (not (node == 0) && ltb node threshold) [
    | false ↦ s
    | true ↦ let after = unlink node s in unlink_all fuel (after.cells (node + 8)) threshold after
  ]

  unfoldable pub rollback_overlay : ℕ → ℕ → ℕ → Session A → Session A
  unfolding unlink_all
  rollback_overlay fuel threshold index_latest s =
      let after = unlink_all fuel (read_user s user_index_latest) threshold s in
      write_user user_index_here threshold (write_user user_index_latest index_latest after)

  -- The markers made after `t` are dropped.
  unfoldable pub retain : ℕ → List (List ℕ × Marker A) → List (List ℕ × Marker A)
  retain t [] = []
  retain t ((name, mk) ∷ markers) =
      if ltb t mk.index_here then (name, mk) ∷ retain t markers else retain t markers

  unfoldable pub run_marker : ℕ → Marker A → Session A → Session A
  run_marker fuel m s =
      let rolled = rollback_overlay fuel m.index_here m.index_latest s in
      let written =
        write_user user_var_here m.var_here
          (write_user user_here m.here (write_user user_latest m.latest rolled)) in
      record written {
        compiler = reset_code m.code_cursor written.compiler;
        maps = m.maps;
        markers = retain m.index_here written.markers;
      }
