-- ===== src/Tests/Markers.antt =====
-- A word after a marker that gets the address of a word before it.
use mf.Prelude.{ℕ, ◌≡◌, refl, List, [], ◌∷◌, Option, none, some}
use mf.Arena.{commit, reset_to, checkpoint}
use mf.Arena.Store.{Memory, store_words}
use mf.Aenc.Emit.{emit_lit, load_imm64}
use mf.Opt.Tok.{Tok, Bin}
use mf.Session.Def.{ok, ColonDef}
use mf.Session.Inline.{find_word, inlinable_toks, expand_inline}
use mf.Session.Commit.{Compiler, commit_words, keep_inline}
use mf.Session.Marker.{
  Session, snapshot, run_marker, rollback_overlay, unlink_all, constant_words, publish_constant,
  reset_code,
}
use mf.Session.Marker.Stale.{find_word-run_marker}

abbrev arena_memory : Memory
arena_memory a = 0

abbrev compiler : Compiler
compiler = record {
  code = record { region = 65536; cap = 65536; cursor = 0 };
  memory = arena_memory;
  inline_words = [];
  method_class = none;
}

abbrev session : Session ℕ
session = record { cells = λ a. 0; user_base = 4096; compiler = compiler; maps = 0; markers = [] }

abbrev named : Option (List Tok) → ColonDef
named toks = record {
  name = 102 ∷ [];
  body = [];
  cf = [];
  toks = [];
  locals = [];
  local_floats = [];
  self_xt = 65568;
  exits = [];
  inline_toks = toks;
}

-- After `marker m`, `: f 2* ;`, `m marker m` and another `f`.
abbrev marked : Compiler
marked = record compiler {
  code = record { region = 65536; cap = 65536; cursor = 24 };
  memory = store_words arena_memory 65536 (constant_words 0);
}

abbrev first_xt : ℕ
first_xt = 65568

abbrev second_xt : ℕ
second_xt = 65568

abbrev doubled : List Tok
doubled = Tok.dup_bin Bin.add ∷ []

abbrev first_f : Compiler
first_f = record marked {
  code = record { region = 65536; cap = 65536; cursor = 36 };
  memory = store_words marked.memory 65568 (7 ∷ []);
  inline_words = (65568, doubled) ∷ [];
}

abbrev marked_again : Compiler
marked_again = record first_f {
  code = record { region = 65536; cap = 65536; cursor = 24 };
  memory = store_words first_f.memory 65536 (constant_words 0);
}

abbrev second_f : Compiler
second_f = record marked_again {
  code = record { region = 65536; cap = 65536; cursor = 40 };
  memory = store_words marked_again.memory 65568 (9 ∷ 10 ∷ []);
}

mark : publish_constant 0 session.compiler ≡ some (65536, marked)
unfolding publish_constant commit constant_words emit_lit load_imm64
mark = refl

define_first : commit_words none (named (some doubled)) marked (7 ∷ []) ≡ ok (65568, first_f)
unfolding commit_words commit keep_inline expand_inline inlinable_toks
define_first = refl

mark_again :
    publish_constant 0
      (run_marker 0 (snapshot session) (record session { compiler = first_f })).compiler
    ≡ some (65536, marked_again)
unfolding publish_constant commit constant_words emit_lit load_imm64 run_marker snapshot
    rollback_overlay unlink_all reset_code reset_to checkpoint
mark_again = refl

define_second : commit_words none (named none) marked_again (9 ∷ 10 ∷ []) ≡ ok (65568, second_f)
unfolding commit_words commit keep_inline
define_second = refl

find_word-run_marker_example :
    (second_xt ≡ first_xt)
    × (find_word second_xt second_f.inline_words ≡ find_word first_xt first_f.inline_words)
find_word-run_marker_example =
    find_word-run_marker 0 session session marked first_f marked_again second_f none none
      (named (some doubled)) (named none) (7 ∷ []) (9 ∷ 10 ∷ []) 65536 65536 65568 65568 mark
      define_first mark_again define_second refl
