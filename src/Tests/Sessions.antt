-- ===== src/Tests/Sessions.antt =====
-- Definitions of structured code, from their words to the arena.
use mf.Prelude.{
  ℕ, ◌+◌, ◌*◌, ◌≤◌, ◌≡◌, refl, arith, List, [], ◌∷◌, ◌++◌, length, true, false, Option, none, some,
}
use mf.Prelude.Int.{pos}
use mf.Aenc.Transfer.{b, mov_reg, ldr0, add_imm, cbz}
use mf.Aenc.Emit.{emit_nest, emit_unnest_ret}
use mf.Arena.{start}
use mf.Arena.Store.{fetch_words}
use mf.Opt.Tok.{Cmp, Tok}
use mf.Session.Def.{ok, and_then, ColonDef}
use mf.Session.Layout.{
  Block, run, seq, if_then, if_else, until, counted, leave, exit, flag, fused, items, leaves_loop,
  layout, leave_branch, exit_branch, size, exits,
}
use mf.Session.Numbers.{
  parse_forth_int, negated, from_str_radix, from_digits, next_digit, to_digit, radix_of,
}
use mf.Session.Numbers.RoundTrip.{spelled_number, parse_forth_int-spelled_number}
use mf.Session.Scan.{scan_escaped, scan_word, skip_while}
use mf.Session.Scan.Escapes.{spelled, scan_escaped-spelled}
use mf.Session.Steps.{compile}
use mf.Session.Compile.{LeavesIn, after, compile-items}
use mf.Session.Commit.{Compiler, open_colon, commit_body, finish_body, with_epilogue, tail_path}
use mf.Session.Finish.{finished, finish_body-compile, commit_body-compile}
use mf.Session.Pins.{PinMap, pinned, fpin_loads, ipin_loads, fpin_stores, ipin_stores}
use mf.Session.Pins.Frame.{Frame, transfers, filled, written_back}
use mf.Session.Pins.Loop.{chosen, no_pins, loaded, after_pinned, pinned-items, pinned_fused-items}
use mf.Session.Pins.Nest.{region, unclosed}
use mf.Session.Pins.Inline.{set_inline}

-- `do < if leave then 7 loop`, with one word for the run of tokens.
abbrev counting : Block
counting = counted true false (seq (if_then (fused Cmp.lt) leave) (run (7 ∷ [])))

-- `if exit else 5 then`
abbrev choosing : Block
choosing = if_else flag exit (run (5 ∷ []))

counting-leaves : leaves_loop counting ≡ false
unfolding leaves_loop
counting-leaves = refl

choosing-leaves : leaves_loop choosing ≡ false
unfolding leaves_loop
choosing-leaves = refl

abbrev empty_def : ColonDef
empty_def = record {
  name = 119 ∷ [];
  body = 1 ∷ 2 ∷ [];
  cf = [];
  toks = [];
  locals = (97 ∷ []) ∷ [];
  local_floats = false ∷ [];
  self_xt = 4096;
  exits = [];
  inline_toks = none;
}

counting-LeavesIn : LeavesIn counting empty_def.cf
counting-LeavesIn t = absurd (cc (t, counting-leaves))

compile-items_example : compile (items counting) empty_def ≡ ok (after counting 2 0 0 empty_def)
compile-items_example = compile-items counting 2 0 0 empty_def refl counting-LeavesIn

-- The words themselves.
choosing-layout :
    layout leave_branch exit_branch 0 0 choosing
    ≡ mov_reg 9 0 ∷ ldr0 0 19 ∷ add_imm 19 19 8 ∷ cbz 9 (pos 3) ∷ b (pos 3) ∷ b (pos 2) ∷ 5 ∷ []
unfolding layout size
choosing-layout = refl

finish_body-compile_example :
    and_then (compile (items choosing) empty_def) (finish_body (some 8192))
    ≡ ok (finished (1 ∷ 2 ∷ []) ((97 ∷ []) ∷ []) (some 8192) choosing)
finish_body-compile_example = finish_body-compile choosing (some 8192) empty_def choosing-leaves

abbrev compiler : Compiler
compiler = record {
  code = record { region = 65536; cap = 65536; cursor = 0 };
  memory = λ a. 0;
  inline_words = [];
  method_class = none;
}

abbrev no_lower : List Tok → List ℕ → Option (List ℕ)
no_lower toks body = none

choosing_fits : start compiler.code + length (finished (emit_nest []) [] none choosing) * 4 ≤ 65536
unfolding layout size exits emit_nest emit_unnest_ret tail_path with_epilogue
choosing_fits = omega arith

commit_body-compile_example :
    (after_commit : Compiler) × (and_then
        (compile (items choosing) (open_colon [] compiler))
        (λ def. commit_body no_lower def compiler)
      ≡ ok ((open_colon [] compiler).self_xt, after_commit))
    × (fetch_words after_commit.memory
          (open_colon [] compiler).self_xt
          (length (finished (emit_nest []) [] none choosing))
        ≡ finished (emit_nest []) [] none choosing)
commit_body-compile_example =
    commit_body-compile no_lower choosing [] compiler choosing-leaves choosing_fits

-- A loop over one pinned local, closed by a flag and by a comparison.
abbrev body_run : Block
body_run = run (3 ∷ [])

body_run-LeavesIn : LeavesIn body_run empty_def.cf
unfolding leaves_loop
body_run-LeavesIn t = absurd (cc t)

until_flag-LeavesIn : LeavesIn (until body_run flag) empty_def.cf
unfolding leaves_loop
until_flag-LeavesIn t = absurd (cc t)

body_run-unclosed : unclosed body_run ≡ 0
unfolding unclosed
body_run-unclosed = refl

abbrev pinned_def : ColonDef
pinned_def = record empty_def {
  locals = (97 ∷ []) ∷ (120 ∷ []) ∷ [];
  local_floats = false ∷ true ∷ [];
}

-- The second local is in register d8, the first one in x9.
abbrev float_pins : PinMap
float_pins = (1, 8) ∷ []

abbrev integer_pins : PinMap
integer_pins = (0, 9) ∷ []

abbrev frame : Frame
frame = record { registers = λ r. 0; floats = λ d. 1; locals = λ i. 40 + i }

pinned-items_example :
    (pinned (items (until body_run flag)) (pinned_def, chosen float_pins integer_pins)
      ≡ ok (
        after_pinned float_pins integer_pins refl (until body_run flag) 4 0 0 pinned_def,
        no_pins,
      ))
    × (transfers (fpin_loads float_pins ++ ipin_loads integer_pins) frame
        ≡ some (record frame {
          registers = filled integer_pins frame.locals frame.registers;
          floats = filled float_pins frame.locals frame.floats;
        }))
    × (transfers (fpin_stores float_pins ++ ipin_stores integer_pins) frame
        ≡ some (record frame {
          locals =
              written_back integer_pins frame.registers
                (written_back float_pins frame.floats frame.locals);
        }))
pinned-items_example =
    pinned-items float_pins integer_pins refl (until body_run flag) 4 0 0 pinned_def frame frame
      body_run-unclosed refl until_flag-LeavesIn (omega arith, omega arith, tt)
      (omega arith, omega arith, tt)

pinned_fused-items_example :
    pinned (items (until body_run (fused Cmp.eq))) (empty_def, chosen [] ((0, 15) ∷ []))
    ≡ ok (
      set_inline none
          (after (until body_run (fused Cmp.eq)) 3 0 0 (loaded [] ((0, 15) ∷ []) empty_def)),
      region [] ((0, 15) ∷ []) (unclosed body_run),
    )
pinned_fused-items_example =
    pinned_fused-items [] ((0, 15) ∷ []) refl body_run Cmp.eq 3 0 0 empty_def refl body_run-LeavesIn

-- `  dup +`, and `s\" a"b"` with the quote escaped.
scan_dup : scan_word (32 ∷ 32 ∷ 100 ∷ 117 ∷ 112 ∷ 32 ∷ 43 ∷ []) 0 ≡ (some (100 ∷ 117 ∷ 112 ∷ []), 5)
unfolding scan_word skip_while
scan_dup = refl

scan_escaped-spelled_example :
    scan_escaped (115 ∷ 92 ∷ 34 ∷ 32 ∷ (spelled (97 ∷ 34 ∷ 98 ∷ []) ++ (34 ∷ 46 ∷ []))) 3
    ≡ (some (97 ∷ 34 ∷ 98 ∷ []), 3 + length (spelled (97 ∷ 34 ∷ 98 ∷ [])) + 2)
scan_escaped-spelled_example =
    scan_escaped-spelled (97 ∷ 34 ∷ 98 ∷ []) (115 ∷ 92 ∷ 34 ∷ []) (46 ∷ [])

parse_forth_int-spelled_number_example :
    (parse_forth_int (spelled_number 16 255) 16 ≡ some (pos 255))
    × (parse_forth_int (45 ∷ spelled_number 16 255) 16 ≡ some (negated 255))
    × (parse_forth_int (48 ∷ 120 ∷ spelled_number 16 255) 16 ≡ some (pos 255))
    × (parse_forth_int (36 ∷ spelled_number 16 255) 16 ≡ some (pos 255))
    × (parse_forth_int (48 ∷ 98 ∷ spelled_number 2 255) 16 ≡ some (pos 255))
    × (parse_forth_int (37 ∷ spelled_number 2 255) 16 ≡ some (pos 255))
    × (parse_forth_int (48 ∷ 111 ∷ spelled_number 8 255) 16 ≡ some (pos 255))
parse_forth_int-spelled_number_example =
    parse_forth_int-spelled_number 16 255 (omega arith) (omega arith) (omega arith)

-- `--5` and `$-5` are numbers, and the least i64 is not.
two_signs : parse_forth_int (45 ∷ 45 ∷ 53 ∷ []) 10 ≡ some (pos 5)
unfolding parse_forth_int radix_of from_str_radix from_digits next_digit to_digit
two_signs = refl

sign_behind_prefix : parse_forth_int (36 ∷ 45 ∷ 53 ∷ []) 10 ≡ some (negated 5)
unfolding parse_forth_int radix_of from_str_radix from_digits next_digit to_digit
sign_behind_prefix = refl
