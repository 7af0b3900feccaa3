-- ===== src/Lib.antt =====
-- MF66, a Forth for Apple silicon: its editor with the text buffer below it, and the back end of its compiler.
--
-- The parts, and the files that model them:
--
-- * The rope buffer (src/rope_buffer.rs), the editor's text store: Rope. A `Node` is the source's enum, with
--   the cached lengths, newline counts and heights written out; `RopeBuffer` is the public type, and a
--   method on `&mut self` returns the new buffer. Rope/Node, Join, Split, Query, Build and Buffer hold the
--   functions under the source's names (`cut` and `at_pos` for `pos`). Rope/Shape says what a tree stands for (`to_list`) and
--   when it is well formed: `IsTree` (exact caches, no empty leaf, no leaf above 2048), `IsAvl` (balanced
--   as well), `IsRope` and `IsAvlRope` (or the empty leaf). Rope/Lines gives lines of a plain text. `join_nodes` recurses on the pair of trees,
--   and `join_step` holds its tests. `merge_rounds` of the bulk build runs on fuel: one round for each
--   chunk, and a round shortens a list of two or more. Rope/Utf8 decodes bytes, with their
--   number as fuel, and gives strings, which are lists of characters, with their bytes; Rope/Iterators are `Chars` and `Lines`.
-- * The token optimiser (src/opt.rs): Opt. Opt/Tok, Eval and Metrics are the tokens, the constant folding of each
--   operator and the counters; Opt/Reduce is the pass `reduce`, one function for each arm of its match.
--   Opt/Machine runs tokens on a data stack of words; what other tokens do, and the floating-point
--   comparisons, are a `Host`, a record of functions with their laws. Opt/Sound compares a run before and
--   after the pass. A literal is an i64, held as the word below 2 ^ 64 with the same bits; counters do not wrap here.
-- * The AArch64 encoders (src/aenc.rs): Aenc. Each encoder is a function to a word below 2 ^ 32 made by the
--   source's masks and shifts. Aenc/Emit is what the compiler puts out and patches, Aenc/Moves and
--   Aenc/Branches read the words as the processor does, Aenc/Conditions gives the condition codes and
--   what they test after a comparison.
-- * The lowering (also src/opt.rs): Opt/Lower. `Low` is the struct without its floating-point half; a
--   method is a function to `none`, a panic, or a result and the new state. Opt/Lower/Code holds the
--   instructions and their words, Registers the allocation and `settle_data`, Words the stack words,
--   Operators the arithmetic and the comparisons, Locals the memory words and the caches, Run the loop
--   of `lower`. Opt/Lower/Ready says when registers suffice, Opt/Lower/Panics when they do not.
-- * The compiling half of the session (src/session.rs): Session. Session/Def is the pending definition and
--   its control-flow stack; a result is a value, an error of the source (`bail`) or a panic.
--   Session/Control holds one function for each control-flow word, Session/Pins the registers that a loop
--   pins around them, Session/Commit the end of a definition, Session/Inline the words written out for
--   their calls. Session/Layout gives structured code (`Block`), its words in the source text (`items`),
--   and its `layout`, the words with every branch at its distance, without a stack and without patches.
--   Patches, Structure, Loops, Steps and Counted lead to Session/Compile and Finish, which compare the two;
--   Session/Pins/Nest and Loop do it for pinned loops, and Session/Pins/Frame reads the loads and stores
--   around them as the processor does. `compile` reads words where no pin is active, `pinned` where one
--   may be. `lower` is a parameter of `commit_body`. Session/Scan reads words and strings
--   with a cursor, on fuel of one round for each byte, and Session/Numbers integers.
--   Session/Marker takes definitions back: data memory is the cell at each address, and the maps that are
--   copied and put back together are one value. The walk of `rollback_overlay` runs on fuel that a
--   statement takes for every number, since the overlay is a chain in data memory.
-- * The code arena (src/codearena.rs): Arena. Memory is the word at each address; Arena/Commit says what a
--   committed body can rely on. Addresses are plain numbers, so no statement speaks of a region that
--   wraps around 2 ^ 64.
-- * The workspace editor (src/editor.rs): Editor. The record `Editor` is the struct, and a method on `&mut
--   self` returns the new editor. Editor/History is undo and redo, Editor/Edit the clipboard and the edits,
--   Editor/Motion the caret, Editor/Files the file operations, Editor/Forth the formatter. Editor/Caret,
--   Commands and Moves say what every command keeps, Editor/Sessions runs any sequence of them,
--   Editor/Undo, Clipboard, Ends and Anchors what single commands do.
-- * The syntax colouring (src/fsyntax.rs): Syntax. The loop of `highlight` runs on fuel, one round for each
--   character of the line, and each round takes at least one.
--
-- Word holds 64-bit arithmetic and the laws of the bit operations; Prelude the shared list, option, number
-- and integer helpers; Tests applies the theorems to concrete inputs.
--
-- The parts meet in the compiler: tokens are captured, reduced here, lowered to words by the encoders and
-- committed to the code arena. The conditions that the optimiser picks for a comparison are those that
-- the encoders put in `csetm`, `csel` and `b.cond`.
--
-- The editor calls the rope buffer for each text it reads or changes, and keeps its undo steps as strings,
-- so the theorems on undo speak of a text that strings keep: characters, no carriage return, and no byte
-- order mark in front.
--
-- Not modelled: of the lowering the floating-point half, calls, loops and frames; of the session the loop
-- of `eval`, the dictionary with `forget_word`, and classes; the runtime, the windows that call these
-- parts, and vendored libraries. Of the editor the name shown for a file is left out, and files are read
-- and written by two functions that are parameters.
pub mod Aenc
pub mod Arena
pub mod Editor
pub mod Opt
pub mod Prelude
pub mod Rope
pub mod Session
pub mod Syntax
pub mod Tests
pub mod Word
