-- ===== src/Rope.antt =====
-- The text buffer of the editor, src/rope_buffer.rs.
pub mod Node
pub mod Join
pub mod Split
pub mod Shape
pub mod Balance
pub mod Concat
pub mod Cut
pub mod Avl
pub mod Query
pub mod Lines
pub mod Build
pub mod Buffer
pub mod Utf8
pub mod Iterators
