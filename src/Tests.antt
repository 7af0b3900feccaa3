-- ===== src/Tests.antt =====
-- The theorems at concrete inputs.
pub mod Ropes
pub mod Words
pub mod Code
pub mod Arenas
pub mod Editors
pub mod Lowering
pub mod Sessions
pub mod Markers
