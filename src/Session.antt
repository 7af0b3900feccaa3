-- ===== src/Session.antt =====
-- The compiling half of src/session.rs.
pub mod Def
pub mod Control
pub mod Layout
pub mod Patches
pub mod Structure
pub mod Loops
pub mod Steps
pub mod Counted
pub mod Compile
pub mod Commit
pub mod Inline
pub mod Finish
pub mod Pins
pub mod Scan
pub mod Numbers
pub mod Marker
