-- ===== src/Aenc.antt =====
-- The AArch64 encoders, src/aenc.rs.
pub mod Fields
pub mod Conditions
pub mod Transfer
pub mod Arithmetic
pub mod Float
pub mod Emit
pub mod Moves
pub mod Branches
