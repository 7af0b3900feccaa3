-- ===== src/Opt.antt =====
-- The token-IR optimizer, src/opt.rs.
pub mod Tok
pub mod Eval
pub mod Fused
pub mod Metrics
pub mod Reduce
pub mod Machine
pub mod Lower
pub mod Sound
