-- ===== src/Opt/Sound.antt =====
-- `reduce` keeps the meaning of a token run.
pub mod Words
pub mod Identities
pub mod Rules
pub mod Arms
pub mod Run
pub mod Counts
pub mod Twice
