-- ===== src/Pick.antt =====
-- crates/stross-pick: the receiving side's choice of frames.
pub mod Jitter
