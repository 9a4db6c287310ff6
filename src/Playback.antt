-- ===== src/Playback.antt =====
-- crates/stross-endpoint/src/playback: playback at the receiving end.
pub mod Schedule
