-- ===== src/Kernel.antt =====
-- crates/stross-kernel/src/kernel: sessions, access codes and share tokens.
pub mod Types
pub mod Auth
pub mod Sessions
pub mod Tokens
pub mod Run
pub mod Streams
mod Tests
