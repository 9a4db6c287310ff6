-- ===== src/Transport.antt =====
-- crates/stross-transport: how a relay is reached.
pub mod RelayUrl
