-- ===== src/Channel.antt =====
-- crates/stross-kernel/src/channel/: a peer channel with its file transfers.
pub mod FileName
pub mod Session
pub mod Manager
