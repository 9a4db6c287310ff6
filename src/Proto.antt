-- ===== src/Proto.antt =====
-- The wire formats of crates/stross-proto: the frame header, the compact frame header and the
-- chunk header of a peer channel.
pub mod Frame
pub mod Compact
pub mod Chunk
pub mod Message
pub mod Ids
mod Tests
