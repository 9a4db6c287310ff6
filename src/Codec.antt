-- ===== src/Codec.antt =====
-- crates/stross-endpoint/src/codec/: the H.264 byte stream.
pub mod Emulation
pub mod Splitter
pub mod Units
mod Tests
