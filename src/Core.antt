-- ===== src/Core.antt =====
-- crates/syauth-core: the wire frame, the replay cache, the MAC and signature over a frame.
pub mod Frame
pub mod Replay
pub mod Crypto
pub mod Bond
