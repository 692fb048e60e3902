-- ===== src/Transport.antt =====
-- crates/syauth-transport.
pub mod Peripheral
pub mod Session
pub mod Reassembly
