-- ===== src/Presence.antt =====
-- The daemon of crates/syauth-presenced.
pub mod Audit
pub mod Nonces
pub mod Peers
pub mod Challenge
pub mod Reload
pub mod Pairing
pub mod Rpc
pub mod Server
pub mod Lock
