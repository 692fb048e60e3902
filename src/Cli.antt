-- ===== src/Cli.antt =====
-- The operator's commands of crates/syauth-cli.
pub mod Revoke
pub mod Listing
pub mod Oob
pub mod Status
pub mod PamLine
pub mod Pair
