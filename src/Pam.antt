-- ===== src/Pam.antt =====
-- The PAM module of crates/syauth-pam.
pub mod Auth
pub mod Chosen
pub mod Config
pub mod Reasons
pub mod Verdict
pub mod Revocation
