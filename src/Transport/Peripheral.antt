-- ===== src/Transport/Peripheral.antt =====
-- `PeripheralError` of crates/syauth-transport/src/peripheral.rs. The rendered reason of `Backend` is
-- left out: it is written to logs only.
pub mod Notification
pub mod Persistent
pub mod Registered
use syauth.Base.{ℕ, Text}

pub data PeripheralError : Type 0 where
  adapter_missing : Text → PeripheralError
  unknown_peer : Text → PeripheralError
  peer_already_added : Text → PeripheralError
  backend : PeripheralError
  response_timeout : Text → ℕ → PeripheralError
