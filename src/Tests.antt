-- ===== src/Tests.antt =====
-- The theorems at concrete inputs, and runs of the definitions.
mod CoreTests
mod PresenceTests
mod DaemonTests
mod PamTests
mod CliTests
mod FileTests
mod RadioTests
mod PhoneTests
mod LockTests
mod LogTests
