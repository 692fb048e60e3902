-- ===== src/Lib.antt =====
-- syauth unlocks a Linux machine with a bonded phone. A PAM module (crates/syauth-pam) asks a daemon
-- (crates/syauth-presenced) over a Unix socket to challenge the phone; the daemon notifies a frame with
-- a fresh nonce over Bluetooth (crates/syauth-transport), verifies the phone's Ed25519 signature over
-- it, and answers with a reason, which the module turns into a PAM code. crates/syauth-mobile is the
-- phone's part as a library. crates/syauth-core has the
-- frame, the tag, the bonds and the caches, and crates/syauth-cli the operator's commands.
--
-- Files:
--   Base              names and lemmas that all share: tests, lists over the native numbers, byte
--                     strings, the methods on strings and their lines, results, and a map by texts
--                     (BTreeMap, HashMap)
--   Core/Frame        crates/syauth-core/src/frame.rs: encode, body_bytes, decode
--   Core/Crypto       crates/syauth-core/src/mac.rs, sign.rs: compute_tag, verify_tag, sign_frame,
--                     verify_frame, over a record of the calls into blake3 and ed25519-dalek
--   Core/Replay       crates/syauth-core/src/replay.rs: ReplayCache
--   Core/Bond         crates/syauth-core/src/bond.rs: BondStore with add, remove, mark_revoked, load,
--                     and the public keys in hexadecimal
--   Transport         crates/syauth-transport/src/bluez.rs (session UUIDs, fragments, scan window,
--                     suspend loop)
--   Transport/Peripheral  peripheral.rs of that crate: PersistentPeripheral, and peripheral/
--                     notification.rs: the notification session of a peer
--   Presence/Audit    crates/syauth-presenced/src/audit.rs: the appended lines and the fsync cadence
--   Presence/Nonces   orchestrator.rs of that crate: NonceCache
--   Presence/Peers    orchestrator.rs: the peer entries
--   Presence/Challenge  orchestrator.rs: issue_challenge and run_challenge
--   Presence/Reload   orchestrator.rs: run_reload, the diff of peers, the UUID union
--   Presence/Pairing  runtime.rs of that crate: what pair_event_consumer persists
--   Presence/Rpc      rpc.rs: the messages and their length-prefixed frames
--   Presence/Server   server.rs: dispatch
--   Presence/Lock     lock.rs: the pid file and its lock, with several processes
--   Pam               crates/syauth-pam/src/config.rs, auth.rs, entry.rs
--   Cli               crates/syauth-cli/src/revoke.rs, list.rs
--   Cli/Pair          pair.rs of that crate: run_pair_with_io with its phases, over what the radio, the
--                     operator and the files answer
--   Cli/Oob           oob.rs: the four words that both sides compare
--   Cli/PamLine       install_pam.rs, uninstall_pam.rs: the edited PAM file and its backup
--   Cli/Status        status.rs: the last unlock, the snapshot, what is printed
--   Mobile            crates/syauth-mobile/src/implementation.rs: what the phone checks, signs, answers
--                     and reads from an invite
--   Tests             the theorems and the definitions at concrete inputs
--
-- State and errors. A struct is a record and an enum a data type with the source's variants; a method
-- on `&mut self` returns its result with the state after it. A byte is a number, a String the list of
-- its bytes. Result is the type of that name, and a panic or an early `return None` is `none`. What a
-- call meets outside the code (the clock, the random generator, the peripheral, files, sockets) is a
-- record of answers that the call takes, and the theorems hold for every answer. The processes that
-- compete for the pid file are a step relation on the file, its locks and how far each process is. The
-- slices and the indices of `decode` are written with their bounds, so that its totality says
-- something.
--
-- Bounds. No definition here needs fuel but the printing of a decimal number, whose bound is the 39
-- digits of a u128, and the removal of a repeated ending, whose bound is the length of the text. The
-- frame's payload is at most 4096 bytes, an RPC frame at most 64 KiB, the nonce cache holds 64 nonces,
-- `status` reads 64 lines; the theorems carry those bounds where the code does. The length
-- prefix of an RPC frame is computed with its four bytes.
--
-- Not modelled: the calls into BlueZ, the keyring and the secret service, the tasks that move bytes
-- between BlueZ and the daemon (but for the full channel of a peer's responses), the accept loop and the start of the daemon, the interleaving of several
-- challenges of one peer (a call is one step, its permit taken and dropped within), writing the bond
-- file, the texts of backend errors and of log lines, the commands doctor and install-presenced, the
-- JSON and the watch mode of status, and the Android application.
pub mod Base
pub mod Core
pub mod Transport
pub mod Presence
pub mod Pam
pub mod Cli
pub mod Mobile
pub mod Tests
