-- ===== src/Presence/Peers.antt =====
-- The peers that `Orchestrator` of crates/syauth-presenced/src/orchestrator.rs keeps.
use syauth.Base.{ℕ, ◌-◌, Bytes, Dict, Option, none, some, ltb, ◌==◌, if◌then◌else◌}
use syauth.Presence.Nonces.{NonceCache}
use syauth.Presence.Nonces
use syauth.Presence.Audit.{AuditLog}

pub record PeerLiveness : Type 0 where
  pub last_challenge_at : Option ℕ
  pub last_connect_at : Option ℕ

-- `challenge_slot` counts the permits that are available.
pub record PeerEntry : Type 0 where
  pub bond_key : Bytes
  pub phone_pubkey : Option Bytes
  pub nonce_cache : NonceCache
  pub challenge_slot : ℕ
  pub liveness : PeerLiveness

abbrev pub new_entry : Bytes → Option Bytes → PeerEntry
new_entry bond_key phone_pubkey = record {
  bond_key = bond_key;
  phone_pubkey = phone_pubkey;
  nonce_cache = Nonces.new;
  challenge_slot = 1;
  liveness = record { last_challenge_at = none; last_connect_at = none };
}

-- The fields that an operation changes.
pub record Orchestrator : Type 0 where
  pub peers : Dict PeerEntry
  pub audit_log : Option AuditLog

abbrev pub stamp_liveness : ℕ → PeerEntry → PeerEntry
stamp_liveness now e = record e {
  liveness = record { last_challenge_at = some now; last_connect_at = some now };
}

abbrev u64_max : ℕ
u64_max = 18446744073709551615

-- `ms_since`: nothing where `then` is after `now`; a count that does not fit into a u64 is its maximum
abbrev pub ms_since : ℕ → Option ℕ → Option ℕ
ms_since now none = none
ms_since now (some then_) =
    if ltb now then_
    then none
    else some (if ltb u64_max (now - then_) then u64_max else now - then_)

abbrev pub challenge_slot_in_flight : PeerEntry → ℕ
challenge_slot_in_flight e = if e.challenge_slot == 0 then 1 else 0
