-- ===== src/Transport/Session.antt =====
-- `session_uuid_for` of crates/syauth-transport/src/bluez.rs: the rotating service UUID of a bond.
use syauth.Base.{ℕ, zero, suc, ◌/◌, ◌%◌, Bytes, text, [], ◌∷◌, ◌++◌, Option, none, some, replicate}

abbrev pub session_uuid_bytes : ℕ
session_uuid_bytes = 16

abbrev pub hkdf_info_session_v1 : Bytes
hkdf_info_session_v1 = text "syauth-session-v1"

-- The low `n` bytes of a number, the highest first.
abbrev pub be_bytes : ℕ → ℕ → Bytes
be_bytes zero k = []
be_bytes (suc n) k = be_bytes n (k / 256) ++ (k % 256) ∷ []

-- `hkdf` is `Hkdf::<Sha256>::new(None, key)` and its `expand` to 16 bytes; the minute of an instant
-- after the epoch is not negative.
unfoldable pub session_uuid_for : (Bytes → Bytes → Option Bytes) → Bytes → ℕ → Bytes
session_uuid_for hkdf bond_key minute =
    elim (hkdf bond_key (hkdf_info_session_v1 ++ be_bytes 8 minute)) [
      | some out ↦ out
      | none ↦ replicate session_uuid_bytes 0
    ]
