-- ===== src/Cli/Revoke/Saved.antt =====
-- What `syauth revoke` (crates/syauth-cli/src/revoke.rs) writes to the bond file and to the terminal.
use syauth.Base.{
  Bool, Text, text, bytes_eq, ◌++◌, Option, none, some, Result, ok, err, if◌then◌else◌, ◌≡◌,
}
use syauth.Core.Bond.{Bond, BondStatus, bonded, revoked, BondStore, BondError}
use syauth.Core.Bond.View.{view}
use syauth.Cli.Revoke.{RevokeError, unknown_id, bond, RevokeOutcome, apply_revoke}

abbrev Ended : Type 0
Ended = Result Text RevokeError × Option BondStore

module _ (save : BondStore → Bool) (store : BondStore) (id reason : Text) where
  -- the store with the bond under the id revoked
  abbrev pub RevokedStore : Bond → BondStore → Type 0
  RevokedStore b t =
      (k : Text)
      → view t k
        ≡ (if bytes_eq id k then some (record b { status = revoked reason }) else view store k)

  abbrev pub Told : Bond → BondStatus → Ended → Type 0
  Told b (revoked old) r =
      r ≡ (ok (text "bond " ++ (id ++ (text " already revoked: " ++ (old ++ text "\n")))), none)
  Told b bonded r =
      (t : BondStore) × RevokedStore b t
      × (r ≡ (
          if save t
          then (ok (text "revoked bond " ++ (id ++ (text ": " ++ (reason ++ text "\n")))), some t)
          else (err (bond BondError.io), none)))

  -- What the command ends in, by what the loaded store holds under the id.
  abbrev pub Promised : Option Bond → Ended → Type 0
  Promised none r = r ≡ (err (unknown_id id), none)
  Promised (some b) r = Told b b.status r

  abbrev applied : Result RevokeOutcome RevokeError × BondStore
  applied = apply_revoke store id reason
