-- ===== src/Presence/Pairing.antt =====
-- `pair_event_consumer` of crates/syauth-presenced/src/runtime.rs and `bond_key_from_pubkeys` of
-- crates/syauth-core/src/bond.rs: what the daemon persists for a phone that paired.
pub mod Replace
use syauth.Base.{
  ℕ, ◌+◌, Bool, true, false, Bytes, Text, text, Dict, insert, List, [], ◌∷◌, ◌++◌, Option, none,
  some, Result, ok, err, and_then, any, replicate, if◌then◌else◌,
}
use syauth.Core.Crypto.{Primitives}
use syauth.Core.Bond.{
  Bond, BondStore, BondError, Update, bonded, has_id, add, remove, peer_id_from_pubkey,
}

abbrev pub bond_key_derived_bytes : ℕ
bond_key_derived_bytes = 32

abbrev pub bond_hkdf_info_v1 : Bytes
bond_hkdf_info_v1 = text "syauth-bond-v1"

-- `hkdf` is `Hkdf::<Sha256>::new(None, ikm)` and its `expand` to 32 bytes.
unfoldable pub bond_key_from_pubkeys : (Bytes → Bytes → Option Bytes) → Bytes → Bytes → Bytes
bond_key_from_pubkeys hkdf host_pubkey phone_pubkey =
    elim (hkdf (host_pubkey ++ phone_pubkey) bond_hkdf_info_v1) [
      | some out ↦ out
      | none ↦ replicate bond_key_derived_bytes 0
    ]

abbrev pub pair_default_bond_name : Text
pair_default_bond_name = text "phone (paired via daemon)"

-- `persist_pair_bond_record` between the load and the save
abbrev pub then_add : Bond → Update → Update
unfolding add
then_add bond (err e, store) = (err e, store)
then_add bond (ok _, store) = add store bond

unfoldable pub replace_bond : BondStore → Bond → Update
unfolding remove
replace_bond store bond =
    then_add bond
      (if any (has_id bond.peer_id) store.bonds then remove store bond.peer_id else (ok tt, store))

-- The key files by peer id and the bond file, with the reload commands that the orchestrator was sent.
pub record Files : Type 0 where
  pub keys : Dict Bytes
  pub bonds : Result BondStore BondError
  pub reloads : ℕ

-- Whether the writes and the send succeed; a failed write leaves the file as it was.
pub record Io : Type 0 where
  pub write_key : Bool
  pub save : Bool
  pub send : Bool
  pub now_utc : ℕ

-- `persist_pair_bond_record`, and whether it returned `Ok`
abbrev pub save_replaced : Io → Files → Update → Bool × Files
save_replaced io files (err e, store) = (false, files)
save_replaced io files (ok _, store) =
    if io.save then (true, record files { bonds = ok store }) else (false, files)

-- from the answer of the load on
abbrev pub after_load : Io → Files → Bond → Result BondStore BondError → Bool × Files
after_load io files bond (err e) = (false, files)
after_load io files bond (ok store) = save_replaced io files (replace_bond store bond)

unfoldable pub persist_pair_bond_record : Io → Files → Bond → Bool × Files
unfolding replace_bond
persist_pair_bond_record io files bond = after_load io files bond files.bonds

abbrev pub after_record : Io → Bool × Files → Files
after_record io (false, files) = files
after_record io (true, files) =
    if io.send then record files { reloads = files.reloads + 1 } else files

-- one turn of the loop of `pair_event_consumer`
unfoldable pub pair_event :
    Primitives → (Bytes → Bytes → Option Bytes) → Io → Bytes → Bytes → Files → Files
unfolding persist_pair_bond_record bond_key_from_pubkeys
pair_event p hkdf io host_pubkey phone_pubkey files =
    let peer_id = peer_id_from_pubkey p phone_pubkey in
    let bond : Bond = record {
      peer_id = peer_id;
      pubkey = phone_pubkey;
      name = pair_default_bond_name;
      created_at = io.now_utc;
      status = bonded;
    } in
    if io.write_key
    then after_record io (
        persist_pair_bond_record io
          (record files {
            keys = insert peer_id (bond_key_from_pubkeys hkdf host_pubkey phone_pubkey) files.keys;
          })
          bond)
    else files
