-- ===== src/Presence/Reload.antt =====
-- `run_reload`, `reload_bonds` and `rotate_once` of crates/syauth-presenced/src/orchestrator.rs: the
-- peers follow the bond store. A hash map or a hash set is a list here, in the order of the bonds.
pub mod Peers
pub mod Revocation
pub mod Repair
pub mod Union
use syauth.Base.{
  ℕ, ◌-◌, ◌/◌, ◌%◌, Bool, true, false, not, Bytes, Text, bytes_eq, Dict, get, erase, insert,
  contains_key, List, [], ◌∷◌, ◌++◌, map, Option, none, some, Result, ok, err, ◌==◌, length,
  replicate, find, any, filter, if◌then◌else◌, ◌>>=◌,
}
use syauth.Core.Crypto.{bond_key_bytes}
use syauth.Core.Bond.{Bond, BondStore, BondError, has_id, is_revoked}
use syauth.Transport.Peripheral.{PeripheralError}
use syauth.Transport.Session.{session_uuid_for}
use syauth.Presence.Peers.{Orchestrator, PeerEntry, new_entry}

abbrev pub seconds_per_minute : ℕ
seconds_per_minute = 60

abbrev pub pair_mode_zero_bond_key : Bytes
pair_mode_zero_bond_key = replicate bond_key_bytes 0

-- What the key directory and the peripheral answer during one reload, with the minute of the clock.
pub record Backend : Type 0 where
  pub read_key : Text → Option Bytes
  pub add_peer : Text → Bytes → Result (Unit {0}) PeripheralError
  pub remove_peer : Text → Result (Unit {0}) PeripheralError
  pub set_session_uuids : List Bytes → Result (Unit {0}) PeripheralError
  pub hkdf : Bytes → Bytes → Option Bytes
  pub unix_seconds : ℕ

-- `align_to_next_minute` and `minute_index`, by the seconds since the epoch
abbrev pub align_to_next_minute : ℕ → ℕ
align_to_next_minute secs = seconds_per_minute - secs % seconds_per_minute

abbrev pub minute_index : ℕ → ℕ
minute_index secs = secs / seconds_per_minute

-- `HashSet::insert`
abbrev pub set_insert : Bytes → List Bytes → List Bytes
set_insert u us = if any (λ v. bytes_eq v u) us then us else us ++ u ∷ []

abbrev pub Snapshot : Type 0
Snapshot = List (Text × Bytes)

abbrev pub snapshot_peers : Orchestrator → Snapshot
snapshot_peers o = map (λ e. (e.0, e.1.bond_key)) o.peers

module _ (b : Backend) where
  -- `collect` of the UUIDs into `set`
  abbrev pub collect_uuids : ℕ → Snapshot → List Bytes → List Bytes
  collect_uuids minute [] set = set
  collect_uuids minute (e ∷ es) set =
      collect_uuids minute es (set_insert (session_uuid_for b.hkdf e.1 minute) set)

  unfoldable pub build_uuid_union : Snapshot → ℕ → List Bytes
  build_uuid_union snapshot minute =
      set_insert (session_uuid_for b.hkdf pair_mode_zero_bond_key minute)
        (collect_uuids minute snapshot [])

  -- The UUIDs that the peripheral advertises after a rotation, when it took them.
  unfoldable pub rotate_once : Orchestrator → Option (List Bytes)
  unfolding build_uuid_union
  rotate_once o =
      let union = build_uuid_union (snapshot_peers o) (minute_index b.unix_seconds) in
      elim (b.set_session_uuids union) [ ok _ ↦ some union | err _ ↦ none ]

  abbrev pub of_key_width : Bytes → Option Bytes
  of_key_width bytes = if not (length bytes == bond_key_bytes) then none else some bytes

  unfoldable pub load_bond_key : Text → Option Bytes
  load_bond_key peer_id = b.read_key peer_id >>= of_key_width

  -- the body of the loop of `compute_new_set`
  abbrev pub add_bond : Bond → Dict Bytes → Dict Bytes
  unfolding load_bond_key
  add_bond bond out =
      if is_revoked bond
      then out
      else elim (load_bond_key bond.peer_id) [ some key ↦ insert bond.peer_id key out | none ↦ out ]

  abbrev pub new_set_from : List Bond → Dict Bytes → Dict Bytes
  new_set_from [] out = out
  new_set_from (c ∷ cs) out = new_set_from cs (add_bond c out)

  unfoldable pub compute_new_set : BondStore → Dict Bytes
  compute_new_set store = new_set_from store.bonds []

  abbrev pub keys {ℓ} : {V : Type ℓ} → Dict V → List Text
  keys = map (λ e. e.0)

  -- `to_add`, `to_remove`
  abbrev pub compute_diff : Dict Bytes → Dict PeerEntry → List Text × List Text
  compute_diff new_set peers = (
    filter (λ id. not (contains_key id peers)) (keys new_set),
    filter (λ id. not (contains_key id new_set)) (keys peers),
  )

  unfoldable pub do_remove_peer : Text → Dict PeerEntry → Dict PeerEntry
  do_remove_peer peer_id peers = elim (b.remove_peer peer_id) [
    | ok _ ↦ erase peer_id peers
    | err _ ↦ peers
  ]

  abbrev pub add_with : Text → Bytes → Dict PeerEntry → Bond → Dict PeerEntry
  add_with peer_id key peers bond = elim (b.add_peer peer_id key) [
    | ok _ ↦ insert peer_id (new_entry key (some bond.pubkey)) peers
    | err _ ↦ peers
  ]

  unfoldable pub do_add_peer : BondStore → Text → Bytes → Dict PeerEntry → Dict PeerEntry
  do_add_peer store peer_id key peers = elim (find (has_id peer_id) store.bonds) [
    | none ↦ peers
    | some bond ↦ add_with peer_id key peers bond
  ]

  -- the two loops of `reload_bonds_with_trigger`
  unfoldable pub remove_all : List Text → Dict PeerEntry → Dict PeerEntry
  unfolding do_remove_peer
  remove_all [] peers = peers
  remove_all (id ∷ ids) peers = remove_all ids (do_remove_peer id peers)

  unfoldable pub add_listed : BondStore → Dict Bytes → Text → Dict PeerEntry → Dict PeerEntry
  unfolding do_add_peer
  add_listed store new_set id peers = elim (get id new_set) [
    | some key ↦ do_add_peer store id key peers
    | none ↦ peers
  ]

  unfoldable pub add_all : BondStore → Dict Bytes → List Text → Dict PeerEntry → Dict PeerEntry
  unfolding add_listed
  add_all store new_set [] peers = peers
  add_all store new_set (id ∷ ids) peers =
      add_all store new_set ids (add_listed store new_set id peers)

  unfoldable pub reload_peers : BondStore → Dict PeerEntry → Dict PeerEntry
  unfolding compute_new_set remove_all add_all
  reload_peers store peers =
      let new_set = compute_new_set store in
      let (to_add, to_remove) = compute_diff new_set peers in
      add_all store new_set to_add (remove_all to_remove peers)

  -- `reload_bonds_with_trigger`, with what it publishes
  unfoldable pub reload_bonds : BondStore → Orchestrator → Orchestrator × Option (List Bytes)
  unfolding reload_peers rotate_once
  reload_bonds store o =
      let o' : Orchestrator = record o { peers = reload_peers store o.peers } in
      (o', rotate_once o')

  -- On a store that does not load nothing happens.
  unfoldable pub run_reload :
      Result BondStore BondError → Orchestrator → Orchestrator × Option (List Bytes)
  unfolding reload_bonds
  run_reload (ok store) o = reload_bonds store o
  run_reload (err e) o = (o, none)
