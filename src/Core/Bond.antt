-- ===== src/Core/Bond.antt =====
-- crates/syauth-core/src/bond.rs: the store of bonded phones. An `OffsetDateTime` is a number here,
-- and a `String` its bytes.
pub mod View
pub mod Unique
pub mod Hex
use syauth.Base.{
  ℕ, zero, suc, ◌+◌, ◌*◌, ◌/◌, ◌%◌, Bool, true, false, Bytes, Text, text, bytes_eq, List, [], ◌∷◌,
  ◌++◌, Option, none, some, Result, ok, err, ltb, not, find, position, remove_at, modify_at, get_or,
  flat_map, take, if◌then◌else◌,
}
use syauth.Core.Crypto.{Primitives}

abbrev pub pubkey_len : ℕ
pubkey_len = 32

abbrev pub peer_id_blake3_bytes : ℕ
peer_id_blake3_bytes = 16

abbrev pub peer_id_hex_len : ℕ
peer_id_hex_len = peer_id_blake3_bytes * 2

abbrev pub bond_schema_version_latest : ℕ
bond_schema_version_latest = 1

pub data BondStatus : Type 0 where
  bonded : BondStatus
  revoked : Text → BondStatus

pub record Bond : Type 0 where
  pub peer_id : Text
  pub pubkey : Bytes
  pub name : Text
  pub created_at : ℕ
  pub status : BondStatus

abbrev pub is_revoked_status : BondStatus → Bool
is_revoked_status bonded = false
is_revoked_status (revoked reason) = true

abbrev pub is_revoked : Bond → Bool
is_revoked b = is_revoked_status b.status

pub record BondFile : Type 0 where
  pub schema_version : ℕ
  pub bonds : List Bond

pub record BondStore : Type 0 where
  pub bonds : List Bond

pub data BondError : Type 0 where
  io parse serialize : BondError
  unsupported_schema_version : ℕ → ℕ → BondError
  already_bonded unknown_peer : Text → BondError
  parent_dir_too_permissive : ℕ → ℕ → BondError
  peer_id_mismatch : Text → Text → BondError

abbrev pub hex_chars : Text
hex_chars = text "0123456789abcdef"

-- The two indices are below 16 for a byte.
unfoldable pub hex_lowercase : Bytes → Text
hex_lowercase = flat_map (λ b. get_or hex_chars (b / 16) 0 ∷ get_or hex_chars (b % 16) 0 ∷ [])

unfoldable pub peer_id_from_pubkey : Primitives → Bytes → Text
unfolding hex_lowercase
peer_id_from_pubkey p pubkey = hex_lowercase (take peer_id_blake3_bytes (p.hash pubkey))

abbrev pub has_id : Text → Bond → Bool
has_id id b = bytes_eq b.peer_id id

unfoldable pub find_index : BondStore → Text → Option ℕ
find_index s peer_id = position (has_id peer_id) s.bonds

abbrev pub empty : BondStore
empty = record { bonds = [] }

-- A method on `&mut self` returns its result and the store after it.
abbrev pub Update : Type 0
Update = Result (Unit {0}) BondError × BondStore

unfoldable pub add : BondStore → Bond → Update
unfolding find_index
add s bond = elim (find_index s bond.peer_id) [
  | some _ ↦ (err (already_bonded bond.peer_id), s)
  | none ↦ (ok tt, record s { bonds = s.bonds ++ bond ∷ [] })
]

unfoldable pub remove : BondStore → Text → Update
unfolding find_index
remove s peer_id = elim (find_index s peer_id) [
  | some i ↦ (ok tt, record s { bonds = remove_at s.bonds i })
  | none ↦ (err (unknown_peer peer_id), s)
]

-- A bond that is revoked already keeps its reason.
abbrev pub revoke : Text → Bond → Bond
revoke reason b = if is_revoked b then b else record b { status = revoked reason }

unfoldable pub mark_revoked : BondStore → Text → Text → Update
unfolding find_index
mark_revoked s peer_id reason = elim (find_index s peer_id) [
  | some i ↦ (ok tt, record s { bonds = modify_at s.bonds i (revoke reason) })
  | none ↦ (err (unknown_peer peer_id), s)
]

-- What `fs::read_to_string` answers.
pub data ReadResult : Type 0 where
  contents : Text → ReadResult
  not_found : ReadResult
  failed : ReadResult

-- `toml::from_str` and `toml::to_string` on a bond file; `none` is their error.
pub record Toml : Type 0 where
  pub from_str : Text → Option BondFile
  pub to_string : BondFile → Option Text

module _ (p : Primitives) where
  -- the loop of `load` over the bonds of the file
  unfoldable pub check_ids : List Bond → Result (Unit {0}) BondError
  check_ids [] = ok tt
  check_ids (b ∷ bs) =
      if not (bytes_eq b.peer_id (peer_id_from_pubkey p b.pubkey))
      then err (peer_id_mismatch b.peer_id (peer_id_from_pubkey p b.pubkey))
      else check_ids bs

  unfoldable pub accept_file : BondFile → Result BondStore BondError
  unfolding check_ids
  accept_file f =
      if ltb bond_schema_version_latest f.schema_version
      then err (unsupported_schema_version f.schema_version bond_schema_version_latest)
      else elim (check_ids f.bonds) [ err e ↦ err e | ok _ ↦ ok (record { bonds = f.bonds }) ]

  unfoldable pub load : Toml → ReadResult → Result BondStore BondError
  unfolding accept_file
  load t not_found = ok empty
  load t failed = err io
  load t (contents raw) = elim (t.from_str raw) [ none ↦ err parse | some f ↦ accept_file f ]

unfoldable pub serialize_to_toml : Toml → BondStore → Result Text BondError
serialize_to_toml t s =
    elim (t.to_string (record { schema_version = bond_schema_version_latest; bonds = s.bonds })) [
      | none ↦ err serialize
      | some raw ↦ ok raw
    ]
