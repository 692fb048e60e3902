-- ===== src/Cli/Pair.antt =====
-- crates/syauth-cli/src/pair.rs: the flow of `syauth pair`, over the answers of its backend, of the
-- operator and of the file system. Files whose content nothing here reads have no place in the state.
pub mod Flow
pub mod Gates
pub mod Ensures
pub mod Stored
pub mod Picked
pub mod Bonded
use syauth.Base.{
  ℕ, ◌==◌, Bool, true, false, not, ◌||◌, Bytes, Text, text, bytes_eq, Dict, insert, List, [], ◌∷◌,
  ◌++◌, Option, none, some, is_some, Result, ok, err, filter, map, take, if◌then◌else◌,
}
use syauth.Core.Crypto.{Primitives}
use syauth.Core.Bond.{
  Bond, BondStore, BondError, already_bonded, Update, bonded, add, remove, peer_id_from_pubkey,
}
use syauth.Cli.Oob.{Expand, oob_code_for_bond}

abbrev pub numeric_code_not_observed : ℕ
numeric_code_not_observed = 0

abbrev pub lesc_unsupported_hint : Text
lesc_unsupported_hint =
    text "adapter does not advertise LE Secure Connections (kernel < 5.4 or older controller)"

pub record PairOpts : Type 0 where
  pub adapter : Text
  pub peer : Option Text
  pub timeout_secs : ℕ
  pub yes_flag : Bool
  pub waybar : Bool
  pub force : Bool
  pub scripted_oob : Option Text

pub record PairCandidate : Type 0 where
  pub name : Text
  pub address : Text

pub record LescOutcome : Type 0 where
  pub peer_pubkey : Bytes
  pub bond_key : Bytes
  pub numeric_code : ℕ

pub record AdapterInfo : Type 0 where
  pub name : Text
  pub supports_lesc : Bool

pub data ConfirmSource : Type 0 where
  stdio auto_accept waybar_applet : ConfirmSource

abbrev pub from_opts : PairOpts → ConfirmSource
from_opts opts =
    if opts.yes_flag || is_some opts.scripted_oob
    then auto_accept
    else if opts.waybar
    then waybar_applet
    else stdio

pub data RevokeReason : Type 0 where
  timeout operator_reject : RevokeReason

pub data PairingPhase : Type 0 where
  scanning awaiting_lesc : PairingPhase
  awaiting_oob_confirmation : List Text → PairingPhase
  provisional_bonded : Text → PairingPhase
  phase_bonded : PairingPhase
  phase_revoked : RevokeReason → PairingPhase

pub data PairingVariant : Type 0 where
  passkey_confirmation just_works legacy_pin passkey_entry oob_only : PairingVariant

pub data PairError : Type 0 where
  adapter_missing : Text → PairError
  lesc_unsupported : Text → Text → PairError
  no_peers : PairError
  ambiguous_peer : List Text → PairError
  peer_not_found : PairError
  pair_revoked : RevokeReason → PairError
  bond_error : BondError → PairError
  peer_already_bonded : Text → PairError
  pair_backend : Text → PairError
  downgrade_blocked : PairingVariant → PairError
  unsupported_pairing_variant : PairingVariant → PairError
  pair_io : PairError

abbrev pub variant_name : PairingVariant → Text
variant_name passkey_confirmation = text "passkey-confirmation"
variant_name just_works = text "just-works"
variant_name legacy_pin = text "legacy-pin"
variant_name passkey_entry = text "passkey-entry"
variant_name oob_only = text "oob-only"

unfoldable pub decide_pairing : PairingVariant → Result (Unit {0}) PairError
decide_pairing passkey_confirmation = ok tt
decide_pairing just_works = err (downgrade_blocked just_works)
decide_pairing variant = err (unsupported_pairing_variant variant)

pub data OobConfirmation : Type 0 where
  accept reject : OobConfirmation

-- What the flow calls of `str`: `trim().to_ascii_lowercase()`, and `haystack.contains(needle)`.
pub record TextOps : Type 0 where
  pub trimmed_lowercase : Text → Text
  pub contains : Text → Text → Bool

module _ (ops : TextOps) where
  unfoldable pub parse_yes_no : Text → OobConfirmation
  parse_yes_no line =
      let trimmed = ops.trimmed_lowercase line in
      if bytes_eq trimmed (text "y") || bytes_eq trimmed (text "yes") then accept else reject

  unfoldable pub filter_candidates : List PairCandidate → Option Text → List PairCandidate
  filter_candidates candidates none = candidates
  filter_candidates candidates (some needle) =
      filter (λ (c : PairCandidate). ops.contains c.name needle) candidates

abbrev pub candidate_name : PairCandidate → Text
candidate_name c = c.name

abbrev picker_reason : Text
picker_reason =
    text "ambiguous peer without --yes; interactive picker is selected in run_pair_with_io"

unfoldable pub pick_unambiguous : List PairCandidate → Bool → Result PairCandidate PairError
pick_unambiguous [] auto_pick = err peer_not_found
pick_unambiguous (c ∷ []) auto_pick = ok c
pick_unambiguous (c ∷ d ∷ rest) auto_pick =
    if auto_pick
    then err (ambiguous_peer (map candidate_name (c ∷ d ∷ rest)))
    else err (pair_backend picker_reason)

unfoldable pub build_bond_with_time : Primitives → LescOutcome → PairCandidate → ℕ → Bond
build_bond_with_time p outcome peer now = record {
  peer_id = peer_id_from_pubkey p outcome.peer_pubkey;
  pubkey = outcome.peer_pubkey;
  name = peer.name;
  created_at = now;
  status = bonded;
}
