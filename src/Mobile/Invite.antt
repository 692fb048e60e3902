-- ===== src/Mobile/Invite.antt =====
-- `parse_invite_uri` of crates/syauth-mobile/src/implementation.rs. `hex::decode` is a parameter.
pub mod Links
pub mod Shown
use syauth.Base.{
  ℕ, Bool, true, false, not, Bytes, Text, text, List, [], ◌∷◌, ◌++◌, Option, none, some, Result, ok,
  err, ◌==◌, length, bytes_eq, bytes_eq_refl, strip_prefix, if◌then◌else◌, ◌≡◌, ◌≢◌, refl, sym, ap,
  ◌∙◌, arith,
}
use syauth.Mobile.{MobileError, invalid_invite}

abbrev pub invite_uri_scheme : Text
invite_uri_scheme = text "syauth://"

abbrev pub invite_uri_host_path : Text
invite_uri_host_path = text "invite?"

abbrev pub invite_query_key_host : Text
invite_query_key_host = text "host"

abbrev pub invite_query_key_pubkey : Text
invite_query_key_pubkey = text "pubkey"

abbrev pub invite_pubkey_len : ℕ
invite_pubkey_len = 32

pub record Invite : Type 0 where
  pub host_name : Text
  pub host_pubkey : Bytes

abbrev pub onto_first : ℕ → List Text → List Text
onto_first c [] = (c ∷ []) ∷ []
onto_first c (t ∷ ts) = (c ∷ t) ∷ ts

-- `query.split('&')`
unfoldable pub split_ampersand : Text → List Text
split_ampersand [] = [] ∷ []
split_ampersand (c ∷ cs) =
    let rest = split_ampersand cs in if c == b'&' then [] ∷ rest else onto_first c rest

abbrev pub under_key : ℕ → Text × Text → Text × Text
under_key c (key, value) = (c ∷ key, value)

-- `pair.splitn(2, '=')`, with the value empty where there is no `=`
unfoldable pub key_value : Text → Text × Text
key_value [] = ([], [])
key_value (c ∷ cs) = let rest = key_value cs in if c == b'=' then ([], cs) else under_key c rest

-- The host name and the hexadecimal key that the loop has found.
abbrev pub Found : Type 0
Found = Option Text × Option Text

unfoldable pub take_pair : Text × Text → Found → Result Found MobileError
take_pair (key, value) (host_name, host_pubkey_hex) =
    if bytes_eq key invite_query_key_host
    then (if bytes_eq value [] then err invalid_invite else ok (some value, host_pubkey_hex))
    else if bytes_eq key invite_query_key_pubkey
    then ok (host_name, some value)
    else ok (host_name, host_pubkey_hex)

-- the loop
unfoldable pub collect_pairs : List Text → Found → Result Found MobileError
collect_pairs [] f = ok f
collect_pairs ([] ∷ pairs) f = collect_pairs pairs f
collect_pairs ((c ∷ cs) ∷ pairs) f = elim (take_pair (key_value (c ∷ cs)) f) [
  | err e ↦ err e
  | ok g ↦ collect_pairs pairs g
]

module _ (hex_decode : Text → Option Bytes) where
  abbrev pub with_pubkey : Text → Option Bytes → Result Invite MobileError
  with_pubkey host_name none = err invalid_invite
  with_pubkey host_name (some host_pubkey) =
      if not (length host_pubkey == invite_pubkey_len)
      then err invalid_invite
      else ok (record { host_name = host_name; host_pubkey = host_pubkey })

  -- after the loop
  unfoldable pub finish_invite : Result Found MobileError → Result Invite MobileError
  finish_invite (err e) = err e
  finish_invite (ok (none, host_pubkey_hex)) = err invalid_invite
  finish_invite (ok (some host_name, none)) = err invalid_invite
  finish_invite (ok (some host_name, some host_pubkey_hex)) =
      with_pubkey host_name (hex_decode host_pubkey_hex)

  abbrev pub parse_query : Option Text → Result Invite MobileError
  parse_query none = err invalid_invite
  parse_query (some query) = finish_invite (collect_pairs (split_ampersand query) (none, none))

  abbrev pub parse_path : Option Text → Result Invite MobileError
  parse_path none = err invalid_invite
  parse_path (some after_scheme) = parse_query (strip_prefix invite_uri_host_path after_scheme)

  unfoldable pub parse_invite_uri : Text → Result Invite MobileError
  parse_invite_uri uri = parse_path (strip_prefix invite_uri_scheme uri)
