-- ===== src/Mobile.antt =====
-- crates/syauth-mobile/src/implementation.rs: what the phone computes. The reasons of the errors are
-- left out: they are shown to the user only.
pub mod Unlock
pub mod ResponseFrame
pub mod Verified
pub mod Invite
use syauth.Base.{
  ℕ, Bool, not, Bytes, Text, text, List, [], ◌∷◌, ◌++◌, Option, none, some, Result, ok, err, ◌==◌,
  length, map, get_or, if◌then◌else◌,
}
use syauth.Core.Frame.{Frame, FrameError, encode, decode, body_bytes, syauth_wire_version_v1}
use syauth.Core.Crypto.{Primitives, bond_key_bytes, compute_tag, verify_tag, sign_frame}
use syauth.Transport.Session.{be_bytes, hkdf_info_session_v1}
use syauth.Cli.Oob.{Expand, hkdf_info_oob_v1}
use syauth.Cli.Oob.Words.{oob_words}

abbrev pub ed25519_secret_key_len : ℕ
ed25519_secret_key_len = 32

abbrev pub mobile_bond_key_len : ℕ
mobile_bond_key_len = bond_key_bytes

abbrev pub ed25519_signature_len : ℕ
ed25519_signature_len = 64

pub data MobileError : Type 0 where
  invalid_invite invalid_key bad_frame verify_failed sign_failed : MobileError

unfoldable pub bond_key_array : Bytes → Result Bytes MobileError
bond_key_array bond_key =
    if not (length bond_key == mobile_bond_key_len) then err invalid_key else ok bond_key

-- The rest of a function after `Frame::decode(…)?`; `none` is a panic of `decode`.
abbrev pub after_decode :
    (Frame → Result Bytes MobileError)
    → Option (Result Frame FrameError)
    → Option (Result Bytes MobileError)
after_decode rest none = none
after_decode rest (some (err e)) = some (err bad_frame)
after_decode rest (some (ok frame)) = some (rest frame)

module _ (p : Primitives) where
  unfoldable pub verify_decoded : Bytes → Frame → Result Bytes MobileError
  verify_decoded bond_key frame = elim (body_bytes frame) [
    | err e ↦ err bad_frame
    | ok body ↦
        if not (verify_tag p bond_key body frame.tag) then err verify_failed else ok frame.payload
  ]

  unfoldable pub verify_challenge_frame : Bytes → Bytes → Option (Result Bytes MobileError)
  unfolding verify_decoded
  verify_challenge_frame bond_key frame_bytes = elim (bond_key_array bond_key) [
    | err e ↦ some (err e)
    | ok key ↦ after_decode (verify_decoded key) (decode frame_bytes)
  ]

  unfoldable pub sign_decoded : Bytes → Frame → Result Bytes MobileError
  sign_decoded signing_key frame = elim (sign_frame p signing_key frame) [
    | err e ↦ err sign_failed
    | ok sig ↦ ok sig
  ]

  unfoldable pub sign_challenge_response : Bytes → Bytes → Option (Result Bytes MobileError)
  unfolding sign_decoded
  sign_challenge_response signing_key frame_bytes =
      if not (length signing_key == ed25519_secret_key_len)
      then some (err invalid_key)
      else after_decode (sign_decoded signing_key) (decode frame_bytes)

  -- the frame that answers, with the signature as its payload
  abbrev pub response_frame : Bytes → Bytes → Bytes → Frame
  response_frame bond_key response_nonce sig_bytes = record {
    version = syauth_wire_version_v1;
    nonce = response_nonce;
    payload = sig_bytes;
    tag = compute_tag p bond_key (syauth_wire_version_v1 ∷ (response_nonce ++ sig_bytes));
  }

  abbrev pub encoded : Result (Unit {0}) FrameError × Bytes → Result Bytes MobileError
  encoded (err e, out) = err sign_failed
  encoded (ok _, out) = ok out

  -- `build_response_frame` from the decoded challenge on: `signer` is the foreign `FrameSigner`, and
  -- `response_nonce` what the random generator gives.
  unfoldable pub answer_challenge :
      (Bytes → Bytes) → Bytes → Bytes → Frame → Result Bytes MobileError
  answer_challenge signer response_nonce bond_key challenge = elim (body_bytes challenge) [
    | err e ↦ err bad_frame
    | ok unsigned_body ↦
        let sig_bytes = signer unsigned_body in
        if not (length sig_bytes == ed25519_signature_len)
        then err sign_failed
        else encoded (encode (response_frame bond_key response_nonce sig_bytes) [])
  ]

  unfoldable pub build_response_frame :
      (Bytes → Bytes) → Bytes → Bytes → Bytes → Option (Result Bytes MobileError)
  unfolding answer_challenge
  build_response_frame signer response_nonce bond_key challenge_frame_bytes =
      elim (bond_key_array bond_key) [
        | err e ↦ some (err e)
        | ok key ↦
            after_decode (answer_challenge signer response_nonce key) (decode challenge_frame_bytes)
      ]

-- The words of the bond key; the phone's table holds the words of the command's.
unfoldable pub oob_words_of : Expand → Bytes → Result (List Text) MobileError
oob_words_of hkdf key = elim (hkdf key hkdf_info_oob_v1) [
  | none ↦ err invalid_key
  | some out ↦ ok (map (λ (i : ℕ). get_or oob_words i []) out)
]

unfoldable pub oob_code_for_bond : Expand → Bytes → Result (List Text) MobileError
unfolding oob_words_of
oob_code_for_bond hkdf bond_key = elim (bond_key_array bond_key) [
  | err e ↦ err e
  | ok key ↦ oob_words_of hkdf key
]

-- `hkdf` expands to 16 bytes; the minute is not negative.
unfoldable pub uuid_of : (Bytes → Bytes → Option Bytes) → Bytes → ℕ → Result Bytes MobileError
uuid_of hkdf key minute = elim (hkdf key (hkdf_info_session_v1 ++ be_bytes 8 minute)) [
  | none ↦ err invalid_key
  | some out ↦ ok out
]

unfoldable pub session_uuid_for_bond :
    (Bytes → Bytes → Option Bytes) → Bytes → ℕ → Result Bytes MobileError
unfolding uuid_of
session_uuid_for_bond hkdf bond_key minute = elim (bond_key_array bond_key) [
  | err e ↦ err e
  | ok key ↦ uuid_of hkdf key minute
]
