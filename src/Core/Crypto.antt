-- ===== src/Core/Crypto.antt =====
-- crates/syauth-core/src/mac.rs and sign.rs: the tag and the signature over a frame's body.
-- `blake3` and `ed25519-dalek` are parameters.
pub mod Signing
use syauth.Base.{ℕ, Bool, Bytes, Result, ok, err, and_then, take, bytes_eq, if◌then◌else◌}
use syauth.Core.Frame.{Frame, FrameError, tag_len, body_bytes}

-- What the code calls of the two crates. A key, a public key and a signature are their bytes.
pub record Primitives : Type 0 where
  -- `blake3::hash` and `blake3::keyed_hash`
  pub hash : Bytes → Bytes
  pub keyed_hash : Bytes → Bytes → Bytes
  -- `SigningKey::sign`, by the key and the message
  pub sign : Bytes → Bytes → Bytes
  -- `VerifyingKey::from_bytes` accepts the bytes
  pub is_point : Bytes → Bool
  -- `Signature::from_slice` accepts the 64 bytes
  pub is_signature : Bytes → Bool
  -- `VerifyingKey::verify_strict`, by the public key, the message and the signature
  pub verify_strict : Bytes → Bytes → Bytes → Bool

pub data VerifyError : Type 0 where
  signature : VerifyError
  bad_encoding : FrameError → VerifyError

abbrev pub bond_key_bytes : ℕ
bond_key_bytes = 32

abbrev pub signature_len : ℕ
signature_len = 64

module _ (p : Primitives) where
  unfoldable pub compute_tag : Bytes → Bytes → Bytes
  compute_tag bond_key frame_body = take tag_len (p.keyed_hash bond_key frame_body)

  -- `ct_eq` compares all the bytes.
  unfoldable pub verify_tag : Bytes → Bytes → Bytes → Bool
  verify_tag bond_key frame_body tag = bytes_eq (compute_tag bond_key frame_body) tag

  unfoldable pub sign_frame : Bytes → Frame → Result Bytes FrameError
  sign_frame privkey frame = and_then (body_bytes frame) (λ body. ok (p.sign privkey body))

  -- `verify_frame` from the body on
  unfoldable pub verify_body :
      Bytes → Bytes → Result Bytes FrameError → Result (Unit {0}) VerifyError
  verify_body pubkey sig (err e) = err (bad_encoding e)
  verify_body pubkey sig (ok body) =
      if p.verify_strict pubkey body sig then ok tt else err signature

  unfoldable pub verify_frame : Bytes → Frame → Bytes → Result (Unit {0}) VerifyError
  unfolding verify_body
  verify_frame pubkey frame sig = verify_body pubkey sig (body_bytes frame)
