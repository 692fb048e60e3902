-- ===== src/Presence/Challenge/Wire.antt =====
-- What the phone gets from a challenge of crates/syauth-presenced/src/orchestrator.rs.
use syauth.Base.{
  true, Bytes, [], some, Result, ok, length, length-take, bytes_eq_refl, ◌≡◌, refl, ap, ◌∙◌, arith,
}
use syauth.Core.Frame.{Frame, FrameError, IsTyped, nonce_len, tag_len, encode, decode, body_bytes}
use syauth.Core.Frame.RoundTrip.{decode-encode}
use syauth.Core.Crypto.{Primitives, compute_tag, verify_tag}
use syauth.Presence.Challenge.Verdict.{signed, challenge, challenge_bytes}

module _ (p : Primitives) (nonce bond_key : Bytes) where
  pub decode-challenge :
      length nonce ≡ nonce_len
      → ((key body : Bytes) → length (p.keyed_hash key body) ≡ 32)
      → decode (challenge_bytes p nonce bond_key) ≡ some (ok (challenge p nonce bond_key))
  unfolding compute_tag encode
  decode-challenge width hash =
      let f : Frame = challenge p nonce bond_key in
      let (w, written, read, _) = decode-encode f [] typed refl (omega arith) in
      ap decode (same w written) ∙ read
    where
      typed : IsTyped (challenge p nonce bond_key)
      typed = record {
        nonce_width = width;
        tag_width =
            length-take tag_len (p.keyed_hash bond_key (signed nonce))
            ∙ omega (arith, hash bond_key (signed nonce));
      }

      same :
          (w : Bytes)
          → encode (challenge p nonce bond_key) [] ≡ (ok tt, w)
          → challenge_bytes p nonce bond_key ≡ w
      same w h = ap (λ (r : Result (Unit {0}) FrameError × Bytes). r.1) h

  -- The bytes that a challenge of a 16-byte nonce notifies decode as a frame, whose tag verifies under
  -- the peer's bond key over the body of that frame, where the keyed hash has 32 bytes.
  pub decode-challenge_bytes :
      length nonce ≡ nonce_len
      → ((key body : Bytes) → length (p.keyed_hash key body) ≡ 32)
      → (f : Frame) × (body : Bytes) × (decode (challenge_bytes p nonce bond_key) ≡ some (ok f))
        × (f.nonce ≡ nonce)
        × (body_bytes f ≡ ok body)
        × (verify_tag p bond_key body f.tag ≡ true)
  unfolding compute_tag verify_tag body_bytes
  decode-challenge_bytes width hash =
      let f : Frame = challenge p nonce bond_key in
      (f, signed nonce, decode-challenge width hash, refl, refl, bytes_eq_refl f.tag)
