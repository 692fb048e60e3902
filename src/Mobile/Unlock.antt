-- ===== src/Mobile/Unlock.antt =====
-- The phone (crates/syauth-mobile/src/implementation.rs) answers the daemon
-- (crates/syauth-presenced/src/orchestrator.rs).
use syauth.Base.{ℕ, true, false, Bytes, Text, get, [], some, ok, length, bytes_eq_refl, ◌≡◌, refl}
use syauth.Core.Frame.{nonce_len, body_bytes}
use syauth.Core.Crypto.{Primitives, signature_len, compute_tag, verify_tag, sign_frame}
use syauth.Presence.Nonces.{contains}
use syauth.Presence.Peers.{Orchestrator, PeerEntry}
use syauth.Presence.Challenge.{ok_signature, Answers, issue_challenge}
use syauth.Presence.Challenge.Verdict.{signed, challenge_bytes}
use syauth.Presence.Challenge.Wire.{decode-challenge}
use syauth.Presence.Challenge.Acceptance.{Accepts}
use syauth.Presence.Challenge.Grant.{Granted, issue_challenge-Granted}
use syauth.Mobile.{
  bond_key_array, verify_decoded, verify_challenge_frame, sign_decoded, sign_challenge_response,
}

module _ (p : Primitives) (nonce bond_key : Bytes) where
  -- The phone takes a challenge that the daemon made with the bond key that both hold.
  pub verify_challenge_frame-challenge_bytes :
      length nonce ≡ nonce_len
      → ((key body : Bytes) → length (p.keyed_hash key body) ≡ 32)
      → length bond_key ≡ 32
      → verify_challenge_frame p bond_key (challenge_bytes p nonce bond_key) ≡ some (ok [])
  unfolding verify_challenge_frame bond_key_array verify_decoded body_bytes verify_tag
  verify_challenge_frame-challenge_bytes width hash key =
      rw
        (
          verify_challenge_frame,
          bond_key_array,
          key,
          decode-challenge p nonce bond_key width hash,
          verify_decoded,
          verify_tag,
          bytes_eq_refl (compute_tag p bond_key (signed nonce)),
        )
        refl

  -- What the phone answers is the signature of its key over the body of that challenge.
  pub sign_challenge_response-challenge_bytes :
      (signing_key : Bytes)
      → length nonce ≡ nonce_len
      → ((key body : Bytes) → length (p.keyed_hash key body) ≡ 32)
      → length signing_key ≡ 32
      → sign_challenge_response p signing_key (challenge_bytes p nonce bond_key)
        ≡ some (ok (p.sign signing_key (signed nonce)))
  unfolding sign_challenge_response sign_decoded sign_frame body_bytes
  sign_challenge_response-challenge_bytes signing_key width hash key =
      rw (key, decode-challenge p nonce bond_key width hash) refl

module _ (p : Primitives) (a : Answers) (peer_id : Text) (deadline : ℕ) (o : Orchestrator)
    (entry : PeerEntry) (signing_key pubkey nonce : Bytes) where
  -- What blake3 and ed25519-dalek promise of the keys of one phone.
  pub record KeyPair : Type 0 where
    pub hash_width : (key body : Bytes) → length (p.keyed_hash key body) ≡ 32
    pub key_width : length signing_key ≡ 32
    pub point : p.is_point pubkey ≡ true
    pub sig_width : (m : Bytes) → length (p.sign signing_key m) ≡ signature_len
    pub sig_form : (m : Bytes) → p.is_signature (p.sign signing_key m) ≡ true
    pub strict : (m : Bytes) → p.verify_strict pubkey m (p.sign signing_key m) ≡ true

  -- The daemon knows the phone's key, draws a new nonce, and its notification succeeds; what comes back
  -- is what `sign_challenge_response` computes from the notified bytes.
  pub record Reachable : Type 0 where
    pub registered : get peer_id o.peers ≡ some entry
    pub keyed : entry.phone_pubkey ≡ some pubkey
    pub free : a.acquired ≡ true
    pub drawn : a.fill ≡ some nonce
    pub nonce_width : length nonce ≡ nonce_len
    pub unseen : contains entry.nonce_cache nonce ≡ false
    pub notified : a.notify_challenge peer_id (challenge_bytes p nonce entry.bond_key) ≡ ok tt
    pub answered :
        (signature : Bytes)
        → sign_challenge_response p signing_key (challenge_bytes p nonce entry.bond_key)
          ≡ some (ok signature)
        → a.wait_for_response peer_id deadline ≡ ok signature

  -- The daemon accepts what the library's `sign_challenge_response` computes: where the challenge that it
  -- notified for a new nonce is answered with the result of that function for the peer's signing key, and
  -- the key pair works as documented, the call ends in `Ok` with the signature over version and nonce.
  pub issue_challenge-sign_challenge_response :
      KeyPair
      → Reachable
      → (issue_challenge p a peer_id deadline o).0
        ≡ ok_signature (p.sign signing_key (signed nonce))
  issue_challenge-sign_challenge_response k r =
      (issue_challenge-Granted p a peer_id deadline o (p.sign signing_key (signed nonce))).1 granted
    where
      accepts :
          Accepts p a peer_id nonce pubkey entry.nonce_cache o.audit_log deadline entry.bond_key
            (p.sign signing_key (signed nonce))
      accepts = record {
        notified = r.notified;
        answered = r.answered (p.sign signing_key (signed nonce)) (
            sign_challenge_response-challenge_bytes p nonce entry.bond_key signing_key r.nonce_width
              k.hash_width k.key_width);
        width = k.sig_width (signed nonce);
        parsed = k.sig_form (signed nonce);
        point = k.point;
        verified = k.strict (signed nonce);
        unseen = r.unseen;
      }

      granted : Granted p a peer_id deadline o (p.sign signing_key (signed nonce))
      granted = record {
        entry = entry;
        pubkey = pubkey;
        nonce = nonce;
        registered = r.registered;
        keyed = r.keyed;
        free = r.free;
        drawn = r.drawn;
        accepted = accepts;
      }
