-- ===== src/Mobile/ResponseFrame.antt =====
-- `build_response_frame` of crates/syauth-mobile/src/implementation.rs, and what the daemon
-- (crates/syauth-presenced/src/orchestrator.rs) makes of its frame.
use syauth.Base.{
  ℕ, Bytes, [], ◌∷◌, ◌++◌, Option, none, some, ok, length, length-take, ◌≡◌, refl, ap, ◌∙◌, arith,
}
use syauth.Core.Frame.{Frame, IsTyped, nonce_len, tag_len, encode, decode, body_bytes}
use syauth.Core.Frame.RoundTrip.{decode-encode}
use syauth.Core.Crypto.{Primitives, compute_tag}
use syauth.Presence.Audit.{AuditLog}
use syauth.Presence.Nonces.{NonceCache}
use syauth.Presence.Challenge.{
  bad_signature, Answers, parse_signature, check_response, exchange, run_challenge,
}
use syauth.Presence.Challenge.Verdict.{signed, challenge_bytes, run_challenge-exchange}
use syauth.Mobile.{bond_key_array, response_frame, encoded, answer_challenge, build_response_frame}
use syauth.Presence.Challenge.Wire.{decode-challenge}

module _ (p : Primitives) (nonce bond_key response_nonce : Bytes) (signer : Bytes → Bytes) where
  -- What a response frame takes: the widths that the types say, a signer that gives 64 bytes.
  pub record Answerable : Type 0 where
    pub nonce_width : length nonce ≡ nonce_len
    pub response_width : length response_nonce ≡ nonce_len
    pub hash_width : (key body : Bytes) → length (p.keyed_hash key body) ≡ 32
    pub key_width : length bond_key ≡ 32
    pub sig_width : length (signer (signed nonce)) ≡ 64

  abbrev sig_bytes : Bytes
  sig_bytes = signer (signed nonce)

  abbrev pub response : Frame
  response = response_frame p bond_key response_nonce sig_bytes

  response-IsTyped : Answerable → IsTyped response
  unfolding compute_tag
  response-IsTyped h = record {
    nonce_width = h.response_width;
    tag_width =
        length-take tag_len (p.keyed_hash bond_key _)
        ∙ omega (arith, h.hash_width bond_key (1 ∷ (response_nonce ++ sig_bytes)));
  }

  build-encoded :
      Answerable
      → build_response_frame p signer response_nonce bond_key (challenge_bytes p nonce bond_key)
        ≡ some (encoded p (encode response []))
  unfolding build_response_frame answer_challenge bond_key_array body_bytes
  build-encoded h =
      rw
        (
          build_response_frame,
          bond_key_array,
          h.key_width,
          decode-challenge p nonce bond_key h.nonce_width h.hash_width,
          answer_challenge,
          h.sig_width,
        )
        refl

  -- The answer to a challenge is a frame of 97 bytes that decodes, with the phone's signature over the
  -- body of the challenge as its payload.
  pub build_response_frame-decode :
      Answerable
      → (w : Bytes) × (build_response_frame p signer response_nonce bond_key
            (challenge_bytes p nonce bond_key)
          ≡ some (ok w))
        × (decode w ≡ some (ok response))
        × (length w ≡ 97)
  build_response_frame-decode h =
      let (w, written, read, width) =
        decode-encode response [] (response-IsTyped h) refl (omega (arith, h.sig_width)) in
      (
        w,
        build-encoded h ∙ ap (λ r. some (encoded p r)) written,
        read,
        width ∙ omega (arith, h.sig_width),
      )

  module _ (a : Answers) (peer_id pubkey : Bytes) (cache : NonceCache) (log : Option AuditLog)
      (deadline : ℕ) where
    wide-refused : (w : Bytes) → length w ≡ 97 → parse_signature p a w ≡ none
    unfolding parse_signature
    wide-refused w h = rw h refl

    -- A daemon that gets this frame for an answer refuses it: the run ends in `bad_signature`, since
    -- 97 bytes are no signature.
    pub run_challenge-build_response_frame :
        Answerable
        → a.notify_challenge peer_id (challenge_bytes p nonce bond_key) ≡ ok tt
        → ((w : Bytes)
            → build_response_frame p signer response_nonce bond_key
                (challenge_bytes p nonce bond_key)
              ≡ some (ok w)
            → a.wait_for_response peer_id deadline ≡ ok w)
        → (run_challenge p a peer_id nonce pubkey cache log deadline bond_key).0 ≡ bad_signature
    unfolding exchange check_response
    run_challenge-build_response_frame h notified answers =
        let (w, built, _, width) = build_response_frame-decode h in
        rw
          (
            run_challenge-exchange p a peer_id nonce pubkey cache log deadline bond_key,
            notified,
            answers w built,
            exchange,
            wide-refused w width,
            check_response,
          )
          refl
