-- ===== src/Mobile/Verified.antt =====
-- Which frames `verify_challenge_frame` of crates/syauth-mobile/src/implementation.rs takes.
use syauth.Base.{
  sym, ◌∙◌, subst, bytes_eq, ℕ, ◌≤◌, ◌++◌, ◌∷◌, [], take, le→ltb-false, bytes_eq_refl,
  eq_of-bytes_eq, true, Bytes, Option, none, some, Result, ok, err, ◌==◌, ==_iff, length, ◌≡◌, ◌≢◌,
  ◌↔◌, refl, ap, Bool-cases, Result-cases, inl, inr,
}
use syauth.Core.Frame.{Frame, FrameError, decode, body_bytes}
use syauth.Core.Frame.RoundTrip.{wire, decode-wire, encode-wire}
use syauth.Core.Frame.Verdict.{encode-decode}
use syauth.Core.Crypto.{Primitives, compute_tag, verify_tag}
use syauth.Mobile.{
  MobileError, invalid_key, bad_frame, verify_failed, bond_key_array, after_decode, verify_decoded,
  verify_challenge_frame,
}

module _ (p : Primitives) (bond_key bytes payload : Bytes) where
  -- what the code has checked
  record Judged : Type 0 where
    pub frame : Frame
    pub body : Bytes
    pub key_width : length bond_key ≡ 32
    pub decoded : decode bytes ≡ some (ok frame)
    pub has_body : body_bytes frame ≡ ok body
    pub tagged : verify_tag p bond_key body frame.tag ≡ true
    pub carried : frame.payload ≡ payload

  from_Judged : Judged → verify_challenge_frame p bond_key bytes ≡ some (ok payload)
  unfolding verify_challenge_frame bond_key_array verify_decoded
  from_Judged v =
      rw
        (
          verify_challenge_frame, bond_key_array, v.key_width, v.decoded, verify_decoded,
          v.has_body, v.tagged,
        )
        (ap (λ (b : Bytes). some (ok b)) v.carried)

  abbrev Outcome : Type 0
  Outcome = Option (Result Bytes MobileError)

  refused : (e : MobileError) → ◌≢◌ {A = Outcome} (some (err e)) (some (ok payload))
  refused e h = cc

  panicked : ◌≢◌ {A = Outcome} none (some (ok payload))
  panicked h = cc

  same_payload : {b : Bytes} → ◌≡◌ {A = Outcome} (some (ok b)) (some (ok payload)) → b ≡ payload
  same_payload h = cc

  decoded-Judged :
      (frame : Frame)
      → length bond_key ≡ 32
      → decode bytes ≡ some (ok frame)
      → ◌≡◌ {A = Outcome} (some (verify_decoded p bond_key frame)) (some (ok payload))
      → Judged
  unfolding verify_decoded
  decoded-Judged frame w d h = elim (Result-cases (body_bytes frame)) [
    | inl (e, b) ↦ absurd (refused bad_frame (rw (b, verify_decoded) at h))
    | inr (body, b) ↦ elim (Bool-cases (verify_tag p bond_key body frame.tag)) [
      | inl t ↦ record {
        frame = frame;
        body = body;
        key_width = w;
        decoded = d;
        has_body = b;
        tagged = t;
        carried = same_payload (rw (b, t, verify_decoded) at h);
      }
      | inr t ↦ absurd (refused verify_failed (rw (b, t, verify_decoded) at h))
    ]
  ]

  keyed-Judged :
      length bond_key ≡ 32
      → (d : Option (Result Frame FrameError)) → decode bytes ≡ d
      → after_decode (verify_decoded p bond_key) d ≡ some (ok payload)
      → Judged
  keyed-Judged w none d h = absurd (panicked h)
  keyed-Judged w (some (err e)) d h = absurd (refused bad_frame h)
  keyed-Judged w (some (ok frame)) d h = decoded-Judged frame w d h

  to_Judged : verify_challenge_frame p bond_key bytes ≡ some (ok payload) → Judged
  unfolding verify_challenge_frame bond_key_array
  to_Judged h = elim (Bool-cases (length bond_key == 32)) [
    | inl w ↦
        keyed-Judged ((==_iff (length bond_key) 32).0 w) (decode bytes) refl
          (rw (verify_challenge_frame, bond_key_array, w) at h)
    | inr w ↦ absurd (refused invalid_key (rw (verify_challenge_frame, bond_key_array, w) at h))
  ]

  -- The bytes are a frame with the payload on the wire: the version 1, 16 bytes of nonce, the payload,
  -- and for a tag the first 16 bytes of the keyed hash of all before it under the bond key.
  pub record Verified : Type 0 where
    pub nonce : Bytes
    pub tag : Bytes
    pub key_bytes : length bond_key ≡ 32
    pub nonce_bytes : length nonce ≡ 16
    pub tag_bytes : length tag ≡ 16
    pub fits : length payload ≤ 4096
    pub parts : bytes ≡ 1 ∷ (nonce ++ (payload ++ tag))
    pub hashed : tag ≡ take 16 (p.keyed_hash bond_key (1 ∷ (nonce ++ payload)))

  abbrev framed : Verified → Frame
  framed v = record { version = 1; nonce = v.nonce; payload = payload; tag = v.tag }

  Verified-Judged : Verified → Judged
  unfolding body_bytes verify_tag compute_tag
  Verified-Judged v = record {
    frame = framed v;
    body = 1 ∷ (v.nonce ++ payload);
    key_width = v.key_bytes;
    decoded =
        ap decode v.parts
        ∙ decode-wire (framed v) (record { nonce_width = v.nonce_bytes; tag_width = v.tag_bytes })
            refl v.fits;
    has_body = rw (le→ltb-false 4096 (length payload) v.fits) refl;
    tagged = ap (bytes_eq _) v.hashed ∙ bytes_eq_refl _;
    carried = refl;
  }

  same_bytes :
      {x y : Bytes} → ◌≡◌ {A = Result (Unit {0}) FrameError × Bytes} (ok tt, x) (ok tt, y) → x ≡ y
  same_bytes h = ap (λ (r : Result (Unit {0}) FrameError × Bytes). r.1) h

  Judged-Verified : Judged → Verified
  unfolding verify_tag compute_tag body_bytes
  Judged-Verified j =
      let (encoded, typed, v, fits) = encode-decode bytes j.frame [] j.decoded in
      let on_wire : bytes ≡ wire j.frame = same_bytes (sym encoded ∙ encode-wire j.frame [] fits) in
      let body : j.body ≡ 1 ∷ (j.frame.nonce ++ payload) =
        same_body (sym j.has_body ∙ rw (le→ltb-false 4096 (length j.frame.payload) fits) refl)
        ∙ ap (λ (n : ℕ). n ∷ (j.frame.nonce ++ j.frame.payload)) v
        ∙ ap (λ (t : Bytes). 1 ∷ (j.frame.nonce ++ t)) j.carried in
      record {
        nonce = j.frame.nonce;
        tag = j.frame.tag;
        key_bytes = j.key_width;
        nonce_bytes = typed.nonce_width;
        tag_bytes = typed.tag_width;
        fits = subst (λ (t : Bytes). length t ≤ 4096) j.carried fits;
        parts =
            on_wire
            ∙ ap (λ (n : ℕ). n ∷ (j.frame.nonce ++ (j.frame.payload ++ j.frame.tag))) v
            ∙ ap (λ (t : Bytes). 1 ∷ (j.frame.nonce ++ (t ++ j.frame.tag))) j.carried;
        hashed =
            sym (eq_of-bytes_eq _ j.frame.tag j.tagged)
            ∙ ap (λ (b : Bytes). take 16 (p.keyed_hash bond_key b)) body;
      }
    where
      same_body : {x y : Bytes} → ◌≡◌ {A = Result Bytes FrameError} (ok x) (ok y) → x ≡ y
      same_body h = cc

  -- The phone takes bytes for a challenge and shows a payload exactly when its key has 32 bytes and they
  -- are, on the wire, a frame of version 1 with that payload of at most 4096 bytes, whose tag is the
  -- first 16 bytes of the keyed hash of version, nonce and payload under the key.
  pub verify_challenge_frame-Verified :
      (verify_challenge_frame p bond_key bytes ≡ some (ok payload)) ↔ Verified
  verify_challenge_frame-Verified =
      (λ h. Judged-Verified (to_Judged h), λ v. from_Judged (Verified-Judged v))
