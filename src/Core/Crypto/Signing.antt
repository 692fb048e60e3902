-- ===== src/Core/Crypto/Signing.antt =====
-- What crates/syauth-core/src/sign.rs signs, it verifies.
use syauth.Base.{true, Bytes, Result, ok, err, ◌≡◌, ◌≢◌, refl, sym, ap, ◌∙◌, Result-cases, inl, inr}
use syauth.Core.Frame.{Frame, FrameError, body_bytes}
use syauth.Core.Crypto.{Primitives, sign_frame, verify_body, verify_frame}

-- Where signing and strict verification go together for a pair of keys, a signature that `sign_frame`
-- made for a frame is accepted by `verify_frame` for every frame with the same body, whatever its tag.
pub verify_frame-sign_frame :
    (p : Primitives) (privkey pubkey : Bytes) (f g : Frame) (sig : Bytes)
    → ((m : Bytes) → p.verify_strict pubkey m (p.sign privkey m) ≡ true)
    → body_bytes f ≡ body_bytes g
    → sign_frame p privkey f ≡ ok sig
    → verify_frame p pubkey g sig ≡ ok tt
unfolding sign_frame verify_frame
verify_frame-sign_frame p privkey pubkey f g sig correct same q =
    elim (Result-cases (body_bytes f)) [
      | inl (e, h) ↦ absurd (failed (rw (h, sign_frame) at q))
      | inr (body, h) ↦
          ap (verify_body p pubkey sig) (sym same ∙ h)
          ∙ accepted body (signature_of (rw (h, sign_frame) at q))
    ]
  where
    failed : {e : FrameError} → ◌≢◌ {A = Result Bytes FrameError} (err e) (ok sig)
    failed h = cc

    signature_of : {x : Bytes} → ◌≡◌ {A = Result Bytes FrameError} (ok x) (ok sig) → x ≡ sig
    signature_of h = cc

    strict :
        (body : Bytes)
        → p.verify_strict pubkey body (p.sign privkey body) ≡ true
        → verify_body p pubkey (p.sign privkey body) (ok body) ≡ ok tt
    strict body h = rw (h, verify_body) refl

    accepted :
        (body : Bytes) → p.sign privkey body ≡ sig → verify_body p pubkey sig (ok body) ≡ ok tt
    accepted body h =
        ap (λ (s : Bytes). verify_body p pubkey s (ok body)) (sym h) ∙ strict body (correct body)
