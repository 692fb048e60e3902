-- ===== src/Presence/Server/Dispatch.antt =====
-- What the daemon's answer to a challenge request says (crates/syauth-presenced/src/server.rs).
use syauth.Base.{
  ℕ, true, Bytes, Text, bytes_eq, bytes_eq_refl, Option, none, some, ◌≡◌, ◌↔◌, refl, sym, ap, ◌∙◌,
  subst,
}
use syauth.Core.Crypto.{Primitives}
use syauth.Presence.Peers.{Orchestrator}
use syauth.Presence.Rpc.{challenge, Response, challenge_response, reload_response, status_response}
use syauth.Presence.Challenge.{
  ChallengeOutcome, ok_signature, denied, replay, bad_signature, timed_out, unknown, busy,
  transport_error, Answers, reason_str, issue_challenge, outcome_reason_ok,
}
use syauth.Presence.Challenge.Grant.{Granted, issue_challenge-Granted}
use syauth.Presence.Server.{
  Server, default_auth_timeout, challenge_reply, with_fixed_nonce, dispatch,
}

-- The reason of a response, when it answers a challenge.
abbrev pub reply_reason : Response → Option Text
reply_reason (challenge_response g s reason) = some reason
reply_reason (reload_response g) = none
reply_reason (status_response peers started) = none

ok_of-reason :
    (outcome : ChallengeOutcome)
    → bytes_eq (reason_str outcome) outcome_reason_ok ≡ true
    → (s : Bytes) × (outcome ≡ ok_signature s)
unfolding reason_str bytes_eq
ok_of-reason (ok_signature s) h = (s, refl)
ok_of-reason denied h = cc
ok_of-reason replay h = cc
ok_of-reason bad_signature h = cc
ok_of-reason timed_out h = cc
ok_of-reason unknown h = cc
ok_of-reason busy h = cc
ok_of-reason (transport_error e) h = cc

module _ (p : Primitives) (hkdf : Bytes → Bytes → Option Bytes) (a : Answers) (now_secs : ℕ)
    (s : Server) (peer_id : Text) (nonce : Bytes) where
  abbrev pub reply : Response
  reply = (dispatch p hkdf a now_secs (challenge peer_id nonce) s).0

  reply-running :
      (o : Orchestrator)
      → s.orchestrator ≡ some o
      → reply
        ≡ challenge_reply
            (issue_challenge p
              (with_fixed_nonce s.test_fixed_nonce a)
              peer_id
              default_auth_timeout
              o).0
  unfolding dispatch
  reply-running o h = rw h refl

  -- A daemon with a running orchestrator answers a challenge request with the reason `ok` exactly when
  -- the orchestrator granted the peer some signature; the response then carries that signature and
  -- says so.
  pub dispatch-Granted :
      (o : Orchestrator)
      → s.orchestrator ≡ some o
      → (reply_reason reply ≡ some outcome_reason_ok) ↔ (
          (signature : Bytes) × Granted p
            (with_fixed_nonce s.test_fixed_nonce a)
            peer_id
            default_auth_timeout
            o
            signature
          × (reply ≡ challenge_response true (some signature) outcome_reason_ok))
  unfolding reason_str
  dispatch-Granted o h = (granted, λ (_, _, q). ap reply_reason q)
    where
      reason_of : {x y : Text} → some x ≡ some y → x ≡ y
      reason_of q = cc

      granted :
          reply_reason reply ≡ some outcome_reason_ok
          → (signature : Bytes) × Granted p
              (with_fixed_nonce s.test_fixed_nonce a)
              peer_id
              default_auth_timeout
              o
              signature
            × (reply ≡ challenge_response true (some signature) outcome_reason_ok)
      granted q =
          let outcome =
            (issue_challenge p (with_fixed_nonce s.test_fixed_nonce a) peer_id default_auth_timeout
              o).0 in
          let r = reason_of (sym (ap reply_reason (reply-running o h)) ∙ q) in
          let (signature, e) = ok_of-reason outcome (
            subst (λ (t : Text). bytes_eq t outcome_reason_ok ≡ true) (sym r)
              (bytes_eq_refl outcome_reason_ok)) in
          (
            signature,
            (issue_challenge-Granted p (with_fixed_nonce s.test_fixed_nonce a) peer_id
                  default_auth_timeout o signature).0
                e,
            reply-running o h ∙ ap challenge_reply e,
          )
