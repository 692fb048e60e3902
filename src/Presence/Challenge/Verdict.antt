-- ===== src/Presence/Challenge/Verdict.antt =====
-- What one run of the challenge transaction of crates/syauth-presenced/src/orchestrator.rs decides,
-- and what it leaves in the nonce cache and in the audit log.
use syauth.Base.{
  ℕ, Bool, true, false, Bytes, [], ◌∷◌, ◌++◌, Option, if◌then◌else◌, ◌≡◌, refl, Bool-cases,
  Option-cases, Result-cases, inl, inr,
}
use syauth.Core.Frame.{Frame, encode, body_bytes, syauth_wire_version_v1}
use syauth.Core.Crypto.{Primitives, compute_tag, verify_frame}
use syauth.Transport.Peripheral.{
  PeripheralError, adapter_missing, unknown_peer, peer_already_added, backend, response_timeout,
}
use syauth.Presence.Audit.{AuditLog}
use syauth.Presence.Nonces.{NonceCache, contains, insert}
use syauth.Presence.Challenge.{
  ChallengeOutcome, ok_signature, reason_str, challenge_outcome_for_transport, Answers, Run,
  challenge_frame, parse_signature, record_reason, check_replay, check_signature, check_response,
  wait_failed, exchange, send, run_challenge,
}

abbrev pub is_ok : ChallengeOutcome → Bool
is_ok (ok_signature s) = true
is_ok o = false

-- The bytes that the phone signs, the frame that it gets, and that frame on the wire.
abbrev pub signed : Bytes → Bytes
signed nonce = syauth_wire_version_v1 ∷ (nonce ++ [])

abbrev pub challenge : Primitives → Bytes → Bytes → Frame
challenge p nonce bond_key = record (challenge_frame nonce) {
  tag = compute_tag p bond_key (signed nonce);
}

abbrev pub challenge_bytes : Primitives → Bytes → Bytes → Bytes
challenge_bytes p nonce bond_key =
    syauth_wire_version_v1 ∷ (nonce ++ compute_tag p bond_key (signed nonce))

pub notify-Settled : (e : PeripheralError) → is_ok (challenge_outcome_for_transport e) ≡ false
unfolding challenge_outcome_for_transport
notify-Settled (adapter_missing n) = refl
notify-Settled (unknown_peer n) = refl
notify-Settled (peer_already_added n) = refl
notify-Settled backend = refl
notify-Settled (response_timeout n d) = refl

module _ (p : Primitives) (a : Answers) (peer_id nonce pubkey : Bytes) (cache : NonceCache)
    (log : Option AuditLog) where
  -- A challenge has no payload, so it always has a body and an encoding.
  pub run_challenge-exchange :
      (deadline : ℕ) (bond_key : Bytes)
      → run_challenge p a peer_id nonce pubkey cache log deadline bond_key
        ≡ exchange p a peer_id nonce pubkey cache log deadline
            (challenge p nonce bond_key)
            (challenge_bytes p nonce bond_key)
  unfolding run_challenge send body_bytes encode
  run_challenge-exchange deadline bond_key = refl

  -- What a run leaves behind follows from its outcome.
  abbrev pub Settled : Run → Type 0
  Settled r =
      (r.1 ≡ (if is_ok r.0 then insert cache nonce else cache))
      × (r.2 ≡ record_reason p a peer_id nonce pubkey cache log (reason_str r.0))

  replay-Settled : (s : Bytes) → Settled (check_replay p a peer_id nonce pubkey cache log s)
  unfolding check_replay reason_str
  replay-Settled s = elim (Bool-cases (contains cache nonce)) [
    | inl h ↦ rw h (refl, refl)
    | inr h ↦ rw h (refl, refl)
  ]

  signature-Settled :
      (f : Frame) (s : Bytes) → Settled (check_signature p a peer_id nonce pubkey cache log f s)
  unfolding check_signature reason_str
  signature-Settled f s = elim (Bool-cases (p.is_point pubkey)) [
    | inl h ↦ elim (Result-cases (verify_frame p pubkey f s)) [
      | inl (e, q) ↦ rw (h, q, check_signature) (refl, refl)
      | inr (u, q) ↦ rw (h, q, check_signature) (replay-Settled s)
    ]
    | inr h ↦ rw h (refl, refl)
  ]

  response-Settled :
      (f : Frame) (b : Bytes) → Settled (check_response p a peer_id nonce pubkey cache log f b)
  unfolding check_response reason_str
  response-Settled f b = elim (Option-cases (parse_signature p a b)) [
    | inl q ↦ rw (q, check_response) (refl, refl)
    | inr (s, q) ↦ rw (q, check_response) (signature-Settled f s)
  ]

  wait-Settled : (e : PeripheralError) → Settled (wait_failed p a peer_id nonce pubkey cache log e)
  unfolding wait_failed reason_str challenge_outcome_for_transport
  wait-Settled (adapter_missing n) = (refl, refl)
  wait-Settled (unknown_peer n) = (refl, refl)
  wait-Settled (peer_already_added n) = (refl, refl)
  wait-Settled backend = (refl, refl)
  wait-Settled (response_timeout n d) = (refl, refl)

  exchange-Settled :
      (d : ℕ) (f : Frame) (b : Bytes) → Settled (exchange p a peer_id nonce pubkey cache log d f b)
  unfolding exchange
  exchange-Settled d f b = elim (Result-cases (a.notify_challenge peer_id b)) [
    | inl (e, q) ↦ rw (q, exchange) (rw (notify-Settled e) (refl, refl))
    | inr (u, q) ↦ elim (Result-cases (a.wait_for_response peer_id d)) [
      | inl (e, q') ↦ rw (q, q', exchange) (wait-Settled e)
      | inr (r, q') ↦ rw (q, q', exchange) (response-Settled f r)
    ]
  ]

  -- What every run leaves behind.
  pub run_challenge-Settled :
      (deadline : ℕ) (bond_key : Bytes)
      → Settled (run_challenge p a peer_id nonce pubkey cache log deadline bond_key)
  run_challenge-Settled deadline bond_key =
      rw (run_challenge-exchange deadline bond_key)
        (exchange-Settled deadline (challenge p nonce bond_key) (challenge_bytes p nonce bond_key))
