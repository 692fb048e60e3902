-- ===== src/Presence/Challenge/Acceptance.antt =====
-- When one run of the challenge transaction of crates/syauth-presenced/src/orchestrator.rs ends in `Ok`.
use syauth.Base.{
  ℕ, true, false, Bytes, Option, none, some, ok, err, ◌==◌, ==_iff, length, ◌≡◌, ◌≢◌, ◌↔◌, refl,
  sym, ap, ◌∙◌, subst, Bool-cases, Option-cases, Result-cases, inl, inr,
}
use syauth.Core.Frame.{Frame, body_bytes}
use syauth.Core.Crypto.{Primitives, VerifyError, signature_len, verify_body, verify_frame}
use syauth.Transport.Peripheral.{
  PeripheralError, adapter_missing, unknown_peer, peer_already_added, backend, response_timeout,
}
use syauth.Presence.Audit.{AuditLog}
use syauth.Presence.Nonces.{NonceCache, contains}
use syauth.Presence.Challenge.{
  ChallengeOutcome, ok_signature, replay, bad_signature, challenge_outcome_for_transport, Answers,
  parse_signature, check_replay, check_signature, check_response, wait_failed, exchange,
  run_challenge,
}
use syauth.Presence.Challenge.Verdict.{
  is_ok, signed, challenge, challenge_bytes, notify-Settled, run_challenge-exchange,
}

false≢true : false ≢ true
false≢true q = cc

some_inj : {x y : Bytes} → some x ≡ some y → x ≡ y
some_inj q = cc

none≢some : {x : Bytes} → none ≢ some x
none≢some q = cc

err≢ok : {e : VerifyError} {u : Unit {0}} → err e ≢ ok u
err≢ok q = cc

ok_inj : {x y : Bytes} → ok_signature x ≡ ok_signature y → x ≡ y
ok_inj q = cc

pub refused : (o : ChallengeOutcome) (s : Bytes) → is_ok o ≡ false → o ≢ ok_signature s
refused o s h q = false≢true (sym h ∙ ap is_ok q)

module _ (p : Primitives) (a : Answers) (peer_id nonce pubkey : Bytes) (cache : NonceCache)
    (log : Option AuditLog) where
  -- The conditions under which the daemon takes a signature.
  pub record Accepts (deadline : ℕ) (bond_key signature : Bytes) : Type 0 where
    pub notified : a.notify_challenge peer_id (challenge_bytes p nonce bond_key) ≡ ok tt
    pub answered : a.wait_for_response peer_id deadline ≡ ok signature
    pub width : length signature ≡ signature_len
    pub parsed : p.is_signature signature ≡ true
    pub point : p.is_point pubkey ≡ true
    pub verified : p.verify_strict pubkey (signed nonce) signature ≡ true
    pub unseen : contains cache nonce ≡ false

  parse_some :
      (b : Bytes)
      → length b ≡ signature_len
      → p.is_signature b ≡ true
      → parse_signature p a b ≡ some b
  unfolding parse_signature
  parse_some b w h = rw (w, h) refl

  parse_inv :
      (b s : Bytes)
      → parse_signature p a b ≡ some s
      → (b ≡ s) × (length b ≡ signature_len) × (p.is_signature b ≡ true)
  unfolding parse_signature
  parse_inv b s h = elim (Bool-cases (length b == signature_len)) [
    | inl w ↦ elim (Bool-cases (p.is_signature b)) [
      | inl g ↦ (some_inj (rw (w, g) at h), (==_iff (length b) signature_len).0 w, g)
      | inr g ↦ absurd (none≢some (rw (w, g) at h))
    ]
    | inr w ↦ absurd (none≢some (rw w at h))
  ]

  verify_some :
      (f : Frame) (body s : Bytes)
      → body_bytes f ≡ ok body
      → p.verify_strict pubkey body s ≡ true
      → verify_frame p pubkey f s ≡ ok tt
  unfolding verify_frame verify_body
  verify_some f body s q h = rw (q, h, verify_body) refl

  verify_inv :
      (f : Frame) (body s : Bytes) (u : Unit)
      → body_bytes f ≡ ok body
      → verify_frame p pubkey f s ≡ ok u
      → p.verify_strict pubkey body s ≡ true
  unfolding verify_frame verify_body
  verify_inv f body s u q h = elim (Bool-cases (p.verify_strict pubkey body s)) [
    | inl v ↦ v
    | inr v ↦ absurd (err≢ok (rw (q, v, verify_body) at h))
  ]

  challenge-body : (bond_key : Bytes) → body_bytes (challenge p nonce bond_key) ≡ ok (signed nonce)
  unfolding body_bytes
  challenge-body bond_key = refl

  module _ (deadline : ℕ) (bond_key signature : Bytes) where
    replay-grants :
        contains cache nonce ≡ false
        → (check_replay p a peer_id nonce pubkey cache log signature).0 ≡ ok_signature signature
    unfolding check_replay
    replay-grants h = rw h refl

    signature-grants :
        Accepts deadline bond_key signature
        → (check_signature p a peer_id nonce pubkey cache log
            (challenge p nonce bond_key)
            signature).0
          ≡ ok_signature signature
    unfolding check_signature
    signature-grants h =
        rw
          (
            h.point,
            verify_some (challenge p nonce bond_key) (signed nonce) signature
                (challenge-body bond_key) h.verified,
            check_signature,
          )
          (replay-grants h.unseen)

    response-grants :
        Accepts deadline bond_key signature
        → (check_response p a peer_id nonce pubkey cache log
            (challenge p nonce bond_key)
            signature).0
          ≡ ok_signature signature
    unfolding check_response
    response-grants h =
        rw (parse_some signature h.width h.parsed, check_response) (signature-grants h)

    exchange-grants :
        Accepts deadline bond_key signature
        → (exchange p a peer_id nonce pubkey cache log deadline
            (challenge p nonce bond_key)
            (challenge_bytes p nonce bond_key)).0
          ≡ ok_signature signature
    unfolding exchange
    exchange-grants h = rw (h.notified, h.answered, exchange) (response-grants h)

    replay-inv :
        (s : Bytes)
        → (check_replay p a peer_id nonce pubkey cache log s).0 ≡ ok_signature signature
        → (s ≡ signature) × (contains cache nonce ≡ false)
    unfolding check_replay
    replay-inv s q = elim (Bool-cases (contains cache nonce)) [
      | inl h ↦ absurd (refused replay signature refl (rw h at q))
      | inr h ↦ (ok_inj (rw h at q), h)
    ]

    abbrev Checked : Bytes → Type 0
    Checked s =
        (p.is_point pubkey ≡ true)
        × (p.verify_strict pubkey (signed nonce) s ≡ true)
        × (s ≡ signature)
        × (contains cache nonce ≡ false)

    signature-inv :
        (s : Bytes)
        → (check_signature p a peer_id nonce pubkey cache log (challenge p nonce bond_key) s).0
          ≡ ok_signature signature
        → Checked s
    unfolding check_signature
    signature-inv s q = elim (Bool-cases (p.is_point pubkey)) [
      | inl h ↦ elim (Result-cases (verify_frame p pubkey (challenge p nonce bond_key) s)) [
        | inl (e, v) ↦
            absurd (refused bad_signature signature refl (rw (h, v, check_signature) at q))
        | inr (u, v) ↦
            let seen = replay-inv s (rw (h, v, check_signature) at q) in
            (
              h,
              verify_inv (challenge p nonce bond_key) (signed nonce) s u (challenge-body bond_key)
                  v,
              seen.0,
              seen.1,
            )
      ]
      | inr h ↦ absurd (refused bad_signature signature refl (rw h at q))
    ]

    response-inv :
        (b : Bytes)
        → (check_response p a peer_id nonce pubkey cache log (challenge p nonce bond_key) b).0
          ≡ ok_signature signature
        → (parse_signature p a b ≡ some b) × Checked b
    unfolding check_response
    response-inv b q = elim (Option-cases (parse_signature p a b)) [
      | inl n ↦ absurd (refused bad_signature signature refl (rw (n, check_response) at q))
      | inr (s, n) ↦
          let same = (parse_inv b s n).0 in
          (
            n ∙ ap some (sym same),
            subst (λ t. Checked t) (sym same) (signature-inv s (rw (n, check_response) at q)),
          )
    ]

    wait_not-ok :
        (e : PeripheralError) → is_ok (wait_failed p a peer_id nonce pubkey cache log e).0 ≡ false
    unfolding wait_failed challenge_outcome_for_transport
    wait_not-ok (adapter_missing n) = refl
    wait_not-ok (unknown_peer n) = refl
    wait_not-ok (peer_already_added n) = refl
    wait_not-ok backend = refl
    wait_not-ok (response_timeout n d) = refl

    to_Accepts :
        (b : Bytes) (u : Unit {0})
        → a.notify_challenge peer_id (challenge_bytes p nonce bond_key) ≡ ok u
        → a.wait_for_response peer_id deadline ≡ ok b
        → (parse_signature p a b ≡ some b) × Checked b
        → Accepts deadline bond_key signature
    to_Accepts b u n w (parsed, checked) =
        let (_, width, decoded) = parse_inv b b parsed in
        let (point, strict, same, unseen) = checked in
        record {
          notified = n;
          answered = w ∙ ap ok same;
          width = subst (λ t. length t ≡ signature_len) same width;
          parsed = subst (λ t. p.is_signature t ≡ true) same decoded;
          point = point;
          verified = subst (λ t. p.verify_strict pubkey (signed nonce) t ≡ true) same strict;
          unseen = unseen;
        }

    exchange-inv :
        (exchange p a peer_id nonce pubkey cache log deadline
            (challenge p nonce bond_key)
            (challenge_bytes p nonce bond_key)).0
          ≡ ok_signature signature
        → Accepts deadline bond_key signature
    unfolding exchange
    exchange-inv q =
        elim (Result-cases (a.notify_challenge peer_id (challenge_bytes p nonce bond_key))) [
          | inl (e, n) ↦ absurd (
              refused (challenge_outcome_for_transport e) signature (notify-Settled e)
                (rw (n, exchange) at q))
          | inr (u, n) ↦ elim (Result-cases (a.wait_for_response peer_id deadline)) [
            | inl (e, w) ↦ absurd (
                refused (wait_failed p a peer_id nonce pubkey cache log e).0 signature
                  (wait_not-ok e) (rw (n, w, exchange) at q))
            | inr (b, w) ↦ to_Accepts b u n w (response-inv b (rw (n, w, exchange) at q))
          ]
        ]

    -- A run ends in `Ok` with a signature exactly when the challenge of this nonce was notified, the
    -- answer is that signature in 64 bytes, it parses and verifies strictly under the peer's valid key over the body
    -- of the challenge, and the nonce is not in the peer's cache.
    pub run_challenge-Accepts :
        ((run_challenge p a peer_id nonce pubkey cache log deadline bond_key).0
          ≡ ok_signature signature)
        ↔ Accepts deadline bond_key signature
    run_challenge-Accepts =
        rw (run_challenge-exchange p a peer_id nonce pubkey cache log deadline bond_key)
          (exchange-inv, exchange-grants)
