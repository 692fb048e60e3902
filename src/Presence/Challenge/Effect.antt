-- ===== src/Presence/Challenge/Effect.antt =====
-- What one `issue_challenge` of crates/syauth-presenced/src/orchestrator.rs changes.
use syauth.Base.{
  ℕ, Bool, true, false, Bytes, bytes_eq, Text, get, get-update_same, get-update_other, [], Option,
  none, some, ◌≢◌, ◌⊎◌, if◌then◌else◌, ◌≡◌, refl, sym, ap, ◌∙◌, subst, Bool-cases, Option-cases,
  inl, inr,
}
use syauth.Core.Crypto.{Primitives}
use syauth.Transport.Peripheral.{backend}
use syauth.Presence.Nonces.{insert}
use syauth.Presence.Peers.{Orchestrator, PeerEntry, stamp_liveness}
use syauth.Presence.Challenge.{
  ChallengeOutcome, unknown, busy, transport_error, reason_str, Answers, Run, audit_at,
  zero_nonce_hex, run_challenge, finish, with_nonce, with_pubkey, lookup_peer, issue_challenge,
  outcome_reason_transport_error, outcome_reason_busy, outcome_reason_unknown_peer,
}
use syauth.Presence.Challenge.Verdict.{is_ok, run_challenge-Settled}

module _ (p : Primitives) (a : Answers) (peer_id : Text) (deadline : ℕ) (o : Orchestrator) where
  pub record Effect (outcome : ChallengeOutcome) (o' : Orchestrator) : Type 0 where
    pub nonce : Bytes
    pub nonce_hex : Text
    pub t_end_ms : ℕ
    pub logged :
        o'.audit_log
        ≡ audit_at a peer_id nonce_hex a.t_start_ms t_end_ms (reason_str outcome) o.audit_log
    pub hexed :
        (nonce_hex ≡ zero_nonce_hex)
        ⊎ ((drawn_nonce : Bytes) × (a.fill ≡ some drawn_nonce)
            × (nonce_hex ≡ a.hex_encode drawn_nonce))
    pub timed : (t_end_ms ≡ a.t_start_ms) ⊎ (t_end_ms ≡ a.t_end_ms)
    pub others : (k : Text) → bytes_eq peer_id k ≡ false → get k o'.peers ≡ get k o.peers
    pub own :
        (e : PeerEntry)
        → get peer_id o.peers ≡ some e
        → (e' : PeerEntry) × (get peer_id o'.peers ≡ some e')
          × (e'.nonce_cache ≡ (if is_ok outcome then insert e.nonce_cache nonce else e.nonce_cache))
    pub drawn : is_ok outcome ≡ true → a.fill ≡ some nonce

  same_entry :
      (e : PeerEntry)
      → get peer_id o.peers ≡ some e
      → (e' : PeerEntry) × (get peer_id o.peers ≡ some e') × (e'.nonce_cache ≡ e.nonce_cache)
  same_entry e h = (e, h, refl)

  false≢true_of :
      (outcome : ChallengeOutcome) (n : Bytes)
      → is_ok outcome ≡ false
      → is_ok outcome ≡ true
      → a.fill ≡ some n
  false≢true_of outcome n h q = cc

  unknown-Effect : Effect unknown (record o {
    audit_log =
        audit_at a peer_id zero_nonce_hex a.t_start_ms a.t_start_ms outcome_reason_unknown_peer
          o.audit_log;
  })
  unfolding reason_str
  unknown-Effect = record {
    nonce = [];
    nonce_hex = zero_nonce_hex;
    t_end_ms = a.t_start_ms;
    hexed = inl refl;
    timed = inl refl;
    logged = refl;
    others = λ k h. refl;
    own = same_entry;
    drawn = false≢true_of unknown [] refl;
  }

  busy-Effect : Effect busy (record o {
    audit_log =
        audit_at a peer_id zero_nonce_hex a.t_start_ms a.t_end_ms outcome_reason_busy o.audit_log;
  })
  unfolding reason_str
  busy-Effect = record {
    nonce = [];
    nonce_hex = zero_nonce_hex;
    t_end_ms = a.t_end_ms;
    hexed = inl refl;
    timed = inr refl;
    logged = refl;
    others = λ k h. refl;
    own = same_entry;
    drawn = false≢true_of busy [] refl;
  }

  module _ (e : PeerEntry) (here : get peer_id o.peers ≡ some e) where
    some_entry : (x y : PeerEntry) → some x ≡ some y → x ≡ y
    some_entry x y q = cc

    finish-Effect :
        (r : Run) (nonce : Bytes) (nonce_hex : Text)
        → r.1 ≡ (if is_ok r.0 then insert e.nonce_cache nonce else e.nonce_cache)
        → r.2 ≡ audit_at a peer_id nonce_hex a.t_start_ms a.t_end_ms (reason_str r.0) o.audit_log
        → (nonce_hex ≡ zero_nonce_hex)
          ⊎ ((drawn_nonce : Bytes) × (a.fill ≡ some drawn_nonce)
              × (nonce_hex ≡ a.hex_encode drawn_nonce))
        → (is_ok r.0 ≡ true → a.fill ≡ some nonce)
        → Effect (finish p a peer_id o r).0 (finish p a peer_id o r).1
    unfolding finish
    finish-Effect r nonce nonce_hex cache logged hexed drawn = record {
      nonce = nonce;
      nonce_hex = nonce_hex;
      t_end_ms = a.t_end_ms;
      hexed = hexed;
      timed = inr refl;
      logged = logged;
      others = λ k h.
          get-update_other peer_id k
            (λ (x : PeerEntry). stamp_liveness a.now (record x { nonce_cache = r.1 })) o.peers h;
      own = λ x h. (
        stamp_liveness a.now (record e { nonce_cache = r.1 }),
        get-update_same peer_id
            (λ (x : PeerEntry). stamp_liveness a.now (record x { nonce_cache = r.1 })) o.peers e
            here,
        subst
            (λ (y : PeerEntry).
              r.1 ≡ (if is_ok r.0 then insert y.nonce_cache nonce else y.nonce_cache))
            (some_entry e x (sym here ∙ h)) cache,
      );
      drawn = drawn;
    }

    module _ (pubkey : Bytes) where
      abbrev Done : ChallengeOutcome × Orchestrator → Type 0
      Done r = Effect r.0 r.1

      rng_failed : Done (
          finish p a peer_id o (
            transport_error backend,
            e.nonce_cache,
            audit_at a peer_id zero_nonce_hex a.t_start_ms a.t_end_ms outcome_reason_transport_error
                o.audit_log,
          ))
      unfolding reason_str
      rng_failed =
          finish-Effect
            (
              transport_error backend,
              e.nonce_cache,
              audit_at a peer_id zero_nonce_hex a.t_start_ms a.t_end_ms
                  outcome_reason_transport_error o.audit_log,
            )
            [] zero_nonce_hex refl refl (inl refl) (false≢true_of (transport_error backend) [] refl)

      with_nonce-Effect :
          (filled : Option Bytes)
          → a.fill ≡ filled
          → Done (with_nonce p a peer_id deadline o e pubkey filled)
      unfolding with_nonce
      with_nonce-Effect none n = rng_failed
      with_nonce-Effect (some nonce) n =
          let settled =
            run_challenge-Settled p a peer_id nonce pubkey e.nonce_cache o.audit_log deadline
              e.bond_key in
          finish-Effect
            (run_challenge p a peer_id nonce pubkey e.nonce_cache o.audit_log deadline e.bond_key)
            nonce (a.hex_encode nonce) settled.0 settled.1 (inr (nonce, n, refl)) (λ q. n)

  -- the peer that `lookup_peer` finds
  with_pubkey_inv :
      (e : PeerEntry) (key : Option Bytes) (found : PeerEntry × Bytes)
      → with_pubkey p a e key ≡ some found
      → (e ≡ found.0) × (key ≡ some found.1)
  with_pubkey_inv e none found h = absurd (nothing found h)
    where
      nothing : (x : PeerEntry × Bytes) → none ≢ some x
      nothing x q = cc
  with_pubkey_inv e (some k) found h =
      let same = pair_of h in (ap (λ x. x.0) same, ap (λ (x : PeerEntry × Bytes). some x.1) same)
    where
      pair_of : {x y : PeerEntry × Bytes} → some x ≡ some y → x ≡ y
      pair_of q = cc

  pub looked_up :
      (found : PeerEntry × Bytes)
      → lookup_peer p a o peer_id ≡ some found
      → (get peer_id o.peers ≡ some found.0) × (found.0.phone_pubkey ≡ some found.1)
  looked_up found h = elim (Option-cases (get peer_id o.peers)) [
    | inl q ↦ absurd (nothing (rw (q, lookup_peer) at h))
    | inr (e, q) ↦
        let (same, key) = with_pubkey_inv e e.phone_pubkey found (rw (q, lookup_peer) at h) in
        (q ∙ ap some same, subst (λ (x : PeerEntry). x.phone_pubkey ≡ some found.1) same key)
  ]
    where
      nothing : none ≢ some found
      nothing q = cc

  pub issue_unknown :
      lookup_peer p a o peer_id ≡ none
      → issue_challenge p a peer_id deadline o ≡ (
        unknown,
        record o {
          audit_log =
              audit_at a peer_id zero_nonce_hex a.t_start_ms a.t_start_ms
                outcome_reason_unknown_peer o.audit_log;
        },
      )
  unfolding issue_challenge
  issue_unknown h = rw (h, issue_challenge) refl

  pub issue_busy :
      (found : PeerEntry × Bytes)
      → lookup_peer p a o peer_id ≡ some found
      → a.acquired ≡ false
      → issue_challenge p a peer_id deadline o ≡ (
        busy,
        record o {
          audit_log =
              audit_at a peer_id zero_nonce_hex a.t_start_ms a.t_end_ms outcome_reason_busy
                o.audit_log;
        },
      )
  unfolding issue_challenge
  issue_busy found h b = rw (h, b, issue_challenge) refl

  pub issue_admitted :
      (found : PeerEntry × Bytes)
      → lookup_peer p a o peer_id ≡ some found
      → a.acquired ≡ true
      → issue_challenge p a peer_id deadline o
        ≡ with_nonce p a peer_id deadline o found.0 found.1 a.fill
  unfolding issue_challenge
  issue_admitted found h b = rw (h, b, issue_challenge) refl

  pub issue_challenge-Effect :
      Effect (issue_challenge p a peer_id deadline o).0 (issue_challenge p a peer_id deadline o).1
  issue_challenge-Effect = elim (Option-cases (lookup_peer p a o peer_id)) [
    | inl h ↦
        subst (λ (r : ChallengeOutcome × Orchestrator). Effect r.0 r.1) (sym (issue_unknown h))
          unknown-Effect
    | inr (found, h) ↦ elim (Bool-cases a.acquired) [
      | inl b ↦
          subst (λ (r : ChallengeOutcome × Orchestrator). Effect r.0 r.1)
            (sym (issue_admitted found h b))
            (with_nonce-Effect found.0 (looked_up found h).0 found.1 a.fill refl)
      | inr b ↦
          subst (λ (r : ChallengeOutcome × Orchestrator). Effect r.0 r.1)
            (sym (issue_busy found h b)) busy-Effect
    ]
  ]

  -- A call for a peer leaves the entry of every other peer as it was, whatever its outcome.
  pub get-issue_challenge_other :
      (k : Text)
      → bytes_eq peer_id k ≡ false
      → get k (issue_challenge p a peer_id deadline o).1.peers ≡ get k o.peers
  get-issue_challenge_other k h = issue_challenge-Effect.others k h

  -- A call that did not end in `Ok` leaves the nonces of its peer as they were.
  pub nonces-issue_challenge :
      (e : PeerEntry)
      → get peer_id o.peers ≡ some e
      → is_ok (issue_challenge p a peer_id deadline o).0 ≡ false
      → (e' : PeerEntry) × (get peer_id (issue_challenge p a peer_id deadline o).1.peers ≡ some e')
        × (e'.nonce_cache ≡ e.nonce_cache)
  nonces-issue_challenge e h failed =
      let (e', there, cache) = issue_challenge-Effect.own e h in
      (
        e',
        there,
        cache
            ∙ ap
                (λ (b : Bool).
                  if b then insert e.nonce_cache issue_challenge-Effect.nonce else e.nonce_cache)
                failed,
      )
