-- ===== src/Presence/Challenge/Grant.antt =====
-- When `issue_challenge` of crates/syauth-presenced/src/orchestrator.rs grants.
use syauth.Base.{
  ℕ, true, Bytes, Text, get, Option, none, some, ◌≡◌, ◌↔◌, refl, sym, ap, ◌∙◌, Bool-cases,
  Option-cases, inl, inr,
}
use syauth.Core.Crypto.{Primitives}
use syauth.Transport.Peripheral.{backend}
use syauth.Presence.Peers.{Orchestrator, PeerEntry}
use syauth.Presence.Challenge.{
  ChallengeOutcome, ok_signature, unknown, busy, transport_error, Answers, finish, with_nonce,
  with_pubkey, lookup_peer, issue_challenge,
}
use syauth.Presence.Challenge.Acceptance.{refused, Accepts, run_challenge-Accepts}
use syauth.Presence.Challenge.Effect.{looked_up, issue_unknown, issue_busy, issue_admitted}

module _ (p : Primitives) (a : Answers) (peer_id : Text) (deadline : ℕ) (o : Orchestrator)
    (signature : Bytes) where
  pub record Granted : Type 0 where
    pub entry : PeerEntry
    pub pubkey : Bytes
    pub nonce : Bytes
    pub registered : get peer_id o.peers ≡ some entry
    pub keyed : entry.phone_pubkey ≡ some pubkey
    pub free : a.acquired ≡ true
    pub drawn : a.fill ≡ some nonce
    pub accepted :
        Accepts p a peer_id nonce pubkey entry.nonce_cache o.audit_log deadline entry.bond_key
          signature

  with_nonce-Granted :
      (e : PeerEntry) (pubkey : Bytes) (filled : Option Bytes)
      → get peer_id o.peers ≡ some e
      → e.phone_pubkey ≡ some pubkey
      → a.acquired ≡ true
      → a.fill ≡ filled
      → (with_nonce p a peer_id deadline o e pubkey filled).0 ≡ ok_signature signature
      → Granted
  unfolding with_nonce finish
  with_nonce-Granted e pubkey none r k f n q =
      absurd (refused (transport_error backend) signature refl q)
  with_nonce-Granted e pubkey (some nonce) r k f n q = record {
    entry = e;
    pubkey = pubkey;
    nonce = nonce;
    registered = r;
    keyed = k;
    free = f;
    drawn = n;
    accepted =
        (run_challenge-Accepts p a peer_id nonce pubkey e.nonce_cache o.audit_log deadline
            e.bond_key signature).0
          q;
  }

  to_Granted : (issue_challenge p a peer_id deadline o).0 ≡ ok_signature signature → Granted
  to_Granted q = elim (Option-cases (lookup_peer p a o peer_id)) [
    | inl h ↦ absurd (
        refused unknown signature refl
          (sym (ap outcome (issue_unknown p a peer_id deadline o h)) ∙ q))
    | inr (found, h) ↦ elim (Bool-cases a.acquired) [
      | inl b ↦
          let (r, k) = looked_up p a peer_id deadline o found h in
          with_nonce-Granted found.0 found.1 a.fill r k b refl
            (sym (ap outcome (issue_admitted p a peer_id deadline o found h b)) ∙ q)
      | inr b ↦ absurd (
          refused busy signature refl
            (sym (ap outcome (issue_busy p a peer_id deadline o found h b)) ∙ q))
    ]
  ]
    where
      outcome : ChallengeOutcome × Orchestrator → ChallengeOutcome
      outcome r = r.0

  found_entry : (g : Granted) → lookup_peer p a o peer_id ≡ some (g.entry, g.pubkey)
  found_entry g = rw (g.registered, lookup_peer) (ap (with_pubkey p a g.entry) g.keyed)

  from_Granted : Granted → (issue_challenge p a peer_id deadline o).0 ≡ ok_signature signature
  unfolding with_nonce finish
  from_Granted g =
      ap outcome (issue_admitted p a peer_id deadline o (g.entry, g.pubkey) (found_entry g) g.free)
      ∙ ap
          (λ (filled : Option Bytes). (with_nonce p a peer_id deadline o g.entry g.pubkey filled).0)
          g.drawn
      ∙ (run_challenge-Accepts p a peer_id g.nonce g.pubkey g.entry.nonce_cache o.audit_log deadline
            g.entry.bond_key signature).1
          g.accepted
    where
      outcome : ChallengeOutcome × Orchestrator → ChallengeOutcome
      outcome r = r.0

  -- The daemon answers a challenge with `Ok` and a signature exactly when the peer is registered with
  -- a public key, its slot is free in time, a nonce was drawn, and the run of that nonce accepts the
  -- signature.
  pub issue_challenge-Granted :
      ((issue_challenge p a peer_id deadline o).0 ≡ ok_signature signature) ↔ Granted
  issue_challenge-Granted = (to_Granted, from_Granted)
