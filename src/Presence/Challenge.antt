-- ===== src/Presence/Challenge.antt =====
-- `issue_challenge` and `run_challenge` of crates/syauth-presenced/src/orchestrator.rs, as one step:
-- what the calls out of the code answer is a record. The permit of the peer's slot is taken and
-- dropped within the call.
pub mod Verdict
pub mod Acceptance
pub mod Effect
pub mod Grant
pub mod Once
pub mod Recorded
pub mod Wire
use syauth.Base.{
  ℕ, ◌≤◌, Bool, true, false, not, Bytes, Text, text, Dict, get, update, List, [], ◌∷◌, ◌++◌, Option,
  none, some, Result, ok, err, ltb, ◌==◌, length, replicate, if◌then◌else◌, ◌≡◌,
}
use syauth.Core.Frame.{Frame, FrameError, encode, body_bytes, tag_len, syauth_wire_version_v1}
use syauth.Core.Crypto.{Primitives, signature_len, compute_tag, verify_frame}
use syauth.Transport.Peripheral.{
  PeripheralError, adapter_missing, unknown_peer, peer_already_added, backend, response_timeout,
}
use syauth.Presence.Audit.{AuditLog, AuditRecord, FileAnswers, append}
use syauth.Presence.Nonces.{NonceCache, contains, insert}
use syauth.Presence.Peers.{Orchestrator, PeerEntry, stamp_liveness}

abbrev pub outcome_reason_ok : Text
outcome_reason_ok = text "ok"

abbrev pub outcome_reason_denied : Text
outcome_reason_denied = text "denied"

abbrev pub outcome_reason_replay : Text
outcome_reason_replay = text "replay"

abbrev pub outcome_reason_bad_signature : Text
outcome_reason_bad_signature = text "bad-signature"

abbrev pub outcome_reason_response_timeout : Text
outcome_reason_response_timeout = text "response-timeout"

abbrev pub outcome_reason_unknown_peer : Text
outcome_reason_unknown_peer = text "unknown-peer"

abbrev pub outcome_reason_transport_error : Text
outcome_reason_transport_error = text "transport-error"

abbrev pub outcome_reason_busy : Text
outcome_reason_busy = text "busy"

abbrev pub zero_nonce_hex : Text
zero_nonce_hex = text "00000000000000000000000000000000"

-- `ok_signature` is the variant `Ok { signature }`.
pub data ChallengeOutcome : Type 0 where
  ok_signature : Bytes → ChallengeOutcome
  denied replay bad_signature timed_out unknown busy : ChallengeOutcome
  transport_error : PeripheralError → ChallengeOutcome

unfoldable pub reason_str : ChallengeOutcome → Text
reason_str (ok_signature s) = outcome_reason_ok
reason_str denied = outcome_reason_denied
reason_str replay = outcome_reason_replay
reason_str bad_signature = outcome_reason_bad_signature
reason_str timed_out = outcome_reason_response_timeout
reason_str unknown = outcome_reason_unknown_peer
reason_str busy = outcome_reason_busy
reason_str (transport_error e) = outcome_reason_transport_error

abbrev pub signature_bytes : ChallengeOutcome → Option Bytes
signature_bytes (ok_signature s) = some s
signature_bytes o = none

unfoldable pub challenge_outcome_for_transport : PeripheralError → ChallengeOutcome
challenge_outcome_for_transport (unknown_peer id) = unknown
challenge_outcome_for_transport (response_timeout id ms) = timed_out
challenge_outcome_for_transport e = transport_error backend

-- What the clock, the random generator, the peripheral and the file system answer during one call;
-- `acquired` tells whether the peer's slot is free within `BUSY_QUEUE_DEADLINE`.
pub record Answers : Type 0 where
  pub t_start_ms : ℕ
  pub t_end_ms : ℕ
  pub now : ℕ
  pub acquired : Bool
  pub fill : Option Bytes
  pub notify_challenge : Text → Bytes → Result (Unit {0}) PeripheralError
  pub wait_for_response : Text → ℕ → Result Bytes PeripheralError
  pub hex_encode : Bytes → Text
  pub file : FileAnswers

abbrev pub Run : Type 0
Run = ChallengeOutcome × NonceCache × Option AuditLog

-- The append is best-effort: the log goes on whatever it returned.
unfoldable pub audit_at : Answers → Text → Text → ℕ → ℕ → Text → Option AuditLog → Option AuditLog
audit_at a peer_id nonce_hex t_start_ms t_end_ms reason none = none
audit_at a peer_id nonce_hex t_start_ms t_end_ms reason (some log) =
    some
      (append a.file log (record {
        peer_id = peer_id;
        nonce_hex = nonce_hex;
        t_start_ms = t_start_ms;
        t_end_ms = t_end_ms;
        outcome = reason;
        reason = reason;
      })).1

abbrev pub challenge_frame : Bytes → Frame
challenge_frame nonce = record {
  version = syauth_wire_version_v1;
  nonce = nonce;
  payload = [];
  tag = replicate tag_len 0;
}

module _ (p : Primitives) (a : Answers) where
  unfoldable pub parse_signature : Bytes → Option Bytes
  parse_signature bytes =
      if not (length bytes == signature_len)
      then none
      else if p.is_signature bytes
      then some bytes
      else none

  -- `run_challenge`, from its end to its start
  module _ (peer_id nonce pubkey : Bytes) (cache : NonceCache) (log : Option AuditLog) where
    abbrev pub record_reason : Text → Option AuditLog
    record_reason reason =
        audit_at a peer_id (a.hex_encode nonce) a.t_start_ms a.t_end_ms reason log

    unfoldable pub check_replay : Bytes → Run
    check_replay signature =
        if contains cache nonce
        then (replay, cache, record_reason outcome_reason_replay)
        else (ok_signature signature, insert cache nonce, record_reason outcome_reason_ok)

    unfoldable pub check_signature : Frame → Bytes → Run
    unfolding check_replay
    check_signature challenge signature =
        if p.is_point pubkey
        then elim (verify_frame p pubkey challenge signature) [
          | err _ ↦ (bad_signature, cache, record_reason outcome_reason_bad_signature)
          | ok _ ↦ check_replay signature
        ]
        else (bad_signature, cache, record_reason outcome_reason_bad_signature)

    unfoldable pub check_response : Frame → Bytes → Run
    unfolding check_signature
    check_response challenge response_bytes = elim (parse_signature response_bytes) [
      | none ↦ (bad_signature, cache, record_reason outcome_reason_bad_signature)
      | some signature ↦ check_signature challenge signature
    ]

    unfoldable pub wait_failed : PeripheralError → Run
    wait_failed (response_timeout id ms) =
        (timed_out, cache, record_reason outcome_reason_response_timeout)
    wait_failed e = (
      challenge_outcome_for_transport e,
      cache,
      record_reason (reason_str (challenge_outcome_for_transport e)),
    )

    unfoldable pub exchange : ℕ → Frame → Bytes → Run
    unfolding check_response wait_failed
    exchange deadline challenge encoded = elim (a.notify_challenge peer_id encoded) [
      | err e ↦ (
        challenge_outcome_for_transport e,
        cache,
        record_reason (reason_str (challenge_outcome_for_transport e)),
      )
      | ok _ ↦ elim (a.wait_for_response peer_id deadline) [
        | ok response_bytes ↦ check_response challenge response_bytes
        | err e ↦ wait_failed e
      ]
    ]

    abbrev pub failed : Run
    failed = (transport_error backend, cache, record_reason outcome_reason_transport_error)

    unfoldable pub send : ℕ → Frame → Run
    unfolding exchange
    send deadline challenge =
        let (sent, encoded) = encode challenge [] in
        elim sent [ err e ↦ failed | ok _ ↦ exchange deadline challenge encoded ]

    unfoldable pub run_challenge : ℕ → Bytes → Run
    unfolding send
    run_challenge deadline bond_key = elim (body_bytes (challenge_frame nonce)) [
      | err e ↦ failed
      | ok body ↦
          send deadline (record (challenge_frame nonce) { tag = compute_tag p bond_key body })
    ]

  -- The outcome of a call, with the orchestrator after it.
  unfoldable pub finish : Text → Orchestrator → Run → ChallengeOutcome × Orchestrator
  finish peer_id o (outcome, cache, log) = (
    outcome,
    record {
      peers =
          update peer_id
            (λ (e : PeerEntry). stamp_liveness a.now (record e { nonce_cache = cache })) o.peers;
      audit_log = log;
    },
  )

  -- `issue_challenge` from the answer of `getrandom::fill` on
  unfoldable pub with_nonce :
      Text → ℕ → Orchestrator → PeerEntry → Bytes → Option Bytes → ChallengeOutcome × Orchestrator
  unfolding finish
  with_nonce peer_id deadline o e pubkey none = finish peer_id o (
    transport_error backend,
    e.nonce_cache,
    audit_at a peer_id zero_nonce_hex a.t_start_ms a.t_end_ms outcome_reason_transport_error
        o.audit_log,
  )
  with_nonce peer_id deadline o e pubkey (some nonce) =
      finish peer_id o
        (run_challenge peer_id nonce pubkey e.nonce_cache o.audit_log deadline e.bond_key)

  -- `lookup_peer`: the entry and its key, when both are there
  abbrev pub with_pubkey : PeerEntry → Option Bytes → Option (PeerEntry × Bytes)
  with_pubkey e none = none
  with_pubkey e (some pubkey) = some (e, pubkey)

  abbrev pub lookup_peer : Orchestrator → Text → Option (PeerEntry × Bytes)
  lookup_peer o peer_id = elim (get peer_id o.peers) [
    | none ↦ none
    | some e ↦ with_pubkey e e.phone_pubkey
  ]

  unfoldable pub issue_challenge : Text → ℕ → Orchestrator → ChallengeOutcome × Orchestrator
  unfolding with_nonce
  issue_challenge peer_id deadline o = elim (lookup_peer o peer_id) [
    | none ↦ (
      unknown,
      record o {
        audit_log =
            audit_at a peer_id zero_nonce_hex a.t_start_ms a.t_start_ms outcome_reason_unknown_peer
              o.audit_log;
      },
    )
    | some found ↦ if a.acquired then with_nonce peer_id deadline o found.0 found.1 a.fill else (
      busy,
      record o {
        audit_log =
            audit_at a peer_id zero_nonce_hex a.t_start_ms a.t_end_ms outcome_reason_busy
              o.audit_log;
      },
    )
  ]
