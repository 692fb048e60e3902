-- ===== src/Presence/Challenge/Recorded.antt =====
-- What one challenge of crates/syauth-presenced/src/orchestrator.rs leaves in the audit log, as bytes of
-- its file, and in the nonce cache.
use syauth.Base.{
  ℕ, ◌-◌, ◌≤◌, true, false, Bytes, Text, text, List, [], ◌∷◌, ◌++◌, Option, none, some, take, drop,
  replicate, length, length-append, ltb, ltb→lt, ltb-false→le, ◌≡◌, ◌⊎◌, refl, sym, ap, ◌∙◌, subst,
  arith, Bool-cases, Option-cases, inl, inr,
}
use mathlib.Core.List.{append_assoc}
use syauth.Core.Crypto.{Primitives}
use syauth.Presence.Audit.{AuditLog, AuditRecord, FileAnswers, decimal, format_record, append}
use syauth.Presence.Nonces.{NonceCache, insert}
use syauth.Presence.Peers.{Orchestrator}
use syauth.Presence.Challenge.{
  ChallengeOutcome, ok_signature, denied, replay, bad_signature, timed_out, unknown, busy,
  transport_error, reason_str, Answers, Run, audit_at, run_challenge, issue_challenge,
}
use syauth.Presence.Challenge.Verdict.{is_ok, run_challenge-Settled}
use syauth.Presence.Challenge.Effect.{issue_challenge-Effect}

-- fields with commas between them
abbrev pub commas : List Text → Text
commas [] = []
commas (t ∷ []) = t
commas (t ∷ u ∷ ts) = t ++ (text "," ++ commas (u ∷ ts))

abbrev pub reason_of : ChallengeOutcome → Text
reason_of (ok_signature s) = text "ok"
reason_of denied = text "denied"
reason_of replay = text "replay"
reason_of bad_signature = text "bad-signature"
reason_of timed_out = text "response-timeout"
reason_of unknown = text "unknown-peer"
reason_of (transport_error e) = text "transport-error"
reason_of busy = text "busy"

abbrev pub line_of : Text → Text → ℕ → ℕ → ChallengeOutcome → Text
line_of peer_id nonce_hex t_start_ms t_end_ms outcome =
    commas (
      peer_id
      ∷ nonce_hex
      ∷ decimal t_start_ms
      ∷ decimal t_end_ms
      ∷ reason_of outcome
      ∷ reason_of outcome
      ∷ [])
    ++ text "\n"

-- The bytes of a line that reach the file: all of them, or those that a failing write has written.
abbrev pub reached : Option ℕ → Text → Text
reached none line = line
reached (some written) line = take written line

-- The line was appended to the log where one is attached.
abbrev pub Logged : Answers → Text → Option AuditLog → Option AuditLog → Type 0
Logged a line none after = after ≡ none
Logged a line (some log) after =
    (log' : AuditLog) × (after ≡ some log')
    × (log'.file ≡ log.file ++ reached a.file.write_all line)

reason_of-reason_str : (o : ChallengeOutcome) → reason_str o ≡ reason_of o
unfolding reason_str
reason_of-reason_str (ok_signature s) = refl
reason_of-reason_str denied = refl
reason_of-reason_str replay = refl
reason_of-reason_str bad_signature = refl
reason_of-reason_str timed_out = refl
reason_of-reason_str unknown = refl
reason_of-reason_str busy = refl
reason_of-reason_str (transport_error e) = refl

append-file :
    (io : FileAnswers) (log : AuditLog) (r : AuditRecord)
    → (append io log r).1.file ≡ log.file ++ reached io.write_all (format_record r)
unfolding append
append-file io log r = elim (Option-cases io.write_all) [
  | inl h ↦ ground (arith, h)
  | inr (n, h) ↦ ground (arith, h)
]

format_record-commas :
    (peer_id nonce_hex : Text) (s e : ℕ) (outcome : ChallengeOutcome)
    → format_record (record {
      peer_id = peer_id;
      nonce_hex = nonce_hex;
      t_start_ms = s;
      t_end_ms = e;
      outcome = reason_str outcome;
      reason = reason_str outcome;
    })
      ≡ line_of peer_id nonce_hex s e outcome
unfolding format_record
format_record-commas peer_id nonce_hex s e outcome =
    rw (reason_of-reason_str outcome) (simp append_assoc)

audit_at-Logged :
    (a : Answers) (peer_id nonce_hex : Text) (s e : ℕ) (outcome : ChallengeOutcome)
    (log : Option AuditLog)
    → Logged a
        (line_of peer_id nonce_hex s e outcome)
        log
        (audit_at a peer_id nonce_hex s e (reason_str outcome) log)
unfolding audit_at
audit_at-Logged a peer_id nonce_hex s e outcome none = refl
audit_at-Logged a peer_id nonce_hex s e outcome (some log) = (
  (append a.file log _).1,
  refl,
  append-file a.file log _
      ∙ ap (λ (line : Text). log.file ++ reached a.file.write_all line)
          (format_record-commas peer_id nonce_hex s e outcome),
)

-- the last 64 nonces
abbrev pub last_nonces : List Bytes → List Bytes
last_nonces ns = drop (length ns - 64) ns

insert-last_nonces :
    (c : NonceCache) (nonce : Bytes)
    → length c.nonces ≤ 64
    → (insert c nonce).nonces ≡ last_nonces (c.nonces ++ nonce ∷ [])
unfolding insert
insert-last_nonces c nonce h = elim (Bool-cases (ltb 64 (length (c.nonces ++ nonce ∷ [])))) [
  | inl full ↦
      let one : 1 ≡ length pushed - 64 =
        omega (arith, ltb→lt 64 (length pushed) full, length-append c.nonces (nonce ∷ [])) in
      rw full (ap (λ (k : ℕ). drop k pushed) one)
  | inr room ↦
      let nothing : 0 ≡ length pushed - 64 = omega (arith, ltb-false→le 64 (length pushed) room) in
      rw room (ap (λ (k : ℕ). drop k pushed) nothing)
]
  where
    pushed : List Bytes
    pushed = c.nonces ++ nonce ∷ []

module _ (p : Primitives) (a : Answers) (peer_id nonce pubkey : Bytes) (cache : NonceCache)
    (log : Option AuditLog) where
  -- A run that is not `Ok` leaves the cache as it was. One that is puts its nonce last, and of a cache
  -- that was full the oldest goes. The line of the outcome is appended to the log.
  pub record Recorded (r : Run) : Type 0 where
    pub kept : is_ok r.0 ≡ false → r.1 ≡ cache
    pub pushed :
        is_ok r.0 ≡ true
        → length cache.nonces ≤ 64
        → r.1.nonces ≡ last_nonces (cache.nonces ++ nonce ∷ [])
    pub logged : Logged a (line_of peer_id (a.hex_encode nonce) a.t_start_ms a.t_end_ms r.0) log r.2

  -- A run leaves its peer's cache as it was unless its outcome is `Ok`; then a cache of at most 64 nonces
  -- holds afterwards the last 64 of its nonces and that of the run. Where a log is attached, one line
  -- is appended to its file: the peer, the nonce, the start and the end of the run, and twice the
  -- reason of its outcome, with commas; of a write that fails, the part that it has written.
  pub run_challenge-Recorded :
      (deadline : ℕ) (bond_key : Bytes)
      → Recorded (run_challenge p a peer_id nonce pubkey cache log deadline bond_key)
  run_challenge-Recorded deadline bond_key =
      let (after, recorded) =
        run_challenge-Settled p a peer_id nonce pubkey cache log deadline bond_key in
      let r = run_challenge p a peer_id nonce pubkey cache log deadline bond_key in
      record {
        kept = λ h. after ∙ rw h refl;
        pushed = λ h w.
            ap (λ (c : NonceCache). c.nonces) (after ∙ rw h refl)
            ∙ insert-last_nonces cache nonce w;
        logged =
            subst (Logged a (line_of peer_id (a.hex_encode nonce) a.t_start_ms a.t_end_ms r.0) log)
              (sym recorded)
              (audit_at-Logged a peer_id (a.hex_encode nonce) a.t_start_ms a.t_end_ms r.0 log);
      }

module _ (p : Primitives) (a : Answers) (peer_id : Text) (deadline : ℕ) (o : Orchestrator) where
  -- Each call appends exactly one line to the audit log where one is attached, on every path: its peer, a
  -- nonce, the start of the call, a time of its end, and twice the reason of its outcome. The nonce is
  -- the one that was drawn, or 32 zeros; the end is the time read at the end or that of the start. Of a
  -- write that fails, the part that it has written is there.
  pub issue_challenge-Logged :
      (nonce_hex : Text) × (t_end_ms : ℕ) × ((nonce_hex ≡ replicate 32 b'0')
        ⊎ ((nonce : Bytes) × (a.fill ≡ some nonce) × (nonce_hex ≡ a.hex_encode nonce)))
      × ((t_end_ms ≡ a.t_start_ms) ⊎ (t_end_ms ≡ a.t_end_ms))
      × Logged a
          (line_of peer_id nonce_hex a.t_start_ms t_end_ms
            (issue_challenge p a peer_id deadline o).0)
          o.audit_log
          (issue_challenge p a peer_id deadline o).1.audit_log
  issue_challenge-Logged =
      let e = issue_challenge-Effect p a peer_id deadline o in
      let r = issue_challenge p a peer_id deadline o in
      (
        e.nonce_hex,
        e.t_end_ms,
        e.hexed,
        e.timed,
        subst (Logged a (line_of peer_id e.nonce_hex a.t_start_ms e.t_end_ms r.0) o.audit_log)
            (sym e.logged)
            (audit_at-Logged a peer_id e.nonce_hex a.t_start_ms e.t_end_ms r.0 o.audit_log),
      )
