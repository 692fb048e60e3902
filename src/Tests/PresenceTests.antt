-- ===== src/Tests/PresenceTests.antt =====
-- The challenge transaction of crates/syauth-presenced at concrete inputs.
use syauth.Base.{
  ℕ, ◌<◌, true, false, Bytes, Text, text, bytes_eq, get, List, [], ◌∷◌, replicate, Option, none,
  some, ok, ◌⊎◌, ◌≡◌, ◌≢◌, ◌↔◌, refl, arith,
}
use syauth.Core.Frame.{encode, body_bytes}
use syauth.Core.Crypto.{compute_tag, verify_body, verify_frame}
use syauth.Presence.Nonces.{
  NonceCache, contains, insert, insert_all, insert_all-new, recent, nonce_lru_cap,
}
use syauth.Presence.Nonces
use syauth.Presence.Peers.{Orchestrator, new_entry}
use syauth.Presence.Challenge.{
  ok_signature, Answers, parse_signature, check_replay, check_signature, check_response, exchange,
  send, run_challenge, finish, with_nonce, issue_challenge,
}
use syauth.Presence.Challenge.Verdict.{is_ok}
use syauth.Presence.Challenge.Acceptance.{Accepts, run_challenge-Accepts}
use syauth.Presence.Challenge.Recorded.{
  line_of, Logged, Recorded, run_challenge-Recorded, issue_challenge-Logged,
}
use syauth.Presence.Audit.{AuditLog}
use syauth.Presence.Challenge.Grant.{Granted, issue_challenge-Granted}
use syauth.Presence.Challenge.Once.{Call, issue_all, issue_challenge_once}
use syauth.Tests.CoreTests.{toy}

abbrev pub phone_key : Bytes
phone_key = replicate 32 1

abbrev pub bond_key : Bytes
bond_key = replicate 32 2

abbrev pub nonce : Bytes
nonce = replicate 16 5

-- the signature of the toy scheme over the 17 bytes of a challenge's body
abbrev pub good : Bytes
good = replicate 64 17

abbrev pub answers : Bytes → Answers
answers n = record {
  t_start_ms = 1000;
  t_end_ms = 1200;
  now = 1000;
  acquired = true;
  fill = some n;
  notify_challenge = λ id bytes. ok tt;
  wait_for_response = λ id deadline. ok good;
  hex_encode = λ b. text "05";
  file = record { write_all = none; sync_all = true };
}

abbrev pub daemon : Orchestrator
daemon = record {
  peers =
      (text "a", new_entry bond_key (some phone_key)) ∷ (text "b", new_entry bond_key none) ∷ [];
  audit_log = some (record { file = []; appended_since_fsync = 0 });
}

abbrev empty_log : Option AuditLog
empty_log = some (record { file = []; appended_since_fsync = 0 })

run_challenge-Recorded_example :
    Recorded toy (answers nonce) (text "a") nonce phone_key Nonces.new empty_log (
      run_challenge toy
        (answers nonce)
        (text "a")
        nonce
        phone_key
        Nonces.new
        empty_log
        8000
        bond_key)
run_challenge-Recorded_example =
    run_challenge-Recorded toy (answers nonce) (text "a") nonce phone_key Nonces.new empty_log 8000
      bond_key

run_challenge-Accepts_example :
    ((run_challenge toy (answers nonce) (text "a") nonce phone_key Nonces.new none 8000 bond_key).0
      ≡ ok_signature good)
    ↔ Accepts toy (answers nonce) (text "a") nonce phone_key Nonces.new none 8000 bond_key good
run_challenge-Accepts_example =
    run_challenge-Accepts toy (answers nonce) (text "a") nonce phone_key Nonces.new none 8000
      bond_key good

-- The run grants.
granted : (issue_challenge toy (answers nonce) (text "a") 8000 daemon).0 ≡ ok_signature good
unfolding issue_challenge bytes_eq with_nonce finish run_challenge send exchange check_response
    parse_signature check_signature check_replay verify_frame verify_body body_bytes encode contains
    insert compute_tag
granted = refl

issue_challenge-Granted_example :
    ((issue_challenge toy (answers nonce) (text "a") 8000 daemon).0 ≡ ok_signature good)
    ↔ Granted toy (answers nonce) (text "a") 8000 daemon good
issue_challenge-Granted_example =
    issue_challenge-Granted toy (answers nonce) (text "a") 8000 daemon good

abbrev between : List Call
between = record { answers = answers (replicate 16 6); peer_id = text "a"; deadline = 8000 } ∷ []

few :
    (issue_all toy
      (text "a")
      between
      (issue_challenge toy (answers nonce) (text "a") 8000 daemon).1).0
    < nonce_lru_cap
unfolding issue_all issue_challenge bytes_eq with_nonce finish run_challenge send exchange
    check_response parse_signature check_signature check_replay verify_frame verify_body body_bytes
    encode contains insert compute_tag
few = omega arith

issue_challenge_once_example :
    (issue_challenge toy
      (answers nonce)
      (text "a")
      8000
      (issue_all toy
        (text "a")
        between
        (issue_challenge toy (answers nonce) (text "a") 8000 daemon).1).1).0
    ≢ ok_signature good
issue_challenge_once_example =
    issue_challenge_once toy (answers nonce) (text "a") 8000 daemon good nonce between
      (answers nonce) 8000 good granted refl few refl

issue_challenge-Logged_example :
    (nonce_hex : Text) × (t_end_ms : ℕ) × ((nonce_hex ≡ replicate 32 b'0')
      ⊎ ((n : Bytes) × (some nonce ≡ some n) × (nonce_hex ≡ text "05")))
    × ((t_end_ms ≡ 1000) ⊎ (t_end_ms ≡ 1200))
    × Logged
        (answers nonce)
        (line_of
          (text "a")
          nonce_hex
          1000
          t_end_ms
          (issue_challenge toy (answers nonce) (text "a") 8000 daemon).0)
        daemon.audit_log
        (issue_challenge toy (answers nonce) (text "a") 8000 daemon).1.audit_log
issue_challenge-Logged_example = issue_challenge-Logged toy (answers nonce) (text "a") 8000 daemon

other_id : bytes_eq (text "a") (text "b") ≡ false
unfolding bytes_eq
other_id = refl

registered_b : get (text "b") daemon.peers ≡ some (new_entry bond_key none)
unfolding bytes_eq
registered_b = refl

refused_b : is_ok (issue_challenge toy (answers nonce) (text "b") 8000 daemon).0 ≡ false
unfolding issue_challenge bytes_eq
refused_b = refl
