-- ===== src/Tests/PamTests.antt =====
-- The PAM module of crates/syauth-pam at concrete inputs.
use syauth.Base.{
  true, false, Bytes, Text, text, bytes_eq, List, [], ◌∷◌, replicate, Option, none, some, ok, ◌≡◌,
  ◌↔◌, ◌≢◌, sym, refl,
}
use syauth.Core.Bond.{mark_revoked}
use syauth.Core.Frame.{encode, body_bytes}
use syauth.Core.Crypto.{compute_tag, verify_body, verify_frame}
use syauth.Presence.Nonces.{contains, insert}
use syauth.Presence.Rpc.{Response, challenge, challenge_response}
use syauth.Presence.Challenge.{
  outcome_reason_ok, reason_str, parse_signature, check_replay, check_signature, check_response,
  exchange, send, run_challenge, finish, with_nonce, issue_challenge,
}
use syauth.Presence.Challenge.Grant.{Granted}
use syauth.Presence.Server.{Server, dispatch}
use syauth.Presence.Server
use syauth.Pam.Config.{Config, from_pam_argv}
use syauth.Pam.Auth.{
  pam_success, success, outcome_reason_to_pam, first_bonded, resolve_peer_id, World,
  daemon_round_trip, outcome_of_reason, outcome_of_response, ask_daemon, authenticate_inner,
  Argument, string, collect_pam_argv, pam_sm_authenticate,
}
use syauth.Pam.Verdict.{Unlocks, authenticate_inner-Granted, pam_sm_authenticate-success}
use syauth.Pam.Revocation.{authenticate_inner-mark_revoked}
use syauth.Tests.CoreTests.{toy, two_phones, two_phones-Unique}
use syauth.Tests.PresenceTests.{answers, daemon, good}
use syauth.Tests.DaemonTests.{serving, no_hkdf}

abbrev cfg : Config
cfg = record { bond_dir = text "/b"; socket_path = text "/s"; auth_timeout = 8000 }

-- The daemon answers what its dispatcher returns.
abbrev world : World
world = record {
  bonds = λ path. ok two_phones;
  fill = some (replicate 16 3);
  connect = λ path. true;
  set_write_timeout = true;
  set_read_timeout = λ ms. true;
  write_frame = λ r. true;
  read_frame = some (challenge_response true (some good) outcome_reason_ok);
}

abbrev argv : Option (List Argument)
argv = some (string (text "socket=/s") ∷ [])

pam_sm_authenticate-success_example :
    (pam_sm_authenticate world none 1000 false argv ≡ pam_success) ↔ (
      (false ≡ false)
      × (id : Text) × Unlocks world (from_pam_argv none 1000 (collect_pam_argv argv)) id)
pam_sm_authenticate-success_example = pam_sm_authenticate-success world none 1000 false argv

unlocked : authenticate_inner world cfg ≡ success (text "a")
unfolding authenticate_inner ask_daemon resolve_peer_id first_bonded outcome_of_response
    outcome_of_reason outcome_reason_to_pam daemon_round_trip bytes_eq
unlocked = refl

some_inj : {x y : Response} → some x ≡ some y → x ≡ y
some_inj q = cc

served :
    (nonce : Bytes) (r : Response)
    → daemon_round_trip world (text "/s") (text "a") nonce 8000 ≡ some r
    → r
      ≡ (dispatch toy no_hkdf (answers (replicate 16 5)) 600 (challenge (text "a") nonce) serving).0
unfolding daemon_round_trip dispatch reason_str issue_challenge bytes_eq with_nonce finish
    run_challenge send exchange check_response parse_signature check_signature check_replay
    verify_frame verify_body body_bytes encode contains insert compute_tag
served nonce r q = sym (some_inj q)

authenticate_inner-Granted_example :
    (signature : Bytes) × Granted toy
      (answers (replicate 16 5))
      (text "a")
      Server.default_auth_timeout
      daemon
      signature
authenticate_inner-Granted_example =
    authenticate_inner-Granted world cfg (text "a") toy no_hkdf (answers (replicate 16 5)) 600
      serving daemon refl served unlocked

-- The same world after a revocation of the first phone.
abbrev after_revocation : World
after_revocation = record world {
  bonds = λ path. ok (mark_revoked two_phones (text "a") (text "lost")).1;
}

authenticate_inner-mark_revoked_example :
    authenticate_inner after_revocation cfg ≢ success (text "a")
authenticate_inner-mark_revoked_example =
    authenticate_inner-mark_revoked after_revocation cfg two_phones (text "a") (text "lost")
      two_phones-Unique refl
