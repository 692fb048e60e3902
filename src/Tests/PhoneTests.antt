-- ===== src/Tests/PhoneTests.antt =====
-- The phone's computations (crates/syauth-mobile) at concrete inputs.
use syauth.Base.{
  Bytes, Text, text, [], ◌∷◌, ◌++◌, replicate, Option, none, some, Result, ok, length,
  length-replicate, bytes_eq, bytes_eq_refl, slice, strip_prefix, ◌≡◌, ◌≢◌, ◌↔◌, refl, sym, ap, ◌∙◌,
}
use syauth.Core.Frame.{encode, decode, decode_fields, body_bytes}
use syauth.Core.Crypto.{compute_tag}
use syauth.Presence.Nonces.{contains}
use syauth.Presence.Nonces
use syauth.Presence.Peers.{new_entry}
use syauth.Presence.Challenge.{Answers, ok_signature, bad_signature, run_challenge, issue_challenge}
use syauth.Presence.Challenge.Verdict.{challenge_bytes}
use syauth.Mobile.{
  MobileError, bond_key_array, answer_challenge, verify_challenge_frame, sign_challenge_response,
  build_response_frame,
}
use syauth.Mobile.Unlock.{
  KeyPair, Reachable, sign_challenge_response-challenge_bytes,
  issue_challenge-sign_challenge_response,
}
use syauth.Mobile.ResponseFrame.{Answerable, run_challenge-build_response_frame}
use syauth.Mobile.Verified.{Verified, verify_challenge_frame-Verified}
use syauth.Mobile.Invite.{
  Invite, parse_invite_uri, split_ampersand, key_value, take_pair, collect_pairs, finish_invite,
}
use syauth.Mobile.Invite.Links.{invite_uri, parse_invite_uri-invite_uri}
use syauth.Tests.CoreTests.{toy}
use syauth.Tests.PresenceTests.{phone_key, bond_key, nonce, good, answers, daemon}

abbrev signing_key : Bytes
signing_key = replicate 32 8

toy-KeyPair :
    KeyPair toy
      (answers nonce)
      (text "a")
      8000
      daemon
      (new_entry bond_key (some phone_key))
      signing_key
      phone_key
      nonce
toy-KeyPair = record {
  hash_width = λ key body. length-replicate 32 (length body);
  key_width = refl;
  point = refl;
  sig_width = λ m. length-replicate 64 (length m);
  sig_form = λ m. refl;
  strict = λ m. bytes_eq_refl (replicate 64 (length m));
}

reached :
    (s : Bytes)
    → sign_challenge_response toy signing_key (challenge_bytes toy nonce bond_key) ≡ some (ok s)
    → ◌≡◌ {A = Result Bytes MobileError} (ok good) (ok s)
reached s h = ap ok (same (sym signs ∙ h))
  where
    signs :
        sign_challenge_response toy signing_key (challenge_bytes toy nonce bond_key)
        ≡ some (ok good)
    signs =
        sign_challenge_response-challenge_bytes toy nonce bond_key signing_key refl
          (λ key body. length-replicate 32 (length body)) refl

    same : ◌≡◌ {A = Option (Result Bytes MobileError)} (some (ok good)) (some (ok s)) → good ≡ s
    same q = cc

toy-Reachable :
    Reachable toy
      (answers nonce)
      (text "a")
      8000
      daemon
      (new_entry bond_key (some phone_key))
      signing_key
      phone_key
      nonce
unfolding bytes_eq contains
toy-Reachable = record {
  registered = refl;
  keyed = refl;
  free = refl;
  drawn = refl;
  nonce_width = refl;
  unseen = refl;
  notified = refl;
  answered = λ s h. ap ok (same (reached s h));
}
  where
    same : {s : Bytes} → ◌≡◌ {A = Result Bytes MobileError} (ok good) (ok s) → good ≡ s
    same q = cc

issue_challenge-sign_challenge_response_example :
    (issue_challenge toy (answers nonce) (text "a") 8000 daemon).0 ≡ ok_signature good
issue_challenge-sign_challenge_response_example =
    issue_challenge-sign_challenge_response toy (answers nonce) (text "a") 8000 daemon
      (new_entry bond_key (some phone_key)) signing_key phone_key nonce toy-KeyPair toy-Reachable

abbrev signer : Bytes → Bytes
signer = λ m. replicate 64 (length m)

abbrev response_nonce : Bytes
response_nonce = replicate 16 9

abbrev response_bytes : Bytes
response_bytes = 1 ∷ (replicate 16 9 ++ (replicate 64 17 ++ replicate 16 81))

abbrev framed : Answers
framed = record (answers nonce) { wait_for_response = λ id deadline. ok response_bytes }

toy-Answerable : Answerable toy nonce bond_key response_nonce signer
toy-Answerable = record {
  nonce_width = refl;
  response_width = refl;
  hash_width = λ key body. length-replicate 32 (length body);
  key_width = refl;
  sig_width = refl;
}

built :
    build_response_frame toy signer response_nonce bond_key (challenge_bytes toy nonce bond_key)
    ≡ some (ok response_bytes)
unfolding build_response_frame bond_key_array decode decode_fields answer_challenge body_bytes
    encode compute_tag slice
built = refl

delivered :
    (w : Bytes)
    → build_response_frame toy signer response_nonce bond_key (challenge_bytes toy nonce bond_key)
      ≡ some (ok w)
    → framed.wait_for_response (text "a") 8000 ≡ ok w
delivered w h = ap ok (same (sym built ∙ h))
  where
    same :
        ◌≡◌ {A = Option (Result Bytes MobileError)} (some (ok response_bytes)) (some (ok w))
        → response_bytes ≡ w
    same q = cc

run_challenge-build_response_frame_example :
    (run_challenge toy framed (text "a") nonce phone_key Nonces.new none 8000 bond_key).0
    ≡ bad_signature
run_challenge-build_response_frame_example =
    run_challenge-build_response_frame toy nonce bond_key response_nonce signer framed (text "a")
      phone_key Nonces.new none 8000 toy-Answerable refl delivered

verify_challenge_frame-Verified_example :
    (verify_challenge_frame toy bond_key (challenge_bytes toy nonce bond_key) ≡ some (ok []))
    ↔ Verified toy bond_key (challenge_bytes toy nonce bond_key) []
verify_challenge_frame-Verified_example =
    verify_challenge_frame-Verified toy bond_key (challenge_bytes toy nonce bond_key) []

abbrev hex : Text → Option Bytes
hex = λ t. some (replicate 32 7)

abbrev desk : Invite
desk = record { host_name = text "desk"; host_pubkey = replicate 32 7 }

desk_named : text "desk" ≢ []
desk_named q = cc

parse_invite_uri-invite_uri_example :
    parse_invite_uri hex (invite_uri (text "desk") (text "0707")) ≡ ok desk
parse_invite_uri-invite_uri_example =
    parse_invite_uri-invite_uri hex (text "desk") (text "0707") (replicate 32 7) refl refl
      desk_named refl refl

desk_parsed : parse_invite_uri hex (text "syauth://invite?x&host=desk&pubkey=07") ≡ ok desk
unfolding parse_invite_uri strip_prefix finish_invite collect_pairs split_ampersand take_pair
    bytes_eq key_value
desk_parsed = refl
