-- ===== src/Pam/Verdict.antt =====
-- When the PAM module of crates/syauth-pam lets a user in.
use syauth.Base.{
  ℕ, Bool, true, false, Bytes, Text, List, Option, none, some, ok, ◌==◌, ==_iff, ◌≡◌, ◌≢◌, ◌↔◌,
  refl, sym, ap, ◌∙◌, arith, Bool-cases, Option-cases, Result-cases, inl, inr,
}
use syauth.Core.Crypto.{Primitives}
use syauth.Core.Bond.{Bond, BondStore}
use syauth.Presence.Peers.{Orchestrator}
use syauth.Presence.Rpc.{Response, challenge, challenge_response, reload_response, status_response}
use syauth.Presence.Challenge.{Answers, outcome_reason_ok}
use syauth.Presence.Challenge.Grant.{Granted}
use syauth.Presence.Server.{Server, with_fixed_nonce, dispatch}
use syauth.Presence.Server
use syauth.Presence.Server.Dispatch.{reply_reason, dispatch-Granted}
use syauth.Pam.Config.{Config, from_pam_argv, bonds_file_path}
use syauth.Pam.Auth.{
  pam_success, pam_authinfo_unavail, AuthOutcome, success, auth_info_unavail, auth_err, to_pam_code,
  outcome_reason_to_pam, first_bonded, reason_no_bonds_configured, reason_no_bonded_peer,
  resolve_peer_id, World, daemon_round_trip, of_code, outcome_of_reason, outcome_of_response,
  ask_daemon, authenticate_inner, Argument, collect_pam_argv, pam_sm_authenticate,
}
use syauth.Pam.Chosen.{FirstBonded, first_bonded-FirstBonded}
use syauth.Pam.Reasons.{auth_err≢success, outcome_reason_to_pam-success}

abbrev is_success : AuthOutcome → Bool
is_success (success id) = true
is_success o = false

refused : (o : AuthOutcome) (id : Text) → is_success o ≡ false → o ≢ success id
refused o id h q = cc (sym h ∙ ap is_success q)

success_inj : {x y : Text} → success x ≡ success y → x ≡ y
success_inj q = cc

code-success :
    (peer_id id : Text) (r : ℕ × Text)
    → of_code peer_id r ≡ success id
    → (r.0 ≡ pam_success) × (peer_id ≡ id)
code-success peer_id id r q = elim (Bool-cases (r.0 == pam_success)) [
  | inl z ↦ ((==_iff r.0 pam_success).0 z, success_inj (rw z at q))
  | inr nz ↦ elim (Bool-cases (r.0 == pam_authinfo_unavail)) [
    | inl u ↦ absurd (refused (auth_info_unavail r.1 (some peer_id)) id refl (rw (nz, u) at q))
    | inr u ↦ absurd (refused (auth_err r.1 (some peer_id)) id refl (rw (nz, u) at q))
  ]
]

success-code :
    (peer_id : Text) (r : ℕ × Text) → r.0 ≡ pam_success → of_code peer_id r ≡ success peer_id
success-code peer_id r h = rw ((==_iff r.0 pam_success).1 h) refl

-- The bond file loads, the first of its bonds with the status `bonded` is that of the peer, and the
-- daemon said `ok` for it.
pub record Unlocks (w : World) (cfg : Config) (id : Text) : Type 0 where
  pub store : BondStore
  pub bond : Bond
  pub nonce : Bytes
  pub flag : Bool
  pub signature : Option Bytes
  pub loaded : w.bonds (bonds_file_path cfg) ≡ ok store
  pub chosen : FirstBonded store.bonds bond
  pub named : bond.peer_id ≡ id
  pub drawn : w.fill ≡ some nonce
  pub answered :
      daemon_round_trip w cfg.socket_path id nonce cfg.auth_timeout
      ≡ some (challenge_response flag signature outcome_reason_ok)

module _ (w : World) (cfg : Config) (id : Text) where
  response-success :
      (peer_id : Text) (r : Option Response)
      → outcome_of_response peer_id r ≡ success id
      → (flag : Bool) × (signature : Option Bytes) × (r
          ≡ some (challenge_response flag signature outcome_reason_ok))
        × (peer_id ≡ id)
  unfolding outcome_of_response outcome_of_reason
  response-success peer_id none q = absurd (refused (outcome_of_response peer_id none) id refl q)
  response-success peer_id (some (challenge_response flag s reason)) q =
      let (zero_code, same) = code-success peer_id id (outcome_reason_to_pam reason) q in
      (
        flag,
        s,
        ap (λ (t : Text). some (challenge_response flag s t))
            ((outcome_reason_to_pam-success reason).0 zero_code),
        same,
      )
  response-success peer_id (some (reload_response g)) q =
      absurd (refused (outcome_of_response peer_id (some (reload_response g))) id refl q)
  response-success peer_id (some (status_response ps t)) q =
      absurd (refused (outcome_of_response peer_id (some (status_response ps t))) id refl q)

  Unlocks-from :
      (store : BondStore) (bond : Bond) (filled : Option Bytes)
      → w.bonds (bonds_file_path cfg) ≡ ok store
      → first_bonded store ≡ some bond
      → w.fill ≡ filled
      → ask_daemon w cfg bond.peer_id filled ≡ success id
      → Unlocks w cfg id
  unfolding ask_daemon
  Unlocks-from store bond none l c n q =
      absurd (refused (ask_daemon w cfg bond.peer_id none) id refl q)
  Unlocks-from store bond (some nonce) l c n q =
      let (flag, s, answered, same) =
        response-success bond.peer_id
          (daemon_round_trip w cfg.socket_path bond.peer_id nonce cfg.auth_timeout) q in
      record {
        store = store;
        bond = bond;
        nonce = nonce;
        flag = flag;
        signature = s;
        loaded = l;
        chosen = (first_bonded-FirstBonded store bond).0 c;
        named = same;
        drawn = n;
        answered =
            ap (λ (t : Text). daemon_round_trip w cfg.socket_path t nonce cfg.auth_timeout)
              (sym same)
            ∙ answered;
      }

  to_Unlocks : authenticate_inner w cfg ≡ success id → Unlocks w cfg id
  unfolding authenticate_inner resolve_peer_id
  to_Unlocks q = elim (Result-cases (w.bonds (bonds_file_path cfg))) [
    | inl (e, l) ↦ absurd (
        refused (auth_info_unavail reason_no_bonds_configured none) id refl
          (rw (l, authenticate_inner, resolve_peer_id) at q))
    | inr (store, l) ↦ elim (Option-cases (first_bonded store)) [
      | inl c ↦ absurd (
          refused (auth_info_unavail reason_no_bonded_peer none) id refl
            (rw (l, c, authenticate_inner, resolve_peer_id) at q))
      | inr (bond, c) ↦
          Unlocks-from store bond w.fill l c refl
            (rw (l, c, authenticate_inner, resolve_peer_id) at q)
    ]
  ]

  asks :
      (store : BondStore) (bond : Bond)
      → w.bonds (bonds_file_path cfg) ≡ ok store
      → first_bonded store ≡ some bond
      → authenticate_inner w cfg ≡ ask_daemon w cfg bond.peer_id w.fill
  unfolding authenticate_inner resolve_peer_id
  asks store bond l c = rw (l, c, authenticate_inner, resolve_peer_id) refl

  from_Unlocks : Unlocks w cfg id → authenticate_inner w cfg ≡ success id
  unfolding ask_daemon outcome_of_response outcome_of_reason
  from_Unlocks u =
      asks u.store u.bond u.loaded ((first_bonded-FirstBonded u.store u.bond).1 u.chosen)
      ∙ ap (λ (t : Text). ask_daemon w cfg t w.fill) u.named
      ∙ ap (ask_daemon w cfg id) u.drawn
      ∙ ap (outcome_of_response id) u.answered
      ∙ success-code id (outcome_reason_to_pam outcome_reason_ok)
          ((outcome_reason_to_pam-success outcome_reason_ok).1 refl)

  pub authenticate_inner-success : (authenticate_inner w cfg ≡ success id) ↔ Unlocks w cfg id
  authenticate_inner-success = (to_Unlocks, from_Unlocks)

-- Under PAM a call returns the success code exactly when it does not panic and the outcome of the
-- authentication with the configuration of its arguments is a success for some peer.
pub pam_sm_authenticate-success :
    (w : World) (xdg : Option Text) (euid : ℕ) (panics : Bool) (argv : Option (List Argument))
    → (pam_sm_authenticate w xdg euid panics argv ≡ pam_success) ↔ (
        (panics ≡ false)
        × (id : Text) × Unlocks w (from_pam_argv xdg euid (collect_pam_argv argv)) id)
unfolding pam_sm_authenticate
pam_sm_authenticate-success w xdg euid true argv =
    (λ q. absurd (auth_err≢success q), λ (q, _, _). cc)
pam_sm_authenticate-success w xdg euid false argv = (
  λ q. let (id, u) = lets_in (authenticate_inner w cfg) refl q in (refl, id, u),
  λ (_, id, u). ap to_pam_code ((authenticate_inner-success w cfg id).1 u),
)
  where
    cfg : Config
    cfg = from_pam_argv xdg euid (collect_pam_argv argv)

    unavail≢success : pam_authinfo_unavail ≢ pam_success
    unavail≢success q = omega arith

    lets_in :
        (o : AuthOutcome)
        → authenticate_inner w cfg ≡ o
        → to_pam_code o ≡ pam_success
        → (id : Text) × Unlocks w cfg id
    lets_in (success id) e q = (id, (authenticate_inner-success w cfg id).0 e)
    lets_in (auth_info_unavail r id) e q = absurd (unavail≢success q)
    lets_in (auth_err r id) e q = absurd (auth_err≢success q)

-- When what the module reads is the daemon's answer to its request, a success for a peer means that
-- the daemon's orchestrator granted that peer a signature over a nonce of its own.
pub authenticate_inner-Granted :
    (w : World) (cfg : Config) (id : Text) (p : Primitives) (hkdf : Bytes → Bytes → Option Bytes)
    (a : Answers) (now_secs : ℕ) (s : Server) (o : Orchestrator)
    → s.orchestrator ≡ some o
    → ((nonce : Bytes) (r : Response)
        → daemon_round_trip w cfg.socket_path id nonce cfg.auth_timeout ≡ some r
        → r ≡ (dispatch p hkdf a now_secs (challenge id nonce) s).0)
    → authenticate_inner w cfg ≡ success id
    → (signature : Bytes) × Granted p
        (with_fixed_nonce s.test_fixed_nonce a)
        id
        Server.default_auth_timeout
        o
        signature
authenticate_inner-Granted w cfg id p hkdf a now_secs s o running served q =
    let u = (authenticate_inner-success w cfg id).0 q in
    let e = served u.nonce (challenge_response u.flag u.signature outcome_reason_ok) u.answered in
    let (signature, g, _) =
      (dispatch-Granted p hkdf a now_secs s id u.nonce o running).0 (ap reply_reason (sym e)) in
    (signature, g)
