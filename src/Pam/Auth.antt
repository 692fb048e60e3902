-- ===== src/Pam/Auth.antt =====
-- crates/syauth-pam/src/auth.rs and entry.rs: one authentication, from the arguments of the module to
-- the code that PAM gets. What lies outside is a record of answers; the answer of a step that panics
-- is `none`.
use Prim.Native.Nat.{min}
use syauth.Base.{
  ℕ, Bool, true, false, Bytes, Text, text, bytes_eq, List, [], ◌∷◌, ◌++◌, Option, none, some,
  Result, ok, err, find, not, ◌==◌, if◌then◌else◌,
}
use syauth.Core.Bond.{Bond, BondStore, BondError, bonded, revoked, BondStatus}
use syauth.Presence.Rpc.{Request, Response, challenge, challenge_response}
use syauth.Presence.Challenge.{
  outcome_reason_ok, outcome_reason_denied, outcome_reason_replay, outcome_reason_bad_signature,
  outcome_reason_response_timeout, outcome_reason_unknown_peer, outcome_reason_transport_error,
  outcome_reason_busy,
}
use syauth.Pam.Config.{Config, from_pam_argv, bonds_file_path}

abbrev pub pam_success : ℕ
pam_success = 0

abbrev pub pam_auth_err : ℕ
pam_auth_err = 7

abbrev pub pam_authinfo_unavail : ℕ
pam_authinfo_unavail = 9

abbrev pub outcome_reason_offline : Text
outcome_reason_offline = text "offline"

abbrev pub outcome_reason_adapter_missing : Text
outcome_reason_adapter_missing = text "adapter-missing"

abbrev pub last_log_unknown_peer : Text
last_log_unknown_peer = text "unknown"

abbrev pub reason_no_bonds_configured : Text
reason_no_bonds_configured = text "no bonds configured"

abbrev pub reason_no_bonded_peer : Text
reason_no_bonded_peer = text "no bonded peer"

pub data AuthOutcome : Type 0 where
  success : Text → AuthOutcome
  auth_info_unavail auth_err : Text → Option Text → AuthOutcome

abbrev pub to_pam_code : AuthOutcome → ℕ
to_pam_code (success id) = pam_success
to_pam_code (auth_info_unavail reason id) = pam_authinfo_unavail
to_pam_code (auth_err reason id) = pam_auth_err

abbrev pub outcome_peer_id : AuthOutcome → Option Text
outcome_peer_id (success id) = some id
outcome_peer_id (auth_info_unavail reason id) = id
outcome_peer_id (auth_err reason id) = id

abbrev pub is_success : AuthOutcome → Bool
is_success (success id) = true
is_success o = false

-- The arms of a `match` on a string, in their order.
abbrev pub match_reason : List (Text × (ℕ × Text)) → ℕ × Text → Text → ℕ × Text
match_reason [] other reason = other
match_reason (arm ∷ arms) other reason =
    if bytes_eq reason arm.0 then arm.1 else match_reason arms other reason

abbrev pub reason_arms : List (Text × (ℕ × Text))
reason_arms =
    (outcome_reason_ok, (pam_success, outcome_reason_ok))
    ∷ (outcome_reason_denied, (pam_auth_err, outcome_reason_denied))
    ∷ (outcome_reason_replay, (pam_auth_err, outcome_reason_replay))
    ∷ (outcome_reason_bad_signature, (pam_auth_err, outcome_reason_bad_signature))
    ∷ (outcome_reason_response_timeout, (pam_authinfo_unavail, outcome_reason_response_timeout))
    ∷ (outcome_reason_offline, (pam_authinfo_unavail, outcome_reason_offline))
    ∷ (outcome_reason_busy, (pam_authinfo_unavail, outcome_reason_busy))
    ∷ (outcome_reason_unknown_peer, (pam_authinfo_unavail, outcome_reason_unknown_peer))
    ∷ (outcome_reason_transport_error, (pam_authinfo_unavail, outcome_reason_transport_error))
    ∷ (outcome_reason_adapter_missing, (pam_authinfo_unavail, outcome_reason_adapter_missing))
    ∷ []

unfoldable pub outcome_reason_to_pam : Text → ℕ × Text
outcome_reason_to_pam reason = match_reason reason_arms (pam_auth_err, text "unknown-reason") reason

abbrev pub is_bonded : BondStatus → Bool
is_bonded bonded = true
is_bonded (revoked reason) = false

unfoldable pub first_bonded : BondStore → Option Bond
first_bonded store = find (λ b. is_bonded b.status) store.bonds

unfoldable pub resolve_peer_id : Result BondStore BondError → Result Text AuthOutcome
unfolding first_bonded
resolve_peer_id (err e) = err (auth_info_unavail reason_no_bonds_configured none)
resolve_peer_id (ok store) = elim (first_bonded store) [
  | none ↦ err (auth_info_unavail reason_no_bonded_peer none)
  | some bond ↦ ok bond.peer_id
]

-- What the bond file, the random generator and the daemon's socket answer: `connect`,
-- `set_write_timeout` and `set_read_timeout` succeed or fail, then the request is written, and a
-- response comes within the given time or does not.
pub record World : Type 0 where
  pub bonds : Text → Result BondStore BondError
  pub fill : Option Bytes
  pub connect : Text → Bool
  pub set_write_timeout : Bool
  pub set_read_timeout : ℕ → Bool
  pub write_frame : Request → Bool
  pub read_frame : Option Response

abbrev pub daemon_response_budget : ℕ
daemon_response_budget = 8000

abbrev pub lesser : ℕ → ℕ → ℕ
lesser a b = min a b

unfoldable pub daemon_round_trip : World → Text → Text → Bytes → ℕ → Option Response
daemon_round_trip w socket_path peer_id nonce auth_timeout =
    if not (w.connect socket_path)
    then none
    else if not w.set_write_timeout
    then none
    else if not (w.set_read_timeout (lesser auth_timeout daemon_response_budget))
    then none
    else if not (w.write_frame (challenge peer_id nonce))
    then none
    else w.read_frame

abbrev pub of_code : Text → ℕ × Text → AuthOutcome
of_code peer_id r =
    if r.0 == pam_success
    then success peer_id
    else if r.0 == pam_authinfo_unavail
    then auth_info_unavail r.1 (some peer_id)
    else auth_err r.1 (some peer_id)

unfoldable pub outcome_of_reason : Text → Text → AuthOutcome
unfolding outcome_reason_to_pam
outcome_of_reason peer_id reason = of_code peer_id (outcome_reason_to_pam reason)

unfoldable pub outcome_of_response : Text → Option Response → AuthOutcome
unfolding outcome_of_reason
outcome_of_response peer_id (some (challenge_response o signature reason)) =
    outcome_of_reason peer_id reason
outcome_of_response peer_id response =
    auth_info_unavail outcome_reason_transport_error (some peer_id)

unfoldable pub ask_daemon : World → Config → Text → Option Bytes → AuthOutcome
unfolding outcome_of_response daemon_round_trip
ask_daemon w cfg peer_id none = auth_info_unavail outcome_reason_transport_error (some peer_id)
ask_daemon w cfg peer_id (some nonce) =
    outcome_of_response peer_id (daemon_round_trip w cfg.socket_path peer_id nonce cfg.auth_timeout)

unfoldable pub authenticate_inner : World → Config → AuthOutcome
unfolding resolve_peer_id ask_daemon
authenticate_inner w cfg = elim (resolve_peer_id (w.bonds (bonds_file_path cfg))) [
  | err outcome ↦ outcome
  | ok peer_id ↦ ask_daemon w cfg peer_id w.fill
]

-- The line that `append_last_log` writes, at the given time.
unfoldable pub last_log_line : Text → AuthOutcome → Text
last_log_line ts outcome =
    ts
    ++ (text " "
        ++ ((if is_success outcome then text "success" else text "failure")
            ++ (text " "
                ++ ((elim (outcome_peer_id outcome) [ none ↦ last_log_unknown_peer | some id ↦ id ])
                    ++ text "\n"))))

-- `authenticate`: the outcome, with the file of the log after it; a failure to write is swallowed.
unfoldable pub authenticate : World → Text → Bool → Config → Text → AuthOutcome × Text
unfolding authenticate_inner last_log_line
authenticate w ts writable cfg log =
    let outcome = authenticate_inner w cfg in
    (outcome, if writable then log ++ last_log_line ts outcome else log)

-- `catch_unwind`: `none` is a panic.
abbrev pub run_entry : Option ℕ → ℕ
run_entry (some code) = code
run_entry none = pam_auth_err

-- `collect_pam_argv`: a null `argv`, a count below one, null pointers and arguments that are not UTF-8.
pub data Argument : Type 0 where
  null_pointer not_utf8 : Argument
  string : Text → Argument

abbrev pub collect_strings : List Argument → List Text
collect_strings [] = []
collect_strings (null_pointer ∷ as_) = collect_strings as_
collect_strings (not_utf8 ∷ as_) = collect_strings as_
collect_strings (string s ∷ as_) = s ∷ collect_strings as_

abbrev pub collect_pam_argv : Option (List Argument) → List Text
collect_pam_argv none = []
collect_pam_argv (some arguments) = collect_strings arguments

-- The body of `pam_sm_authenticate`, unless it panics.
unfoldable pub pam_sm_authenticate : World → Option Text → ℕ → Bool → Option (List Argument) → ℕ
unfolding authenticate_inner from_pam_argv
pam_sm_authenticate w xdg euid panics argv = run_entry (
    if panics
    then none
    else some (to_pam_code (authenticate_inner w (from_pam_argv xdg euid (collect_pam_argv argv)))))
