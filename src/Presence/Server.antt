-- ===== src/Presence/Server.antt =====
-- `dispatch` of crates/syauth-presenced/src/server.rs: one request, one response.
pub mod Dispatch
use syauth.Base.{
  ℕ, Bool, true, false, Bytes, Text, text, List, [], ◌∷◌, ◌++◌, map, Option, none, some,
  if◌then◌else◌,
}
use syauth.Core.Crypto.{Primitives}
use syauth.Transport.Session.{session_uuid_for}
use syauth.Presence.Peers.{Orchestrator, PeerEntry, ms_since, challenge_slot_in_flight}
use syauth.Presence.Reload.{minute_index}
use syauth.Presence.Rpc.{
  PeerStatus, Request, challenge, reload, status, Response, challenge_response, reload_response,
  status_response,
}
use syauth.Presence.Challenge.{
  ChallengeOutcome, ok_signature, Answers, reason_str, signature_bytes, issue_challenge,
}

-- in milliseconds
abbrev pub default_auth_timeout : ℕ
default_auth_timeout = 8000

abbrev pub stub_challenge_reason : Text
stub_challenge_reason = text "not-implemented"

pub data ReloadTrigger : Type 0 where
  sighup rpc inotify pair test : ReloadTrigger

-- The reload channel: whether its receiver is alive, and what is queued.
pub record ReloadChannel : Type 0 where
  pub is_open : Bool
  pub queue : List ReloadTrigger

pub record Server : Type 0 where
  pub orchestrator : Option Orchestrator
  pub reload_tx : Option ReloadChannel
  pub test_fixed_nonce : Option Bytes
  pub started_at : ℕ

abbrev pub matches_ok : ChallengeOutcome → Bool
matches_ok (ok_signature s) = true
matches_ok o = false

abbrev pub challenge_reply : ChallengeOutcome → Response
challenge_reply outcome =
    challenge_response (matches_ok outcome) (signature_bytes outcome) (reason_str outcome)

-- `issue_challenge_with_nonce` is `issue_challenge` but for the nonce.
abbrev pub with_fixed_nonce : Option Bytes → Answers → Answers
with_fixed_nonce none a = a
with_fixed_nonce (some nonce) a = record a { fill = some nonce }

-- `peers_snapshot`, by the milliseconds and the seconds of the clock
unfoldable pub peers_snapshot :
    (Bytes → Bytes → Option Bytes) → ℕ → ℕ → Orchestrator → List PeerStatus
peers_snapshot hkdf now_ms now_secs o =
    map
      (λ e. record {
        peer_id = e.0;
        last_challenge_ms_ago = ms_since now_ms e.1.liveness.last_challenge_at;
        last_connect_ms_ago = ms_since now_ms e.1.liveness.last_connect_at;
        current_session_uuid = session_uuid_for hkdf e.1.bond_key (minute_index now_secs);
        in_flight_challenges = challenge_slot_in_flight e.1;
      })
      o.peers

module _ (p : Primitives) (hkdf : Bytes → Bytes → Option Bytes) (a : Answers) (now_secs : ℕ) where
  abbrev pub dispatch_challenge : Server → Text → Option Orchestrator → Response × Server
  dispatch_challenge s peer_id none = (challenge_response false none stub_challenge_reason, s)
  dispatch_challenge s peer_id (some o) =
      let (outcome, o') =
        issue_challenge p (with_fixed_nonce s.test_fixed_nonce a) peer_id default_auth_timeout o in
      (challenge_reply outcome, record s { orchestrator = some o' })

  abbrev pub dispatch_reload : Server → Option ReloadChannel → Response × Server
  dispatch_reload s none = (reload_response false, s)
  dispatch_reload s (some tx) =
      if tx.is_open
      then (
        reload_response true,
        record s { reload_tx = some (record tx { queue = tx.queue ++ rpc ∷ [] }) },
      )
      else (reload_response false, s)

  abbrev pub snapshot_of : Option Orchestrator → List PeerStatus
  unfolding peers_snapshot
  snapshot_of none = []
  snapshot_of (some o) = peers_snapshot hkdf a.now now_secs o

  unfoldable pub dispatch : Request → Server → Response × Server
  dispatch (challenge peer_id nonce) s = dispatch_challenge s peer_id s.orchestrator
  dispatch reload s = dispatch_reload s s.reload_tx
  dispatch status s = (status_response (snapshot_of s.orchestrator) s.started_at, s)
