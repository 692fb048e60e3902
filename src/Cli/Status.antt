-- ===== src/Cli/Status.antt =====
-- crates/syauth-cli/src/status.rs: what `syauth status` reads and prints. The parser of RFC 3339, the
-- rendered ages and times, and what the socket answers are parameters.
pub mod LastUnlock
pub mod Writers
pub mod AuditLines
use syauth.Base.{
  ℕ, zero, suc, ◌+◌, ◌-◌, Bool, true, false, not, ◌||◌, leb, Bytes, Text, text, bytes_eq, List, [],
  ◌∷◌, ◌++◌, Option, none, some, Result, ok, err, and_then, length, take, replicate, map, concat,
  flat_map, split_inclusive, split_ascii_whitespace, strip_end, trim_start, trim_end_matches, ◌==◌,
  if◌then◌else◌,
}
use syauth.Core.Crypto.{Primitives}
use syauth.Core.Bond.{BondStore, BondError, Toml, ReadResult, load, hex_lowercase}
use syauth.Presence.Audit.{decimal}
use syauth.Presence.Rpc.{PeerStatus, Response, challenge_response, reload_response, status_response}

abbrev pub short_uuid_hex_len : ℕ
short_uuid_hex_len = 8

abbrev pub last_unlock_log_max_lines : ℕ
last_unlock_log_max_lines = 64

abbrev pub advertising_state_v01 : Bool
advertising_state_v01 = false

abbrev pub last_unlock_no_entries : Text
last_unlock_no_entries = text "(no entries)"

abbrev pub last_unlock_unparseable_prefix : Text
last_unlock_unparseable_prefix = text "(unparseable: "

pub data StatusError : Type 0 where
  bond_failure : BondError → StatusError
  io_failure : StatusError
  json_failure : StatusError

pub data AdapterState : Type 0 where
  powered down missing : AdapterState

abbrev pub as_token : AdapterState → Text
as_token powered = text "Powered"
as_token down = text "Down"
as_token missing = text "Missing"

pub record LastUnlockEntry : Type 0 where
  pub timestamp : Text
  pub outcome : Text
  pub peer_id : Text

pub data LastUnlockView : Type 0 where
  no_entries : LastUnlockView
  entry : LastUnlockEntry → LastUnlockView
  unparseable : Text → LastUnlockView

-- What `File::open` answers for the log.
pub data LogFile : Type 0 where
  not_there : LogFile
  unreadable : LogFile
  log_text : Text → LogFile

-- `line.trim().is_empty()`
unfoldable pub is_blank : Text → Bool
is_blank line = elim (trim_start line) [ [] ↦ true | _ ∷ _ ↦ false ]

module _ (is_rfc3339 : Text → Bool) (utf8 : Text → Bool) where
  -- the three fields of a line
  abbrev pub three_fields : List Text → Option LastUnlockEntry
  three_fields (ts ∷ outcome ∷ peer_id ∷ []) =
      if not (bytes_eq outcome (text "success") || bytes_eq outcome (text "failure"))
      then none
      else if not (is_rfc3339 ts)
      then none
      else some (record { timestamp = ts; outcome = outcome; peer_id = peer_id })
  three_fields _ = none

  -- of a line that `BufRead::lines` gave, whose end is gone
  unfoldable pub parse_last_log_line : Text → Option LastUnlockEntry
  parse_last_log_line line =
      three_fields
        (split_ascii_whitespace (trim_end_matches (λ (c : ℕ). c == b'\n' || c == b'\r') line))

  -- the loop over the lines, with the lines read and the last line that is not blank
  unfoldable pub last_from : ℕ → Option Text → List Text → Result (Option Text) StatusError
  unfolding is_blank
  last_from lines_read last_non_empty [] = ok last_non_empty
  last_from lines_read last_non_empty (l ∷ ls) =
      let line = strip_end l in
      let rest =
        last_from (lines_read + 1) (if is_blank line then last_non_empty else some line) ls in
      if leb last_unlock_log_max_lines lines_read
      then ok last_non_empty
      else if not (utf8 l)
      then err io_failure
      else rest

  abbrev pub view_of : Option Text → LastUnlockView
  unfolding parse_last_log_line
  view_of none = no_entries
  view_of (some raw) = elim (parse_last_log_line raw) [ some e ↦ entry e | none ↦ unparseable raw ]

  unfoldable pub read_last_unlock : LogFile → Result LastUnlockView StatusError
  unfolding last_from
  read_last_unlock not_there = ok no_entries
  read_last_unlock unreadable = err io_failure
  read_last_unlock (log_text t) =
      and_then (last_from 0 none (split_inclusive t)) (λ last. ok (view_of last))

pub data ErrorKind : Type 0 where
  kind_not_found connection_refused permission_denied timed_out : ErrorKind
  other_kind : Text → ErrorKind

-- What the socket of the daemon answers, up to the reply; a reason is its token.
pub data Probe : Type 0 where
  no_socket : Probe
  connect_failed : ErrorKind → Probe
  set_read_timeout_failed : Text → Probe
  set_write_timeout_failed : Text → Probe
  write_failed : Text → Probe
  read_failed : Text → Probe
  replied : Response → Probe

pub data DaemonProbeState : Type 0 where
  up : ℕ → List PeerStatus → DaemonProbeState
  daemon_down : Text → DaemonProbeState

abbrev pub connect_error_reason : ErrorKind → Text
connect_error_reason kind_not_found = text "socket-missing"
connect_error_reason connection_refused = text "connect-refused"
connect_error_reason permission_denied = text "permission-denied"
connect_error_reason timed_out = text "timeout"
connect_error_reason (other_kind other) = text "connect-error: " ++ other

pub record StatusSnapshot : Type 0 where
  pub adapter : Text
  pub adapter_state : AdapterState
  pub advertising : Bool
  pub bonds_count : ℕ
  pub last_unlock : LastUnlockView

abbrev pub bool_text : Bool → Text
bool_text true = text "true"
bool_text false = text "false"

abbrev pub render_last_unlock : LastUnlockView → Text
render_last_unlock no_entries = last_unlock_no_entries
render_last_unlock (entry e) = e.timestamp ++ (text "  " ++ (e.outcome ++ (text "  " ++ e.peer_id)))
render_last_unlock (unparseable raw) = last_unlock_unparseable_prefix ++ (raw ++ text ")")

-- the lines that `render_status_to` writes
unfoldable pub render_status : StatusSnapshot → List Text
render_status s =
    (text "adapter:           " ++ s.adapter)
    ∷ (text "adapter-state:     " ++ as_token s.adapter_state)
    ∷ (text "advertising:       " ++ bool_text s.advertising)
    ∷ (text "bonds-count:       " ++ decimal s.bonds_count)
    ∷ (text "last-unlock:       " ++ render_last_unlock s.last_unlock)
    ∷ []

unfoldable pub probe_daemon : Probe → DaemonProbeState
probe_daemon no_socket = daemon_down (text "socket-missing")
probe_daemon (connect_failed kind) = daemon_down (connect_error_reason kind)
probe_daemon (set_read_timeout_failed kind) =
    daemon_down (text "read-timeout-setup-failed: " ++ kind)
probe_daemon (set_write_timeout_failed kind) =
    daemon_down (text "write-timeout-setup-failed: " ++ kind)
probe_daemon (write_failed e) = daemon_down (text "frame-error: " ++ e)
probe_daemon (read_failed e) = daemon_down (text "frame-error: " ++ e)
probe_daemon (replied (status_response peers started_at)) = up started_at peers
probe_daemon (replied _) = daemon_down (text "unexpected-response")

-- `format!("{:<width$}")` on ASCII
abbrev pub pad_to : ℕ → Text → Text
pad_to width t = t ++ replicate (width - length t) b' '

unfoldable pub short_uuid_hex : Bytes → Text
short_uuid_hex uuid = take short_uuid_hex_len (hex_lowercase uuid)

-- `{:.1}` of the milliseconds over 1000 as an `f64`, and the time as RFC 3339
pub record Formats : Type 0 where
  pub seconds_one_decimal : ℕ → Text
  pub rfc3339 : ℕ → Text

module _ (formats : Formats) where
  abbrev pub format_ms_ago : Option ℕ → Text
  format_ms_ago none = text "never"
  format_ms_ago (some ms) = formats.seconds_one_decimal ms ++ text "s ago"

  unfoldable pub peer_row : PeerStatus → Text
  unfolding short_uuid_hex
  peer_row peer =
      pad_to 68 peer.peer_id
      ++ (text "  "
          ++ (pad_to 14 (format_ms_ago peer.last_challenge_ms_ago)
              ++ (text "  "
                  ++ (pad_to 14 (format_ms_ago peer.last_connect_ms_ago)
                      ++ (text "  "
                          ++ (pad_to 8 (short_uuid_hex peer.current_session_uuid)
                              ++ (text "  " ++ decimal peer.in_flight_challenges)))))))

  abbrev pub peer_header : Text
  peer_header =
      text
        "peer_id                                                              last_challenge  last_connect    uuid      in_flight"

  -- the lines that `write_daemon_section` writes
  unfoldable pub daemon_section : DaemonProbeState → List Text
  unfolding peer_row
  daemon_section (up started_at peers) =
      (text "daemon=up started_at=" ++ formats.rfc3339 started_at)
      ∷ peer_header
      ∷ map peer_row peers
  daemon_section (daemon_down reason) = (text "daemon=down: " ++ reason) ∷ []

-- `gather_status` and `gather_status_async`, by the state that the probe of the adapter gives
module _ (p : Primitives) (toml : Toml) (is_rfc3339 : Text → Bool) (utf8 : Text → Bool) where
  abbrev pub snapshot_of_status :
      Text
      → AdapterState
      → Result BondStore BondError
      → Result LastUnlockView StatusError
      → Result StatusSnapshot StatusError
  snapshot_of_status adapter state (err e) log = err (bond_failure e)
  snapshot_of_status adapter state (ok store) (err e) = err e
  snapshot_of_status adapter state (ok store) (ok last) = ok (record {
    adapter = adapter;
    adapter_state = state;
    advertising = advertising_state_v01;
    bonds_count = length store.bonds;
    last_unlock = last;
  })

  unfoldable pub gather_status :
      Text → AdapterState → ReadResult → LogFile → Result StatusSnapshot StatusError
  unfolding read_last_unlock
  gather_status adapter state bonds log =
      snapshot_of_status adapter state (load p toml bonds) (read_last_unlock is_rfc3339 utf8 log)

  -- what `render_one_shot` prints without `--json`: the section of the daemon is written first, also
  -- where the rest fails
  unfoldable pub render_one_shot :
      Formats
      → Text
      → AdapterState
      → ReadResult
      → LogFile
      → Probe
      → List Text × Result (Unit {0}) StatusError
  unfolding daemon_section probe_daemon gather_status render_status
  render_one_shot formats adapter state bonds log probe =
      let section = daemon_section formats (probe_daemon probe) in
      elim (gather_status adapter state bonds log) [
        | err e ↦ (section, err e)
        | ok s ↦ (section ++ render_status s, ok tt)
      ]
