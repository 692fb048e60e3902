-- ===== src/Tests/DaemonTests.antt =====
-- Reloading, pairing, the RPC frames, the fragments and the operator's commands at concrete inputs.
use syauth.Base.{
  any, ◌||◌, false, Text, ◌+◌, ◌≤◌, true, Bytes, text, bytes_eq, get, List, [], ◌∷◌, ◌++◌,
  replicate, Option, none, some, ok, length, if◌then◌else◌, ◌≡◌, ◌↔◌, refl,
}
use syauth.Core.Bond.{Bond, BondStore, bonded, mark_revoked}
use syauth.Core.Bond.View.{Unique, view}
use syauth.Transport.Reassembly.{reassemble}
use syauth.Transport.Reassembly.Fragments.{payload_of, behind, reassemble-payload_of}
use syauth.Presence.Peers.{PeerEntry, new_entry}
use syauth.Presence.Challenge.{unknown, outcome_reason_ok, issue_challenge}
use syauth.Presence.Challenge.Grant.{Granted}
use syauth.Presence.Reload.{
  Backend, load_bond_key, compute_new_set, reload_peers, reload_bonds, build_uuid_union,
  pair_mode_zero_bond_key,
}
use syauth.Presence.Reload.Union.{is_in, is_in-build_uuid_union}
use syauth.Transport.Session.{session_uuid_for}
use syauth.Presence.Reload.Peers.{live, reloaded, get-reload_peers}
use syauth.Presence.Reload.Revocation.{issue_challenge-mark_revoked}
use syauth.Presence.Reload.Repair.{reload_keeps_entry}
use syauth.Presence.Pairing.{Io, Files, persist_pair_bond_record}
use syauth.Presence.Pairing.Replace.{persist_pair_bond_record-Replaced}
use syauth.Presence.Rpc.{
  Cbor, challenge_response, encode_frame, read_frame, max_frame_len, length_prefix_bytes,
}
use syauth.Presence.Rpc.RoundTrip.{read_frame-encode_frame}
use syauth.Presence.Server.{Server, with_fixed_nonce, dispatch}
use syauth.Presence.Server
use syauth.Presence.Server.Dispatch.{reply, reply_reason, dispatch-Granted}
use syauth.Tests.CoreTests.{toy, two_phones, two_phones-Unique}
use syauth.Tests.PresenceTests.{answers, daemon}

abbrev backend : Backend
backend = record {
  read_key = λ id. some (replicate 32 4);
  add_peer = λ id key. ok tt;
  remove_peer = λ id. ok tt;
  set_session_uuids = λ us. ok tt;
  hkdf = λ key info. none;
  unix_seconds = 600;
}

get-reload_peers_example :
    get (text "a") (reload_peers backend two_phones daemon.peers)
    ≡ reloaded backend two_phones
        (compute_new_set backend two_phones)
        (text "a")
        (get (text "a") daemon.peers)
get-reload_peers_example = get-reload_peers backend two_phones daemon.peers (text "a")

issue_challenge-mark_revoked_example :
    (issue_challenge toy
      (answers (replicate 16 5))
      (text "a")
      8000
      (reload_bonds backend (mark_revoked two_phones (text "a") (text "lost")).1 daemon).0).0
    ≡ unknown
issue_challenge-mark_revoked_example =
    issue_challenge-mark_revoked backend two_phones (text "a") (text "lost") two_phones-Unique
      daemon toy (answers (replicate 16 5)) 8000 refl

abbrev entry_a : PeerEntry
entry_a = new_entry (replicate 32 2) (some (replicate 32 1))

registered_a : get (text "a") daemon.peers ≡ some entry_a
unfolding bytes_eq
registered_a = refl

live_a : live (text "a") two_phones.bonds ≡ true
unfolding bytes_eq
live_a = refl

new_key : load_bond_key backend (text "a") ≡ some (replicate 32 4)
unfolding load_bond_key
new_key = refl

reload_keeps_entry_example :
    get (text "a") (reload_peers backend two_phones daemon.peers) ≡ some entry_a
reload_keeps_entry_example =
    reload_keeps_entry backend two_phones daemon.peers (text "a") entry_a (replicate 32 4)
      registered_a live_a new_key

abbrev renamed : Bond
renamed = record {
  peer_id = text "a";
  pubkey = replicate 32 1;
  name = text "new";
  created_at = 9;
  status = bonded;
}

abbrev files : Files
files = record { bonds = ok two_phones; keys = []; reloads = 0 }

abbrev io : Io
io = record { write_key = true; save = true; send = true; now_utc = 0 }

persist_pair_bond_record-Replaced_example :
    (t : BondStore) × ((k : Text)
      → view t k ≡ (if bytes_eq (text "a") k then some renamed else view two_phones k))
    × Unique t.bonds
    × (persist_pair_bond_record io files renamed ≡ (true, record files { bonds = ok t }))
persist_pair_bond_record-Replaced_example =
    persist_pair_bond_record-Replaced renamed io files two_phones refl two_phones-Unique

abbrev pub serving : Server
serving = record {
  orchestrator = some daemon;
  reload_tx = none;
  test_fixed_nonce = none;
  started_at = 0;
}

abbrev pub no_hkdf : Bytes → Bytes → Option Bytes
no_hkdf key info = none

dispatch-Granted_example :
    (reply_reason (reply toy no_hkdf (answers (replicate 16 5)) 600 serving (text "a") [])
      ≡ some outcome_reason_ok)
    ↔ ((signature : Bytes) × Granted toy
          (answers (replicate 16 5))
          (text "a")
          Server.default_auth_timeout
          daemon
          signature
        × (reply toy no_hkdf (answers (replicate 16 5)) 600 serving (text "a") []
            ≡ challenge_response true (some signature) outcome_reason_ok))
dispatch-Granted_example =
    dispatch-Granted toy no_hkdf (answers (replicate 16 5)) 600 serving (text "a") [] daemon refl

-- bytes as a message that is its own encoding
abbrev raw : Cbor Bytes
raw = record { into_writer = some; from_reader = some }

abbrev framed : Bytes
framed = 0 ∷ 0 ∷ 0 ∷ 3 ∷ 7 ∷ 8 ∷ 9 ∷ []

some_inj : {x y : Bytes} → some x ≡ some y → some y ≡ some x
some_inj q = cc

encoded : encode_frame raw (7 ∷ 8 ∷ 9 ∷ []) ≡ ok framed
unfolding encode_frame
encoded = refl

read_frame-encode_frame_example :
    (read_frame raw (framed ++ (1 ∷ [])) ≡ (ok (7 ∷ 8 ∷ 9 ∷ []), 1 ∷ []))
    × (length framed ≤ length_prefix_bytes + max_frame_len)
read_frame-encode_frame_example =
    read_frame-encode_frame raw (7 ∷ 8 ∷ 9 ∷ []) framed (1 ∷ []) (λ payload q. some_inj q) encoded

abbrev big_prefix : Bytes
big_prefix = 0 ∷ 2 ∷ 0 ∷ 0 ∷ []

abbrev two_fragments : List Bytes
two_fragments = (128 ∷ 1 ∷ 2 ∷ []) ∷ (0 ∷ 3 ∷ []) ∷ []

reassemble-payload_of_example : reassemble two_fragments ≡ behind [] (payload_of two_fragments)
reassemble-payload_of_example = reassemble-payload_of two_fragments

is_in-build_uuid_union_example :
    is_in (replicate 16 0) (build_uuid_union backend ((text "a", replicate 32 2) ∷ []) 10) ≡ (
      bytes_eq (session_uuid_for backend.hkdf pair_mode_zero_bond_key 10) (replicate 16 0)
      || (any
            (λ (e : Text × Bytes). bytes_eq (session_uuid_for backend.hkdf e.1 10) (replicate 16 0))
            ((text "a", replicate 32 2) ∷ [])
          || false))
is_in-build_uuid_union_example =
    is_in-build_uuid_union backend 10 (replicate 16 0) ((text "a", replicate 32 2) ∷ [])
