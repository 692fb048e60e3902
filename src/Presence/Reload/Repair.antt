-- ===== src/Presence/Reload/Repair.antt =====
-- A phone that pairs again and the daemon of crates/syauth-presenced/src/orchestrator.rs.
use syauth.Base.{true, Bytes, Text, Dict, get, some, ◌≡◌, refl, ap, ◌∙◌}
use syauth.Core.Bond.{BondStore}
use syauth.Presence.Peers.{PeerEntry}
use syauth.Presence.Reload.{Backend, load_bond_key, compute_new_set, reload_peers}
use syauth.Presence.Reload.Peers.{live, reloaded, get-reload_peers}
use syauth.Presence.Reload.Revocation.{get-compute_new_set}

-- A registered peer whose bond is not revoked keeps its entry over a reload, the bond key included,
-- whatever key the key directory holds for it by then.
pub reload_keeps_entry :
    (b : Backend) (store : BondStore) (peers : Dict PeerEntry) (id : Text) (e : PeerEntry)
    (key : Bytes)
    → get id peers ≡ some e
    → live id store.bonds ≡ true
    → load_bond_key b id ≡ some key
    → get id (reload_peers b store peers) ≡ some e
unfolding reloaded
reload_keeps_entry b store peers id e key here bonded loaded =
    get-reload_peers b store peers id
    ∙ ap (reloaded b store (compute_new_set b store) id) here
    ∙ rw (in_set, reloaded) refl
  where
    in_set : get id (compute_new_set b store) ≡ some key
    in_set = get-compute_new_set b store id ∙ rw (bonded, loaded) refl
