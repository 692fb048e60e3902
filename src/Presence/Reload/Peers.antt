-- ===== src/Presence/Reload/Peers.antt =====
-- The peers after a reload of crates/syauth-presenced/src/orchestrator.rs, one id at a time.
use syauth.Base.{
  Bool, true, false, not, ◌&&◌, ◌||◌, Bytes, Text, bytes_eq, eq_of-bytes_eq, Dict, get,
  contains_key, is_some, get-erase, get-insert, List, [], ◌∷◌, Option, none, some, Result, ok, err,
  find, any, filter, if◌then◌else◌, ◌>>=◌, ◌≡◌, refl, sym, ap, ◌∙◌, Bool-cases, Option-cases,
  Result-cases, inl, inr,
}
use syauth.Core.Bond.{Bond, BondStore, has_id, is_revoked}
use syauth.Presence.Peers.{PeerEntry, new_entry}
use syauth.Presence.Reload.{
  Backend, compute_new_set, keys, compute_diff, do_remove_peer, add_with, do_add_peer, remove_all,
  add_listed, add_all, reload_peers,
}

abbrev pub mem : Text → List Text → Bool
mem k ids = any (λ id. bytes_eq id k) ids

abbrev pub is_ok {ℓ κ} : {A : Type ℓ} {E : Type κ} → Result A E → Bool
is_ok (ok a) = true
is_ok (err e) = false

abbrev pub or_else {ℓ} : {A : Type ℓ} → Option A → Option A → Option A
or_else (some a) o = some a
or_else none o = o

-- `id` is the id of a bond that is not revoked
abbrev pub live : Text → List Bond → Bool
live id bs = any (λ c. has_id id c && not (is_revoked c)) bs

same_if {ℓ} : {A : Type ℓ} (t : Bool) (v : A) → v ≡ (if t then v else v)
same_if true v = refl
same_if false v = refl

module _ (b : Backend) where
  get-remove_peer :
      (j k : Text) (m : Dict PeerEntry)
      → get k (do_remove_peer b j m)
        ≡ (if bytes_eq j k && is_ok (b.remove_peer j) then none else get k m)
  unfolding do_remove_peer
  get-remove_peer j k m = elim (Result-cases (b.remove_peer j)) [
    | inl (e, q) ↦
        rw (q, do_remove_peer)
          (elim (Bool-cases (bytes_eq j k)) [ inl h ↦ rw h refl | inr h ↦ rw h refl ])
    | inr (u, q) ↦
        rw (q, do_remove_peer)
          (get-erase j k m
            ∙ elim (Bool-cases (bytes_eq j k)) [ inl h ↦ rw h refl | inr h ↦ rw h refl ])
  ]

  get-remove_all :
      (k : Text) (ids : List Text) (m : Dict PeerEntry)
      → get k (remove_all b ids m)
        ≡ (if mem k ids && is_ok (b.remove_peer k) then none else get k m)
  unfolding remove_all
  get-remove_all k [] m = refl
  get-remove_all k (id ∷ ids) m =
      get-remove_all k ids (do_remove_peer b id m) ∙ elim (Bool-cases (bytes_eq id k)) [
        | inl h ↦
            rw (h, get-remove_peer id k m, h, removes h)
              (twice (mem k ids) (is_ok (b.remove_peer k)) (get k m))
        | inr h ↦ rw (h, get-remove_peer id k m, h) refl
      ]
    where
      removes : bytes_eq id k ≡ true → is_ok (b.remove_peer id) ≡ is_ok (b.remove_peer k)
      removes h = ap (λ (t : Text). is_ok (b.remove_peer t)) (eq_of-bytes_eq id k h)

      twice :
          (x y : Bool) (v : Option PeerEntry)
          → (if x && y then none else if y then none else v) ≡ (if y then none else v)
      twice true true v = refl
      twice true false v = refl
      twice false y v = refl

  -- the entry that an addition makes
  unfoldable pub added : BondStore → Dict Bytes → Text → Option PeerEntry
  added store new_set k = do
    key ← get k new_set
    bond ← find (has_id k) store.bonds
    if is_ok (b.add_peer k key) then some (new_entry key (some bond.pubkey)) else none

  module _ (store : BondStore) (new_set : Dict Bytes) where
    get-add_listed :
        (j k : Text) (m : Dict PeerEntry)
        → get k (add_listed b store new_set j m)
          ≡ (if bytes_eq j k then or_else (added store new_set j) (get k m) else get k m)
    unfolding add_listed do_add_peer added
    get-add_listed j k m = elim (Option-cases (get j new_set)) [
      | inl q ↦ rw (q, add_listed, added) (same_if (bytes_eq j k) (get k m))
      | inr (key, q) ↦ elim (Option-cases (find (has_id j) store.bonds)) [
        | inl f ↦ rw (q, f, add_listed, do_add_peer, added) (same_if (bytes_eq j k) (get k m))
        | inr (c, f) ↦ elim (Result-cases (b.add_peer j key)) [
          | inl (e, r) ↦
              rw (q, f, r, add_listed, do_add_peer, add_with, added)
                (same_if (bytes_eq j k) (get k m))
          | inr (u, r) ↦
              rw (q, f, r, add_listed, do_add_peer, add_with, added)
                (get-insert j k (new_entry key (some c.pubkey)) m)
        ]
      ]
    ]

    get-add_all :
        (k : Text) (ids : List Text) (m : Dict PeerEntry)
        → get k (add_all b store new_set ids m)
          ≡ (if mem k ids then or_else (added store new_set k) (get k m) else get k m)
    unfolding add_all
    get-add_all k [] m = refl
    get-add_all k (id ∷ ids) m =
        get-add_all k ids (add_listed b store new_set id m) ∙ elim (Bool-cases (bytes_eq id k)) [
          | inl h ↦
              rw (h, get-add_listed id k m, h, same h)
                (twice (mem k ids) (added store new_set k) (get k m))
          | inr h ↦ rw (h, get-add_listed id k m, h) refl
        ]
      where
        same : bytes_eq id k ≡ true → added store new_set id ≡ added store new_set k
        same h = ap (added store new_set) (eq_of-bytes_eq id k h)

        twice :
            (x : Bool) (o v : Option PeerEntry)
            → (if x then or_else o (or_else o v) else or_else o v) ≡ or_else o v
        twice true none v = refl
        twice true (some e) v = refl
        twice false o v = refl

  mem-filter_keys {ℓ} :
      {V : Type ℓ} (k : Text) (q : Text → Bool) (m : Dict V)
      → mem k (filter q (keys b m)) ≡ (contains_key k m && q k)
  mem-filter_keys k q [] = refl
  mem-filter_keys k q (e ∷ es) = elim (Bool-cases (bytes_eq e.0 k)) [
    | inl h ↦ elim (Bool-cases (q k)) [
      | inl y ↦ rw (h, same h ∙ y, y, h) refl
      | inr n ↦ rw (h, same h ∙ n, n, mem-filter_keys k q es, n) (and_false (contains_key k es))
    ]
    | inr h ↦ elim (Bool-cases (q e.0)) [
      | inl y ↦ rw (h, y, h, mem-filter_keys k q es) refl
      | inr n ↦ rw (h, n, mem-filter_keys k q es) refl
    ]
  ]
    where
      same : bytes_eq e.0 k ≡ true → q e.0 ≡ q k
      same h = ap q (eq_of-bytes_eq e.0 k h)

      and_false : (x : Bool) → (x && false) ≡ false
      and_false true = refl
      and_false false = refl

  added-missing :
      (store : BondStore) (new_set : Dict Bytes) (k : Text)
      → get k new_set ≡ none
      → added store new_set k ≡ none
  unfolding added
  added-missing store new_set k h = rw (h, added) refl

  -- The entry of an id after a reload, from the entry before it.
  unfoldable pub reloaded : BondStore → Dict Bytes → Text → Option PeerEntry → Option PeerEntry
  unfolding added
  reloaded store new_set k (some e) =
      if contains_key k new_set || not (is_ok (b.remove_peer k)) then some e else none
  reloaded store new_set k none = added store new_set k

  left_over : Bool → Bool → Option PeerEntry → Option PeerEntry
  left_over c r now = if (is_some now && not c) && r then none else now

  reloaded-eq :
      (store : BondStore) (new_set : Dict Bytes) (k : Text) (c : Bool) (now : Option PeerEntry)
      → contains_key k new_set ≡ c
      → (if c && not (is_some now)
          then or_else (added store new_set k) (left_over c (is_ok (b.remove_peer k)) now)
          else left_over c (is_ok (b.remove_peer k)) now)
        ≡ reloaded store new_set k now
  unfolding reloaded left_over
  reloaded-eq store new_set k true none h = or_else-none (added store new_set k)
    where
      or_else-none : (x : Option PeerEntry) → or_else x none ≡ x
      or_else-none none = refl
      or_else-none (some e) = refl
  reloaded-eq store new_set k false none h =
      sym (added-missing store new_set k (absent (get k new_set) h))
    where
      absent : (x : Option Bytes) → is_some x ≡ false → x ≡ none
      absent none q = refl
      absent (some v) q = cc
  reloaded-eq store new_set k true (some e) h = rw h refl
  reloaded-eq store new_set k false (some e) h = rw h (flip (is_ok (b.remove_peer k)))
    where
      flip : (r : Bool) → (if r then none else some e) ≡ (if not r then some e else none)
      flip true = refl
      flip false = refl

  -- After a reload a registered peer is still there, with its entry unchanged, unless it has left the
  -- new set and the peripheral removed it; an id without a peer has one exactly when the new set has a
  -- key for it, the store a bond, and the peripheral takes it.
  pub get-reload_peers :
      (store : BondStore) (peers : Dict PeerEntry) (k : Text)
      → get k (reload_peers b store peers)
        ≡ reloaded store (compute_new_set b store) k (get k peers)
  unfolding reload_peers left_over
  get-reload_peers store peers k =
      let new_set = compute_new_set b store in
      get-add_all store new_set k (compute_diff b new_set peers).0
        (remove_all b (compute_diff b new_set peers).1 peers)
      ∙ rw
          (
            mem-filter_keys k (λ id. not (contains_key id peers)) new_set,
            get-remove_all k (compute_diff b new_set peers).1 peers,
            mem-filter_keys k (λ id. not (contains_key id new_set)) peers,
          )
          (reloaded-eq store new_set k (contains_key k new_set) (get k peers) refl)
