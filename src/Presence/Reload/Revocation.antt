-- ===== src/Presence/Reload/Revocation.antt =====
-- A revoked bond and the daemon of crates/syauth-presenced/src/orchestrator.rs.
use syauth.Base.{
  ℕ, Bool, true, false, not, ◌&&◌, ◌||◌, Bytes, Text, bytes_eq_refl, eq_of-bytes_eq, Dict, get,
  get-insert, List, [], ◌∷◌, Option, none, some, find, if◌then◌else◌, ◌≡◌, ◌≢◌, refl, sym, ap, ◌∙◌,
  subst, arith, Bool-cases, Option-cases, inl, inr,
}
use mathlib.Core.Option
use syauth.Core.Crypto.{Primitives}
use syauth.Core.Bond.{Bond, BondStore, has_id, is_revoked, revoke, mark_revoked}
use syauth.Core.Bond.View.{Unique, view, view-mark_revoked-map}
use syauth.Core.Bond.Unique.{updates-Unique}
use syauth.Presence.Peers.{Orchestrator, PeerEntry}
use syauth.Presence.Reload.{
  Backend, load_bond_key, add_bond, new_set_from, compute_new_set, reload_peers, reload_bonds,
}
use syauth.Presence.Reload.Peers.{is_ok, or_else, live, added, reloaded, get-reload_peers}
use syauth.Presence.Challenge.{ChallengeOutcome, unknown, Answers, lookup_peer, issue_challenge}
use syauth.Presence.Challenge.Effect.{issue_unknown}

module _ (b : Backend) where
  get-add_bond :
      (k : Text) (c : Bond) (out : Dict Bytes)
      → get k (add_bond b c out) ≡ (
          if has_id k c && not (is_revoked c)
          then or_else (load_bond_key b k) (get k out)
          else get k out)
  unfolding add_bond
  get-add_bond k c out = elim (Bool-cases (is_revoked c)) [
    | inl r ↦ rw r (never (has_id k c) (or_else (load_bond_key b k) (get k out)) (get k out))
    | inr r ↦ elim (Option-cases (load_bond_key b c.peer_id)) [
      | inl n ↦ rw (r, n, add_bond) (found_none (load_of n))
      | inr (key, n) ↦ rw (r, n, add_bond) (get-insert c.peer_id k key out ∙ found_key (load_of n))
    ]
  ]
    where
      load_of :
          {x : Option Bytes}
          → load_bond_key b c.peer_id ≡ x
          → has_id k c ≡ true
          → load_bond_key b k ≡ x
      load_of n h = ap (load_bond_key b) (sym (eq_of-bytes_eq c.peer_id k h)) ∙ n

      found_none :
          (has_id k c ≡ true → load_bond_key b k ≡ none)
          → get k out
            ≡ (if has_id k c && true then or_else (load_bond_key b k) (get k out) else get k out)
      found_none f = elim (Bool-cases (has_id k c)) [ inl h ↦ rw (h, f h) refl | inr h ↦ rw h refl ]

      found_key :
          {key : Bytes}
          → (has_id k c ≡ true → load_bond_key b k ≡ some key)
          → (if has_id k c then some key else get k out)
            ≡ (if has_id k c && true then or_else (load_bond_key b k) (get k out) else get k out)
      found_key f = elim (Bool-cases (has_id k c)) [ inl h ↦ rw (h, f h) refl | inr h ↦ rw h refl ]

      never : (x : Bool) (u v : Option Bytes) → v ≡ (if x && false then u else v)
      never true u v = refl
      never false u v = refl

  get-new_set_from :
      (k : Text) (cs : List Bond) (out : Dict Bytes)
      → get k (new_set_from b cs out)
        ≡ (if live k cs then or_else (load_bond_key b k) (get k out) else get k out)
  get-new_set_from k [] out = refl
  get-new_set_from k (c ∷ cs) out =
      get-new_set_from k cs (add_bond b c out)
      ∙ ap (λ (x : Option Bytes). if live k cs then or_else (load_bond_key b k) x else x)
          (get-add_bond k c out)
      ∙ twice (has_id k c && not (is_revoked c)) (live k cs) (load_bond_key b k) (get k out)
    where
      twice :
          (x y : Bool) (u v : Option Bytes)
          → (if y then or_else u (if x then or_else u v else v) else if x then or_else u v else v)
            ≡ (if x || y then or_else u v else v)
      twice true true none v = refl
      twice true true (some w) v = refl
      twice true false u v = refl
      twice false y u v = refl

  -- The new set has the key that the key directory holds for each id with a bond that is not revoked,
  -- and nothing else.
  pub get-compute_new_set :
      (store : BondStore) (k : Text)
      → get k (compute_new_set b store) ≡ (if live k store.bonds then load_bond_key b k else none)
  unfolding compute_new_set
  get-compute_new_set store k =
      get-new_set_from k store.bonds []
      ∙ ap (λ (x : Option Bytes). if live k store.bonds then x else none)
          (or_else-none (load_bond_key b k))
    where
      or_else-none : (x : Option Bytes) → or_else x none ≡ x
      or_else-none none = refl
      or_else-none (some e) = refl

dead-none : (k : Text) (bs : List Bond) → find (has_id k) bs ≡ none → live k bs ≡ false
dead-none k [] h = refl
dead-none k (c ∷ cs) h = elim (Bool-cases (has_id k c)) [
  | inl e ↦ absurd (there (rw e at h))
  | inr e ↦ rw e (dead-none k cs (rw e at h))
]
  where
    there : some c ≢ none
    there q = cc

-- In a store with one bond for each id the bond of an id says whether it is live.
pub live-find :
    (k : Text) (bs : List Bond) (c : Bond)
    → Unique bs
    → find (has_id k) bs ≡ some c
    → live k bs ≡ not (is_revoked c)
live-find k [] c u h = cc
live-find k (x ∷ bs) c u h = elim (Bool-cases (has_id k x)) [
  | inl e ↦
      rw
        (
          e,
          dead-none k bs
              (subst (λ t. find (has_id t) bs ≡ none) (eq_of-bytes_eq x.peer_id k e) u.0),
        )
        (or_false (not (is_revoked x)) ∙ ap (λ y. not (is_revoked y)) (same (rw e at h)))
  | inr e ↦ rw e (live-find k bs c u.1 (rw e at h))
]
  where
    same : {y z : Bond} → some y ≡ some z → y ≡ z
    same q = cc

    or_false : (t : Bool) → (t || false) ≡ t
    or_false true = refl
    or_false false = refl

is_revoked-revoke : (reason : Text) (c : Bond) → is_revoked (revoke reason c) ≡ true
is_revoked-revoke reason c = ground arith

module _ (s : BondStore) (id reason : Text) (u : Unique s.bonds) where
  marked-view : view (mark_revoked s id reason).1 id ≡ Option.map (revoke reason) (view s id)
  marked-view = (view-mark_revoked-map s id reason id).1 ∙ rw (bytes_eq_refl id) refl

  -- a revoked id has no live bond
  pub live-mark_revoked : live id (mark_revoked s id reason).1.bonds ≡ false
  live-mark_revoked = elim (Option-cases (view s id)) [
    | inl n ↦
        dead-none id (mark_revoked s id reason).1.bonds
          (marked-view ∙ ap (Option.map (revoke reason)) n)
    | inr (c, n) ↦
        live-find id (mark_revoked s id reason).1.bonds (revoke reason c)
          (updates-Unique s c id reason u).2 (marked-view ∙ ap (Option.map (revoke reason)) n)
        ∙ ap not (is_revoked-revoke reason c)
  ]

module _ (b : Backend) (s : BondStore) (id reason : Text) (u : Unique s.bonds) where
  abbrev marked : BondStore
  marked = (mark_revoked s id reason).1

  not_in_set : get id (compute_new_set b marked) ≡ none
  not_in_set =
      get-compute_new_set b marked id
      ∙ ap (λ t. if t then load_bond_key b id else none) (live-mark_revoked s id reason u)

  reloaded_gone :
      (now : Option PeerEntry)
      → is_ok (b.remove_peer id) ≡ true
      → reloaded b marked (compute_new_set b marked) id now ≡ none
  unfolding reloaded added
  reloaded_gone none r = rw (not_in_set, added) refl
  reloaded_gone (some e) r = rw (not_in_set, r) refl

  gone :
      (peers : Dict PeerEntry)
      → is_ok (b.remove_peer id) ≡ true
      → get id (reload_peers b marked peers) ≡ none
  gone peers r = get-reload_peers b marked peers id ∙ reloaded_gone (get id peers) r

  -- After an id was revoked in a store with one bond for each id, and the daemon reloaded that store
  -- with the peripheral removing the peer, a challenge of the id ends in `UnknownPeer`, whatever the
  -- phone and the environment answer.
  pub issue_challenge-mark_revoked :
      (o : Orchestrator) (p : Primitives) (a : Answers) (deadline : ℕ)
      → is_ok (b.remove_peer id) ≡ true
      → (issue_challenge p a id deadline (reload_bonds b (mark_revoked s id reason).1 o).0).0
        ≡ unknown
  unfolding reload_bonds
  issue_challenge-mark_revoked o p a deadline r =
      ap (λ (x : ChallengeOutcome × Orchestrator). x.0)
        (issue_unknown p a id deadline (reload_bonds b marked o).0
          (rw (gone o.peers r, lookup_peer) refl))
