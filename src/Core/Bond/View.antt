-- ===== src/Core/Bond/View.antt =====
-- The bond store of crates/syauth-core/src/bond.rs as a map from peer ids to bonds.
use syauth.Base.{
  true, Text, bytes_eq, bytes_eq_iff, eq_of-bytes_eq, List, [], ◌∷◌, ◌++◌, Option, none, some, ok,
  err, find, drop_first, modify_first, locate, Found, Missing, if◌then◌else◌, ◌≡◌, refl, sym, ap,
  arith, Bool-cases, inl, inr, subst, ◌∙◌, is_some,
}
use mathlib.Core.Option
use syauth.Core.Bond.{
  Bond, BondStatus, bonded, revoked, BondStore, already_bonded, unknown_peer, has_id, add, remove,
  mark_revoked, revoke,
}

abbrev pub view : BondStore → Text → Option Bond
view s id = find (has_id id) s.bonds

-- No two bonds have one peer id.
abbrev pub Unique : List Bond → Type 0
Unique [] = Unit
Unique (b ∷ bs) = (find (has_id b.peer_id) bs ≡ none) × Unique bs

pub find-push :
    (k : Text) (bs : List Bond) (b : Bond)
    → find (has_id k) (bs ++ b ∷ []) ≡ (
        if is_some (find (has_id k) bs)
        then find (has_id k) bs
        else if has_id k b
        then some b
        else none)
find-push k [] b = refl
find-push k (c ∷ bs) b = elim (Bool-cases (has_id k c)) [
  | inl h ↦ rw h
  | inr h ↦ rw (h, find-push k bs b)
]

find_other :
    (j k : Text) (b : Bond) (bs : List Bond)
    → has_id j b ≡ true
    → bytes_eq j k ≡ true
    → find (has_id k) bs ≡ find (has_id b.peer_id) bs
find_other j k b bs p q =
    ap (λ (t : Text). find (has_id t) bs)
      (sym (eq_of-bytes_eq b.peer_id j p ∙ eq_of-bytes_eq j k q))

pub find-drop_first :
    (j k : Text) (bs : List Bond)
    → Unique bs
    → find (has_id k) (drop_first (has_id j) bs)
      ≡ (if bytes_eq j k then none else find (has_id k) bs)
find-drop_first j k [] u = ground arith
find-drop_first j k (b ∷ bs) u = ground (
  arith,
  bytes_eq_iff b.peer_id j,
  bytes_eq_iff b.peer_id k,
  bytes_eq_iff j k,
  find_other j k b bs,
  u.0,
  find-drop_first j k bs u.1,
)

pub find-modify_first :
    (j k reason : Text) (bs : List Bond)
    → find (has_id k) (modify_first (has_id j) (revoke reason) bs) ≡ (
        if bytes_eq j k
        then Option.map (revoke reason) (find (has_id k) bs)
        else find (has_id k) bs)
find-modify_first j k reason [] = ground arith
find-modify_first j k reason (b ∷ bs) = ground (
  arith,
  bytes_eq_iff b.peer_id j,
  bytes_eq_iff b.peer_id k,
  bytes_eq_iff j k,
  find-modify_first j k reason bs,
)

find-other_of-none :
    (j k : Text) (bs : List Bond)
    → find (has_id j) bs ≡ none
    → bytes_eq j k ≡ true
    → find (has_id k) bs ≡ none
find-other_of-none j k bs h e =
    subst (λ (t : Text). find (has_id t) bs ≡ none) (eq_of-bytes_eq j k e) h

-- where nothing is found, the two laws above are about an unchanged store
same_view-drop :
    (j k : Text) (bs : List Bond)
    → find (has_id j) bs ≡ none
    → find (has_id k) bs ≡ (if bytes_eq j k then none else find (has_id k) bs)
same_view-drop j k bs h = ground (arith, find-other_of-none j k bs h)

same_view-modify :
    (j k reason : Text) (bs : List Bond)
    → find (has_id j) bs ≡ none
    → find (has_id k) bs ≡ (
        if bytes_eq j k
        then Option.map (revoke reason) (find (has_id k) bs)
        else find (has_id k) bs)
same_view-modify j k reason bs h = ground (arith, find-other_of-none j k bs h)

pub push_view :
    (k : Text) (bs : List Bond) (b : Bond)
    → find (has_id b.peer_id) bs ≡ none
    → find (has_id k) (bs ++ b ∷ []) ≡ (if bytes_eq b.peer_id k then some b else find (has_id k) bs)
push_view k bs b h = rw (find-push k bs b) (ground (arith, find-other_of-none b.peer_id k bs h))

-- The status of a bond after its revocation, and the bond with it.
abbrev pub revoked_status : Text → BondStatus → BondStatus
revoked_status reason bonded = revoked reason
revoked_status reason (revoked old) = revoked old

abbrev pub with_revocation : Text → Bond → Bond
with_revocation reason b = record b { status = revoked_status reason b.status }

pub revoke-with_revocation : (reason : Text) (b : Bond) → revoke reason b ≡ with_revocation reason b
revoke-with_revocation reason b = by_status b.status refl
  where
    by_status : (st : BondStatus) → b.status ≡ st → revoke reason b ≡ with_revocation reason b
    by_status bonded h = rw (h, revoke) refl
    by_status (revoked old) h = rw (h, revoke) refl

map_revoked :
    (reason : Text) (v : Option Bond)
    → Option.map (revoke reason) v ≡ Option.map (with_revocation reason) v
map_revoked reason none = refl
map_revoked reason (some b) = ap some (revoke-with_revocation reason b)

module _ (s : BondStore) where
  pub add-Found :
      (b : Bond)
      → Found (has_id b.peer_id) (λ x. x) s.bonds
      → add s b ≡ (err (already_bonded b.peer_id), s)
  unfolding add
  add-Found b f = rw (f.at, add)

  pub add-Missing :
      (b : Bond)
      → Missing (has_id b.peer_id) (λ x. x) s.bonds
      → add s b ≡ (ok tt, record { bonds = s.bonds ++ b ∷ [] })
  unfolding add
  add-Missing b m = rw (m.nowhere, add)

  pub remove-Found :
      (id : Text) (f : Found (has_id id) (λ x. x) s.bonds)
      → remove s id ≡ (ok tt, record { bonds = drop_first (has_id id) s.bonds })
  unfolding remove
  remove-Found id f = rw (f.at, remove) (rw f.removed)

  pub remove-Missing :
      (id : Text) → Missing (has_id id) (λ x. x) s.bonds → remove s id ≡ (err (unknown_peer id), s)
  unfolding remove
  remove-Missing id m = rw (m.nowhere, remove)

  pub mark_revoked-Found :
      (id reason : Text) (f : Found (has_id id) (revoke reason) s.bonds)
      → mark_revoked s id reason
        ≡ (ok tt, record { bonds = modify_first (has_id id) (revoke reason) s.bonds })
  unfolding mark_revoked
  mark_revoked-Found id reason f = rw (f.at, mark_revoked) (rw f.modified)

  pub mark_revoked-Missing :
      (id reason : Text)
      → Missing (has_id id) (revoke reason) s.bonds
      → mark_revoked s id reason ≡ (err (unknown_peer id), s)
  unfolding mark_revoked
  mark_revoked-Missing id reason m = rw (m.nowhere, mark_revoked)

  -- `add` refuses a peer id that is in the store and leaves the store as it was; for any other id the
  -- store afterwards holds the new bond under it, and under every other id what it held before.
  pub view-add :
      (b : Bond) (k : Text)
      → (add s b ≡ (
          if is_some (view s b.peer_id)
          then (err (already_bonded b.peer_id), s)
          else (ok tt, record { bonds = s.bonds ++ b ∷ [] })))
        × (view (add s b).1 k ≡ (
            if is_some (view s b.peer_id)
            then view s k
            else if bytes_eq b.peer_id k
            then some b
            else view s k))
  view-add b k = elim (locate (has_id b.peer_id) (λ x. x) s.bonds) [
    | inl m ↦ rw (add-Missing b m, m.nothing) (refl, push_view k s.bonds b m.nothing)
    | inr f ↦ rw (add-Found b f, f.first) (refl, refl)
  ]

  -- `remove` takes exactly the bond of the given id out of the store, and fails on an id that is not
  -- there, leaving the store as it was.
  pub view-remove :
      (id k : Text)
      → Unique s.bonds
      → ((remove s id).0 ≡ (if is_some (view s id) then ok tt else err (unknown_peer id)))
        × (view (remove s id).1 k ≡ (if bytes_eq id k then none else view s k))
  view-remove id k u = elim (locate (has_id id) (λ x. x) s.bonds) [
    | inl m ↦ rw (remove-Missing id m, m.nothing) (refl, same_view-drop id k s.bonds m.nothing)
    | inr f ↦ rw (remove-Found id f, f.first) (refl, find-drop_first id k s.bonds u)
  ]

  pub view-mark_revoked-map :
      (id reason k : Text)
      → ((mark_revoked s id reason).0
          ≡ (if is_some (view s id) then ok tt else err (unknown_peer id)))
        × (view (mark_revoked s id reason).1 k
            ≡ (if bytes_eq id k then Option.map (revoke reason) (view s k) else view s k))
  view-mark_revoked-map id reason k = elim (locate (has_id id) (revoke reason) s.bonds) [
    | inl m ↦
        rw (mark_revoked-Missing id reason m, m.nothing)
          (refl, same_view-modify id k reason s.bonds m.nothing)
    | inr f ↦
        rw (mark_revoked-Found id reason f, f.first) (refl, find-modify_first id k reason s.bonds)
  ]

  -- `mark_revoked` fails on an id that is not in the store. Otherwise it succeeds, and the bond under
  -- that id has afterwards the status `revoked`, with the given reason where it was bonded and with its
  -- old reason where it was revoked before, and all else as it was; under every other id the store holds
  -- what it held.
  pub view-mark_revoked :
      (id reason k : Text)
      → ((mark_revoked s id reason).0
          ≡ (if is_some (view s id) then ok tt else err (unknown_peer id)))
        × (view (mark_revoked s id reason).1 k
            ≡ (if bytes_eq id k then Option.map (with_revocation reason) (view s k) else view s k))
  view-mark_revoked id reason k =
      let (result, after) = view-mark_revoked-map id reason k in
      (
        result,
        after
            ∙ ap (λ (v : Option Bond). if bytes_eq id k then v else view s k)
                (map_revoked reason (view s k)),
      )
