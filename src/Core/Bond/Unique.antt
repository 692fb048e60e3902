-- ===== src/Core/Bond/Unique.antt =====
-- The updates of the bond store of crates/syauth-core/src/bond.rs keep one bond for each peer id.
use syauth.Base.{
  true, false, Text, bytes_eq, bytes_eq_refl, bytes_eq_ne, ◌≢◌, List, [], ◌∷◌, ◌++◌, none, some, ok,
  find, drop_first, modify_first, locate, Found, ◌≡◌, refl, sym, ap, arith, Bool-cases, inl, inr,
  ◌∙◌, map,
}
use syauth.Core.Bond.{Bond, BondStore, has_id, add, remove, mark_revoked, revoke}
use syauth.Core.Bond.View.{
  Unique, find-modify_first, find-push, add-Found, add-Missing, remove-Found, remove-Missing,
  mark_revoked-Found, mark_revoked-Missing,
}

ids : List Bond → List Text
ids = map (λ b. b.peer_id)

some≢none : (c : Bond) → some c ≢ none
some≢none c e = cc

true≢false : true ≢ false
true≢false e = cc

bytes_eq_sym : (xs ys : Text) → xs ≡ ys → bytes_eq ys xs ≡ true
bytes_eq_sym xs ys p = rw p (bytes_eq_refl ys)

Unique-push :
    (bs : List Bond) (b : Bond)
    → Unique bs
    → find (has_id b.peer_id) bs ≡ none
    → Unique (bs ++ b ∷ [])
Unique-push [] b u h = (refl, tt)
Unique-push (c ∷ bs) b u h = elim (Bool-cases (has_id b.peer_id c)) [
  | inl e ↦ absurd (some≢none c (rw e at h))
  | inr e ↦ (
    rw (find-push c.peer_id bs b, u.0)
        (rw (
          bytes_eq_ne b.peer_id c.peer_id
            (λ p. true≢false (sym (bytes_eq_sym b.peer_id c.peer_id p) ∙ e)))),
    Unique-push bs b u.1 (rw e at h),
  )
]

none-drop_first :
    (j k : Text) (bs : List Bond)
    → find (has_id k) bs ≡ none
    → find (has_id k) (drop_first (has_id j) bs) ≡ none
none-drop_first j k [] h = refl
none-drop_first j k (b ∷ bs) h = ground (arith, none-drop_first j k bs)

Unique-drop_first : (j : Text) (bs : List Bond) → Unique bs → Unique (drop_first (has_id j) bs)
Unique-drop_first j [] u = u
Unique-drop_first j (b ∷ bs) u = elim (Bool-cases (has_id j b)) [
  | inl h ↦ rw h u.1
  | inr h ↦ rw h (none-drop_first j b.peer_id bs u.0, Unique-drop_first j bs u.1)
]

peer_id-revoke : (reason : Text) (b : Bond) → (revoke reason b).peer_id ≡ b.peer_id
peer_id-revoke reason b = ground arith

none-modify_first :
    (j k reason : Text) (bs : List Bond)
    → find (has_id k) bs ≡ none
    → find (has_id k) (modify_first (has_id j) (revoke reason) bs) ≡ none
none-modify_first j k reason [] h = refl
none-modify_first j k reason (b ∷ bs) h = ground (arith, none-modify_first j k reason bs)

Unique-modify_first :
    (j reason : Text) (bs : List Bond)
    → Unique bs
    → Unique (modify_first (has_id j) (revoke reason) bs)
Unique-modify_first j reason [] u = u
Unique-modify_first j reason (b ∷ bs) u = elim (Bool-cases (has_id j b)) [
  | inl h ↦ rw h (rw (peer_id-revoke reason b) u.0, u.1)
  | inr h ↦ rw h (none-modify_first j b.peer_id reason bs u.0, Unique-modify_first j reason bs u.1)
]

revoke-revoke : (r r' : Text) (b : Bond) → revoke r' (revoke r b) ≡ revoke r b
revoke-revoke r r' b = ground arith

modify-hit :
    (j r : Text) (b : Bond) (bs : List Bond)
    → has_id j b ≡ true
    → modify_first (has_id j) (revoke r) (b ∷ bs) ≡ revoke r b ∷ bs
modify-hit j r b bs h = rw h

modify_first_twice :
    (j r r' : Text) (bs : List Bond)
    → modify_first (has_id j) (revoke r') (modify_first (has_id j) (revoke r) bs)
      ≡ modify_first (has_id j) (revoke r) bs
modify_first_twice j r r' [] = refl
modify_first_twice j r r' (b ∷ bs) = elim (Bool-cases (has_id j b)) [
  | inl h ↦
      let head = modify-hit j r b bs h in
      ap (modify_first (has_id j) (revoke r')) head
      ∙ modify-hit j r' (revoke r b) bs (rw (peer_id-revoke r b) h)
      ∙ ap (λ (c : Bond). c ∷ bs) (revoke-revoke r r' b)
      ∙ sym head
  | inr h ↦ rw (h, h, modify_first_twice j r r' bs)
]

-- Each of the three updates keeps one bond for each peer id, whether it succeeds or fails.
pub updates-Unique :
    (s : BondStore) (b : Bond) (id reason : Text)
    → Unique s.bonds
    → Unique (add s b).1.bonds
      × Unique (remove s id).1.bonds
      × Unique (mark_revoked s id reason).1.bonds
updates-Unique s b id reason u = (after_add, after_remove, after_mark)
  where
    after_add : Unique (add s b).1.bonds
    after_add = elim (locate (has_id b.peer_id) (λ x. x) s.bonds) [
      | inl m ↦ rw (add-Missing s b m) (Unique-push s.bonds b u m.nothing)
      | inr f ↦ rw (add-Found s b f) u
    ]

    after_remove : Unique (remove s id).1.bonds
    after_remove = elim (locate (has_id id) (λ x. x) s.bonds) [
      | inl m ↦ rw (remove-Missing s id m) u
      | inr f ↦ rw (remove-Found s id f) (Unique-drop_first id s.bonds u)
    ]

    after_mark : Unique (mark_revoked s id reason).1.bonds
    after_mark = elim (locate (has_id id) (revoke reason) s.bonds) [
      | inl m ↦ rw (mark_revoked-Missing s id reason m) u
      | inr f ↦ rw (mark_revoked-Found s id reason f) (Unique-modify_first id reason s.bonds u)
    ]

-- Revoking an id a second time, with any reason, changes nothing and has the result of the first time.
pub mark_revoked_idempotent :
    (s : BondStore) (id reason reason' : Text)
    → mark_revoked (mark_revoked s id reason).1 id reason' ≡ mark_revoked s id reason
mark_revoked_idempotent s id reason reason' = elim (locate (has_id id) (revoke reason) s.bonds) [
  | inl m ↦
      rw (mark_revoked-Missing s id reason m)
        (mark_revoked-Missing s id reason' (record { nowhere = m.nowhere; nothing = m.nothing }))
  | inr f ↦ rw (mark_revoked-Found s id reason f) (again f)
]
  where
    still :
        Found (has_id id) (revoke reason) s.bonds
        → find (has_id id) (modify_first (has_id id) (revoke reason) s.bonds) ≢ none
    still f e = cc (find-modify_first id id reason s.bonds, bytes_eq_refl id, f.first, e)

    again :
        Found (has_id id) (revoke reason) s.bonds
        → mark_revoked
            (record { bonds = (modify_first (has_id id) (revoke reason) s.bonds) })
            id
            reason'
          ≡ (ok tt, record { bonds = (modify_first (has_id id) (revoke reason) s.bonds) })
    again f =
        elim (locate (has_id id) (revoke reason')
          (modify_first (has_id id) (revoke reason) s.bonds)) [
            | inl m ↦ absurd (still f m.nothing)
            | inr g ↦
                mark_revoked-Found
                  (record { bonds = (modify_first (has_id id) (revoke reason) s.bonds) }) id reason'
                  g
                ∙ ap (λ (bs : List Bond). (ok tt, record { bonds = bs }))
                    (modify_first_twice id reason reason' s.bonds)
          ]
