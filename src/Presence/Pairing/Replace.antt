-- ===== src/Presence/Pairing/Replace.antt =====
-- The bond of a phone that pairs again replaces the one before it (crates/syauth-presenced/src/runtime.rs).
use syauth.Base.{
  Bool, true, false, Text, bytes_eq, bytes_eq_refl, List, [], ◌∷◌, Option, none, some, is_some,
  Result, ok, err, any, find, if◌then◌else◌, ◌≡◌, ◌≢◌, refl, sym, ap, ◌∙◌, subst, Bool-cases, inl,
  inr,
}
use syauth.Core.Bond.{Bond, BondStore, BondError, Update, has_id, add, remove}
use syauth.Core.Bond.View.{Unique, view, view-add, view-remove}
use syauth.Core.Bond.Unique.{updates-Unique}
use syauth.Presence.Pairing.{
  then_add, replace_bond, Files, Io, save_replaced, after_load, persist_pair_bond_record,
}

any-find : (k : Text) (bs : List Bond) → any (has_id k) bs ≡ is_some (find (has_id k) bs)
any-find k [] = refl
any-find k (b ∷ bs) = elim (Bool-cases (has_id k b)) [
  | inl h ↦ rw h refl
  | inr h ↦ rw (h, any-find k bs) refl
]

module _ (bond : Bond) where
  -- adding to a store without the id
  added :
      (s : BondStore) (k : Text)
      → view s bond.peer_id ≡ none
      → ((add s bond).0 ≡ ok tt)
        × (view (add s bond).1 k ≡ (if bytes_eq bond.peer_id k then some bond else view s k))
  added s k h =
      let (result, after) = view-add s bond k in
      (ap (λ (u : Update). u.0) result ∙ rw h refl, after ∙ rw h refl)

  ok≢err : {e : BondError} {u : Unit {0}} → ◌≢◌ {A = Result (Unit {0}) BondError} (err e) (ok u)
  ok≢err q = cc

  then_add-ok : (x : Update) → x.0 ≡ ok tt → then_add bond x ≡ add x.1 bond
  unfolding then_add
  then_add-ok (ok u, s) q = refl
  then_add-ok (err e, s) q = absurd (ok≢err q)

  abbrev Replaced : BondStore → Text → Update → Type 0
  Replaced s k r =
      (r.0 ≡ ok tt)
      × (view r.1 k ≡ (if bytes_eq bond.peer_id k then some bond else view s k))
      × Unique r.1.bonds

  over :
      (e : Bool) (v : Option Bond)
      → (if e then some bond else if e then none else v) ≡ (if e then some bond else v)
  over true v = refl
  over false v = refl

  replaces_old :
      (s : BondStore) (k : Text)
      → Unique s.bonds
      → any (has_id bond.peer_id) s.bonds ≡ true
      → Replaced s k (then_add bond (remove s bond.peer_id))
  replaces_old s k u h =
      let removed = view-remove s bond.peer_id bond.peer_id u in
      let s' = (remove s bond.peer_id).1 in
      let (result, after) = added s' k (removed.1 ∙ rw (bytes_eq_refl bond.peer_id) refl) in
      let succeeded = removed.0 ∙ rw (sym (any-find bond.peer_id s.bonds) ∙ h) refl in
      subst (λ (r : Update). Replaced s k r) (sym (then_add-ok (remove s bond.peer_id) succeeded))
        (
          result,
          after
              ∙ ap (λ (v : Option Bond). if bytes_eq bond.peer_id k then some bond else v)
                  (view-remove s bond.peer_id k u).1
              ∙ over (bytes_eq bond.peer_id k) (view s k),
          (updates-Unique s' bond [] [] (updates-Unique s bond bond.peer_id [] u).1).0,
        )

  adds_new :
      (s : BondStore) (k : Text)
      → Unique s.bonds
      → any (has_id bond.peer_id) s.bonds ≡ false
      → Replaced s k (add s bond)
  adds_new s k u h =
      let (result, after) =
        added s k (absent (view s bond.peer_id) (sym (any-find bond.peer_id s.bonds) ∙ h)) in
      (result, after, (updates-Unique s bond [] [] u).0)
    where
      absent : (v : Option Bond) → is_some v ≡ false → v ≡ none
      absent none q = refl
      absent (some b) q = cc

  pub view-replace_bond :
      (s : BondStore) (k : Text)
      → Unique s.bonds
      → ((replace_bond s bond).0 ≡ ok tt)
        × (view (replace_bond s bond).1 k
            ≡ (if bytes_eq bond.peer_id k then some bond else view s k))
        × Unique (replace_bond s bond).1.bonds
  unfolding replace_bond then_add
  view-replace_bond s k u = elim (Bool-cases (any (has_id bond.peer_id) s.bonds)) [
    | inl h ↦ rw h (replaces_old s k u h)
    | inr h ↦ rw h (adds_new s k u h)
  ]

  -- `persist_pair_bond_record` on a bond file that loads with one bond for each id. Where the save
  -- succeeds it returns `Ok`, and the file then holds the new bond under its id, under every other id
  -- what it held, and still one bond for each id. Where the save fails it returns an error. In both
  -- cases the key files and the reload commands stay, and in the second the bond file too.
  pub persist_pair_bond_record-Replaced :
      (io : Io) (files : Files) (s : BondStore)
      → files.bonds ≡ ok s
      → Unique s.bonds
      → (t : BondStore) × ((k : Text)
          → view t k ≡ (if bytes_eq bond.peer_id k then some bond else view s k))
        × Unique t.bonds
        × (persist_pair_bond_record io files bond
            ≡ (if io.save then (true, record files { bonds = ok t }) else (false, files)))
  unfolding persist_pair_bond_record
  persist_pair_bond_record-Replaced io files s h u =
      let (fine, _, unique) = view-replace_bond s bond.peer_id u in
      (
        (replace_bond s bond).1,
        (λ k. (view-replace_bond s k u).1),
        unique,
        ap (after_load io files bond) h ∙ saved (replace_bond s bond) fine,
      )
    where
      saved :
          (r : Update)
          → r.0 ≡ ok tt
          → save_replaced io files r
            ≡ (if io.save then (true, record files { bonds = ok r.1 }) else (false, files))
      saved (ok x, t) q = refl
      saved (err e, t) q = absurd (ok≢err q)
