-- ===== src/Cli/Revoke.antt =====
-- crates/syauth-cli/src/revoke.rs: `syauth revoke`.
pub mod Saved
use syauth.Base.{
  Bool, Text, text, bytes_eq, eq_of-bytes_eq, arith, Bool-cases, subst, List, [], ◌∷◌, ◌++◌, Option,
  none, some, Result, ok, err, find, if◌then◌else◌, ◌≡◌, ◌≢◌, refl, sym, ap, ◌∙◌, inl, inr,
}
use mathlib.Core.Option
use syauth.Core.Bond.{
  Bond, BondStatus, bonded, revoked, BondStore, BondError, has_id, revoke, mark_revoked,
}
use syauth.Core.Bond.View.{view, view-mark_revoked-map}

pub data RevokeError : Type 0 where
  unknown_id : Text → RevokeError
  bond : BondError → RevokeError
  io : RevokeError

pub data RevokeOutcome : Type 0 where
  newly_revoked already_revoked : Text → Text → RevokeOutcome

abbrev pub render_outcome : RevokeOutcome → Text
render_outcome (newly_revoked id reason) =
    text "revoked bond " ++ (id ++ (text ": " ++ (reason ++ text "\n")))
render_outcome (already_revoked id existing_reason) =
    text "bond " ++ (id ++ (text " already revoked: " ++ (existing_reason ++ text "\n")))

abbrev pub status_among : Text → List Bond → Result BondStatus RevokeError
status_among id [] = err (unknown_id id)
status_among id (b ∷ bs) = if has_id id b then ok b.status else status_among id bs

unfoldable pub lookup_status : BondStore → Text → Result BondStatus RevokeError
lookup_status store id = status_among id store.bonds

-- `store.mark_revoked(id, reason)?` and what follows it
abbrev pub marked :
    Text
    → Text
    → Result (Unit {0}) BondError × BondStore
    → Result RevokeOutcome RevokeError × BondStore
marked id reason (ok _, store) = (ok (newly_revoked id reason), store)
marked id reason (err e, store) = (err (bond e), store)

abbrev pub by_status :
    BondStore
    → Text
    → Text
    → Result BondStatus RevokeError
    → Result RevokeOutcome RevokeError × BondStore
unfolding mark_revoked
by_status store id reason (err e) = (err e, store)
by_status store id reason (ok (revoked existing_reason)) =
    (ok (already_revoked id existing_reason), store)
by_status store id reason (ok bonded) = marked id reason (mark_revoked store id reason)

unfoldable pub apply_revoke : BondStore → Text → Text → Result RevokeOutcome RevokeError × BondStore
unfolding lookup_status
apply_revoke store id reason = by_status store id reason (lookup_status store id)

-- What `run_revoke` writes to the bond file, when it writes, and to the terminal: the store is loaded
-- and saved by the given answers.
abbrev pub after_apply :
    (BondStore → Bool)
    → Result RevokeOutcome RevokeError × BondStore
    → Result Text RevokeError × Option BondStore
after_apply save (err e, store) = (err e, none)
after_apply save (ok (already_revoked id r), store) =
    (ok (render_outcome (already_revoked id r)), none)
after_apply save (ok (newly_revoked id r), store) =
    if save store
    then (ok (render_outcome (newly_revoked id r)), some store)
    else (err (bond BondError.io), none)

unfoldable pub run_revoke :
    Result BondStore BondError
    → (BondStore → Bool)
    → Text
    → Text
    → Result Text RevokeError × Option BondStore
unfolding apply_revoke
run_revoke (err e) save id reason = (err (bond e), none)
run_revoke (ok store) save id reason = after_apply save (apply_revoke store id reason)

-- The outcome for the bond that the store holds under the id.
abbrev pub of_status : Text → Text → BondStatus → RevokeOutcome
of_status id reason bonded = newly_revoked id reason
of_status id reason (revoked existing) = already_revoked id existing

abbrev pub expected : Text → Text → Option Bond → Result RevokeOutcome RevokeError
expected id reason none = err (unknown_id id)
expected id reason (some b) = ok (of_status id reason b.status)

abbrev status_of : Text → Option Bond → Result BondStatus RevokeError
status_of id none = err (unknown_id id)
status_of id (some b) = ok b.status

status-view : (id : Text) (bs : List Bond) → status_among id bs ≡ status_of id (find (has_id id) bs)
status-view id [] = refl
status-view id (b ∷ bs) = elim (Bool-cases (has_id id b)) [
  | inl h ↦ rw h refl
  | inr h ↦ rw (h, status-view id bs) refl
]

revoke-revoked :
    (reason : Text) (b : Bond) (existing : Text) → b.status ≡ revoked existing → revoke reason b ≡ b
revoke-revoked reason b existing h = ground arith

module _ (store : BondStore) (id reason : Text) where
  abbrev Applied : Text → Result RevokeOutcome RevokeError × BondStore → Type 0
  Applied k r =
      (r.0 ≡ expected id reason (view store id))
      × (view r.1 k
          ≡ (if bytes_eq id k then Option.map (revoke reason) (view store k) else view store k))

  unchanged :
      (k : Text)
      → Option.map (revoke reason) (view store id) ≡ view store id
      → view store k
        ≡ (if bytes_eq id k then Option.map (revoke reason) (view store k) else view store k)
  unchanged k same = elim (Bool-cases (bytes_eq id k)) [
    | inl h ↦ rw h (
        sym (
          subst (λ (t : Text). Option.map (revoke reason) (view store t) ≡ view store t)
            (eq_of-bytes_eq id k h) same))
    | inr h ↦ rw h refl
  ]

  err≢ok : {e : BondError} {u : Unit {0}} → ◌≢◌ {A = Result (Unit {0}) BondError} (err e) (ok u)
  err≢ok q = cc

  marked-ok :
      (x : Result (Unit {0}) BondError × BondStore)
      → x.0 ≡ ok tt
      → marked id reason x ≡ (ok (newly_revoked id reason), x.1)
  marked-ok (ok u, s) q = refl
  marked-ok (err e, s) q = absurd (err≢ok q)

  applied :
      (k : Text) (b : Bond) (st : BondStatus)
      → view store id ≡ some b
      → b.status ≡ st
      → Applied k (by_status store id reason (ok st))
  unfolding by_status
  applied k b (revoked existing) h q = (
    sym (ap (expected id reason) h ∙ ap (λ st. ok (of_status id reason st)) q),
    unchanged k
        (ap (Option.map (revoke reason)) h ∙ ap some (revoke-revoked reason b existing q) ∙ sym h),
  )
  applied k b bonded h q =
      let m = view-mark_revoked-map store id reason k in
      subst (λ r. Applied k r) (sym (marked-ok (mark_revoked store id reason) (m.0 ∙ rw h refl)))
        (sym (ap (expected id reason) h ∙ ap (λ st. ok (of_status id reason st)) q), m.1)

  pub view-apply_revoke :
      (k : Text)
      → ((apply_revoke store id reason).0 ≡ expected id reason (view store id))
        × (view (apply_revoke store id reason).1 k
            ≡ (if bytes_eq id k then Option.map (revoke reason) (view store k) else view store k))
  unfolding apply_revoke lookup_status by_status
  view-apply_revoke k =
      subst (λ s. Applied k (by_status store id reason s)) (sym (status-view id store.bonds))
        (by_view (view store id) refl)
    where
      by_view :
          (v : Option Bond)
          → view store id ≡ v
          → Applied k (by_status store id reason (status_of id v))
      by_view none h =
          (sym (ap (expected id reason) h), unchanged k (ap (Option.map (revoke reason)) h ∙ sym h))
      by_view (some b) h = applied k b b.status h refl
