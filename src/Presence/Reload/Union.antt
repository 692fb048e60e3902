-- ===== src/Presence/Reload/Union.antt =====
-- The UUIDs that crates/syauth-presenced/src/orchestrator.rs advertises.
use syauth.Base.{
  ℕ, Bool, true, false, ◌||◌, Bytes, Text, bytes_eq, eq_of-bytes_eq, List, [], ◌∷◌, ◌++◌, any, ◌≡◌,
  refl, ap, ◌∙◌, subst, ◌⊎◌, Bool-cases, inl, inr,
}
use syauth.Transport.Session.{session_uuid_for}
use syauth.Presence.Reload.{
  Backend, Snapshot, set_insert, collect_uuids, build_uuid_union, pair_mode_zero_bond_key,
}

abbrev pub is_in : Bytes → List Bytes → Bool
is_in u us = any (λ v. bytes_eq v u) us

any-append :
    (u v : Bytes) (us : List Bytes)
    → is_in u (us ++ v ∷ []) ≡ (is_in u us || (bytes_eq v u || false))
any-append u v [] = refl
any-append u v (w ∷ us) = elim (Bool-cases (bytes_eq w u)) [
  | inl h ↦ rw h refl
  | inr h ↦ rw (h, any-append u v us) refl
]

or_comm : (x y : Bool) → (x || (y || false)) ≡ (y || x)
or_comm true true = refl
or_comm true false = refl
or_comm false true = refl
or_comm false false = refl

is_in-set_insert :
    (u v : Bytes) (us : List Bytes) → is_in u (set_insert v us) ≡ (bytes_eq v u || is_in u us)
is_in-set_insert u v us = elim (Bool-cases (is_in v us)) [
  | inl h ↦ rw h (there (Bool-cases (bytes_eq v u)) h)
  | inr h ↦ rw h (any-append u v us ∙ or_comm (is_in u us) (bytes_eq v u))
]
  where
    there :
        (bytes_eq v u ≡ true) ⊎ (bytes_eq v u ≡ false)
        → is_in v us ≡ true
        → is_in u us ≡ (bytes_eq v u || is_in u us)
    there (inl e) h = rw e (subst (λ t. is_in t us ≡ true) (eq_of-bytes_eq v u e) h)
    there (inr e) h = rw e refl

module _ (b : Backend) (minute : ℕ) where
  or_assoc : (x y z : Bool) → (y || (x || z)) ≡ ((x || y) || z)
  or_assoc true true z = refl
  or_assoc true false z = refl
  or_assoc false y z = refl

  is_in-collect_uuids :
      (u : Bytes) (snapshot : Snapshot) (set : List Bytes)
      → is_in u (collect_uuids b minute snapshot set) ≡ (
          any (λ (e : Text × Bytes). bytes_eq (session_uuid_for b.hkdf e.1 minute) u) snapshot
          || is_in u set)
  is_in-collect_uuids u [] set = refl
  is_in-collect_uuids u (e ∷ es) set =
      is_in-collect_uuids u es (set_insert (session_uuid_for b.hkdf e.1 minute) set)
      ∙ ap
          (λ t. any (λ (x : Text × Bytes). bytes_eq (session_uuid_for b.hkdf x.1 minute) u) es || t)
          (is_in-set_insert u (session_uuid_for b.hkdf e.1 minute) set)
      ∙ or_assoc (bytes_eq (session_uuid_for b.hkdf e.1 minute) u)
          (any (λ (x : Text × Bytes). bytes_eq (session_uuid_for b.hkdf x.1 minute) u) es)
          (is_in u set)

  -- The union of a rotation has the UUID of the pair mode and that of each peer for the minute, and no
  -- other.
  pub is_in-build_uuid_union :
      (u : Bytes) (snapshot : Snapshot)
      → is_in u (build_uuid_union b snapshot minute) ≡ (
          bytes_eq (session_uuid_for b.hkdf pair_mode_zero_bond_key minute) u
          || (any (λ (e : Text × Bytes). bytes_eq (session_uuid_for b.hkdf e.1 minute) u) snapshot
              || false))
  unfolding build_uuid_union
  is_in-build_uuid_union u snapshot =
      is_in-set_insert u (session_uuid_for b.hkdf pair_mode_zero_bond_key minute)
        (collect_uuids b minute snapshot [])
      ∙ ap (λ t. bytes_eq (session_uuid_for b.hkdf pair_mode_zero_bond_key minute) u || t)
          (is_in-collect_uuids u snapshot [])
