-- ===== src/Pam/Revocation.antt =====
-- A revoked bond and the PAM module of crates/syauth-pam.
use syauth.Base.{
  Bool, true, false, not, Text, bytes_eq_refl, List, [], ◌∷◌, some, Result, ok, find, ◌&&◌, ◌||◌,
  ◌≡◌, ◌≢◌, arith, refl, sym, ap, ◌∙◌, subst, Bool-cases, inl, inr,
}
use syauth.Core.Bond.{
  Bond, BondStore, BondError, BondStatus, bonded, revoked, has_id, is_revoked, mark_revoked,
}
use syauth.Core.Bond.View.{Unique}
use syauth.Presence.Reload.Peers.{live}
use syauth.Presence.Reload.Revocation.{live-mark_revoked}
use syauth.Pam.Config.{Config, bonds_file_path}
use syauth.Pam.Auth.{World, success, is_bonded, first_bonded, authenticate_inner}
use syauth.Pam.Chosen.{first_bonded-FirstBonded}
use syauth.Pam.Verdict.{authenticate_inner-success}

bonded_not-revoked :
    (st : BondStatus) (b : Bond) → b.status ≡ st → is_bonded st ≡ true → is_revoked b ≡ false
bonded_not-revoked bonded b h q = ground arith
bonded_not-revoked (revoked r) b h q = cc

some_bond : {x y : Bond} → some x ≡ some y → x ≡ y
some_bond q = cc

-- the bond that the module chooses is live
chosen-live :
    (bs : List Bond) (b : Bond)
    → find (λ (c : Bond). is_bonded c.status) bs ≡ some b
    → live b.peer_id bs ≡ true
chosen-live [] b h = cc
chosen-live (c ∷ cs) b h = elim (Bool-cases (is_bonded c.status)) [
  | inl e ↦
      subst (λ (x : Bond). live x.peer_id (c ∷ cs) ≡ true) (some_bond (rw e at h))
        (rw (bytes_eq_refl c.peer_id, bonded_not-revoked c.status c refl e) refl)
  | inr e ↦
      later (has_id b.peer_id c && not (is_revoked c)) (live b.peer_id cs)
        (chosen-live cs b (rw e at h))
]
  where
    later : (x y : Bool) → y ≡ true → (x || y) ≡ true
    later true y q = refl
    later false y q = q

-- When the bond file is the one that a revocation left, with one bond for each id before it, the
-- module lets nobody in as the revoked peer, whatever the daemon answers.
pub authenticate_inner-mark_revoked :
    (w : World) (cfg : Config) (s : BondStore) (id reason : Text)
    → Unique s.bonds
    → w.bonds (bonds_file_path cfg) ≡ ok (mark_revoked s id reason).1
    → authenticate_inner w cfg ≢ success id
unfolding first_bonded
authenticate_inner-mark_revoked w cfg s id reason u h q =
    let v = (authenticate_inner-success w cfg id).0 q in
    let same = store_of (sym v.loaded ∙ h) in
    let alive =
      chosen-live v.store.bonds v.bond
        (chosen v.store v.bond ((first_bonded-FirstBonded v.store v.bond).1 v.chosen)) in
    contra (
      sym (live-mark_revoked s id reason u)
      ∙ ap (λ (t : BondStore). live id t.bonds) (sym same)
      ∙ ap (λ t. live t v.store.bonds) (sym v.named)
      ∙ alive)
  where
    store_of : {x y : BondStore} → ◌≡◌ {A = Result BondStore BondError} (ok x) (ok y) → x ≡ y
    store_of p = cc

    contra : false ≢ true
    contra p = cc

    chosen :
        (t : BondStore) (c : Bond)
        → first_bonded t ≡ some c
        → find (λ (x : Bond). is_bonded x.status) t.bonds ≡ some c
    chosen t c p = p
