-- ===== src/Pam/Chosen.antt =====
-- Which bond the PAM module of crates/syauth-pam/src/auth.rs asks for.
use syauth.Base.{
  true, false, List, [], ◌∷◌, ◌++◌, none, some, find, ◌≡◌, ◌≢◌, ◌↔◌, refl, ap, ◌∙◌, subst,
  Bool-cases, inl, inr,
}
use syauth.Core.Bond.{Bond, BondStore, BondStatus, bonded, revoked}
use syauth.Pam.Auth.{is_bonded, first_bonded}

abbrev pub AllRevoked : List Bond → Type 0
AllRevoked [] = Unit {0}
AllRevoked (b ∷ bs) = (b.status ≢ bonded) × AllRevoked bs

-- The bond is bonded, and the bonds that stand before it in the file are not.
pub record FirstBonded (bonds : List Bond) (bond : Bond) : Type 0 where
  pub before : List Bond
  pub later : List Bond
  pub parts : bonds ≡ before ++ bond ∷ later
  pub active : bond.status ≡ bonded
  pub skipped : AllRevoked before

is_bonded-bonded : (st : BondStatus) → is_bonded st ≡ true → st ≡ bonded
is_bonded-bonded bonded h = refl
is_bonded-bonded (revoked r) h = cc

is_bonded-other : (st : BondStatus) → st ≢ bonded → is_bonded st ≡ false
is_bonded-other bonded h = absurd (h refl)
is_bonded-other (revoked r) h = refl

bonded-is_bonded : (st : BondStatus) → is_bonded st ≡ false → st ≢ bonded
bonded-is_bonded bonded h q = cc
bonded-is_bonded (revoked r) h q = cc

some_bond : {x y : Bond} → some x ≡ some y → x ≡ y
some_bond q = cc

none≢bond : {x : Bond} → none ≢ some x
none≢bond q = cc

find-FirstBonded :
    (bs : List Bond) (b : Bond)
    → find (λ (c : Bond). is_bonded c.status) bs ≡ some b
    → FirstBonded bs b
find-FirstBonded [] b h = absurd (none≢bond h)
find-FirstBonded (c ∷ cs) b h = elim (Bool-cases (is_bonded c.status)) [
  | inl e ↦
      let same = some_bond (rw e at h) in
      record {
        before = [];
        later = cs;
        parts = ap (λ (x : Bond). x ∷ cs) same;
        active = subst (λ (x : Bond). x.status ≡ bonded) same (is_bonded-bonded c.status e);
        skipped = tt;
      }
  | inr e ↦
      let r = find-FirstBonded cs b (rw e at h) in
      record {
        before = c ∷ r.before;
        later = r.later;
        parts = ap (λ (xs : List Bond). c ∷ xs) r.parts;
        active = r.active;
        skipped = (bonded-is_bonded c.status e, r.skipped);
      }
]

find-parts :
    (before later : List Bond) (b : Bond)
    → b.status ≡ bonded
    → AllRevoked before
    → find (λ (c : Bond). is_bonded c.status) (before ++ b ∷ later) ≡ some b
find-parts [] later b h u = rw h refl
find-parts (c ∷ cs) later b h (n, u) = rw (is_bonded-other c.status n) (find-parts cs later b h u)

pub first_bonded-FirstBonded :
    (store : BondStore) (bond : Bond)
    → (first_bonded store ≡ some bond) ↔ FirstBonded store.bonds bond
unfolding first_bonded
first_bonded-FirstBonded store bond = (
  find-FirstBonded store.bonds bond,
  λ f.
      ap (find (λ (c : Bond). is_bonded c.status)) f.parts
      ∙ find-parts f.before f.later bond f.active f.skipped,
)
