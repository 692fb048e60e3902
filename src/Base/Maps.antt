-- ===== src/Base/Maps.antt =====
-- A `BTreeMap<String, V>`, or a `HashMap` whose order nothing reads: an association list by the order
-- of the keys.
use mathlib.Core.Path.{◌≡◌, refl, sym, ap, subst, ◌∙◌}
use mathlib.Core.Logic.{◌≢◌, inl, inr}
use mathlib.Core.Bool.{Bool, true, false}
use mathlib.Core.List.{List, [], ◌∷◌}
use mathlib.Core.Option.{Option, none, some}
use native.Mathlib.Omega.{arith}
use syauth.Base.Tests.{if◌then◌else◌, Bool-cases, ltb, ◌==◌}
use syauth.Base.Strings.{Text, bytes_eq, bytes_eq_iff, bytes_eq_refl, eq_of-bytes_eq}

-- `a < b` on texts: by the first byte that differs.
unfoldable pub text_less : Text → Text → Bool
text_less [] [] = false
text_less [] (y ∷ ys) = true
text_less (x ∷ xs) [] = false
text_less (x ∷ xs) (y ∷ ys) = if x == y then text_less xs ys else ltb x y

abbrev pub is_some {ℓ} : {A : Type ℓ} → Option A → Bool
is_some none = false
is_some (some a) = true

abbrev pub Dict {ℓ} : Type ℓ → Type ℓ
Dict V = List (Text × V)

module _ {ℓ} {V : Type ℓ} where
  abbrev pub get : Text → Dict V → Option V
  get k [] = none
  get k (e ∷ es) = if bytes_eq e.0 k then some e.1 else get k es

  abbrev pub erase : Text → Dict V → Dict V
  erase k [] = []
  erase k (e ∷ es) = if bytes_eq e.0 k then erase k es else e ∷ erase k es

  abbrev pub place : Text → V → Dict V → Dict V
  place k v [] = (k, v) ∷ []
  place k v (e ∷ es) = if text_less k e.0 then (k, v) ∷ e ∷ es else e ∷ place k v es

  -- `insert`, which replaces the value of a key that is there.
  abbrev pub insert : Text → V → Dict V → Dict V
  insert k v m = place k v (erase k m)

  abbrev pub contains_key : Text → Dict V → Bool
  contains_key k m = is_some (get k m)

  pub get-erase :
      (j k : Text) (m : Dict V) → get k (erase j m) ≡ (if bytes_eq j k then none else get k m)
  get-erase j k [] = elim (Bool-cases (bytes_eq j k)) [ inl h ↦ rw h | inr h ↦ rw h ]
  get-erase j k (e ∷ es) = elim (Bool-cases (bytes_eq e.0 j)) [
    | inl p ↦ elim (Bool-cases (bytes_eq j k)) [
      | inl q ↦ rw (p, get-erase j k es, q)
      | inr q ↦ rw (p, get-erase j k es, q, other p q)
    ]
    | inr p ↦ elim (Bool-cases (bytes_eq e.0 k)) [
      | inl q ↦ rw (p, q, same p q)
      | inr q ↦ rw (p, q, get-erase j k es)
    ]
  ]
    where
      other : bytes_eq e.0 j ≡ true → bytes_eq j k ≡ false → bytes_eq e.0 k ≡ false
      other p q = subst (λ t. bytes_eq t k ≡ false) (sym (eq_of-bytes_eq e.0 j p)) q

      same : bytes_eq e.0 j ≡ false → bytes_eq e.0 k ≡ true → bytes_eq j k ≡ false
      same p q = ground (arith, bytes_eq_iff e.0 j, bytes_eq_iff e.0 k, bytes_eq_iff j k)

  get-place :
      (j k : Text) (v : V) (m : Dict V)
      → get j m ≡ none
      → get k (place j v m) ≡ (if bytes_eq j k then some v else get k m)
  get-place j k v [] h = refl
  get-place j k v (e ∷ es) h = elim (Bool-cases (bytes_eq e.0 j)) [
    | inl p ↦ absurd (found (rw p at h))
    | inr p ↦ elim (Bool-cases (text_less j e.0)) [
      | inl l ↦ rw l
      | inr l ↦ elim (Bool-cases (bytes_eq e.0 k)) [
        | inl q ↦ rw (l, q, same p q)
        | inr q ↦ rw (l, q, get-place j k v es (rw p at h))
      ]
    ]
  ]
    where
      found : some e.1 ≢ none
      found q = cc

      same : bytes_eq e.0 j ≡ false → bytes_eq e.0 k ≡ true → bytes_eq j k ≡ false
      same p q = ground (arith, bytes_eq_iff e.0 j, bytes_eq_iff e.0 k, bytes_eq_iff j k)

  pub get-insert :
      (j k : Text) (v : V) (m : Dict V)
      → get k (insert j v m) ≡ (if bytes_eq j k then some v else get k m)
  get-insert j k v m = get-place j k v (erase j m) (get-erase j j m ∙ self) ∙ twice
    where
      self : (if bytes_eq j j then none else get j m) ≡ none
      self = rw (bytes_eq_refl j)

      twice :
          (if bytes_eq j k then some v else get k (erase j m))
          ≡ (if bytes_eq j k then some v else get k m)
      twice = elim (Bool-cases (bytes_eq j k)) [ inl h ↦ rw h | inr h ↦ rw (h, get-erase j k m, h) ]

  -- `values_mut`: changes the value of a key that is there.
  abbrev pub update : Text → (V → V) → Dict V → Dict V
  update k f [] = []
  update k f (e ∷ es) = if bytes_eq e.0 k then (e.0, f e.1) ∷ es else e ∷ update k f es

  pub get-update_same :
      (k : Text) (f : V → V) (m : Dict V) (v : V)
      → get k m ≡ some v
      → get k (update k f m) ≡ some (f v)
  get-update_same k f [] v h = cc
  get-update_same k f (e ∷ es) v h = elim (Bool-cases (bytes_eq e.0 k)) [
    | inl p ↦ rw (p, p) (ap (mapped f) (rw p at h))
    | inr p ↦ rw (p, p) (get-update_same k f es v (rw p at h))
  ]
    where
      mapped : (V → V) → Option V → Option V
      mapped g none = none
      mapped g (some w) = some (g w)

  pub get-update_other :
      (j k : Text) (f : V → V) (m : Dict V) → bytes_eq j k ≡ false → get k (update j f m) ≡ get k m
  get-update_other j k f [] h = refl
  get-update_other j k f (e ∷ es) h = elim (Bool-cases (bytes_eq e.0 j)) [
    | inl p ↦ rw (p, other p)
    | inr p ↦ elim (Bool-cases (bytes_eq e.0 k)) [
      | inl q ↦ rw (p, q)
      | inr q ↦ rw (p, q, get-update_other j k f es h)
    ]
  ]
    where
      other : bytes_eq e.0 j ≡ true → bytes_eq e.0 k ≡ false
      other p = subst (λ t. bytes_eq t k ≡ false) (sym (eq_of-bytes_eq e.0 j p)) h
