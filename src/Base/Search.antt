-- ===== src/Base/Search.antt =====
-- The index that `position` finds, and the element there.
use Prim.Native.Nat.{ℕ, suc}
use mathlib.Core.Path.{◌≡◌, refl}
use mathlib.Core.Logic.{◌⊎◌, inl, inr}
use mathlib.Core.Bool.{Bool, true, false}
use mathlib.Core.List.{List, [], ◌∷◌}
use mathlib.Core.Option.{none, some}
use syauth.Base.Tests.{if◌then◌else◌, Bool-cases}
use syauth.Base.Lists.{find, position, remove_at, modify_at}

module _ {ℓ} {A : Type ℓ} where
  -- The list without its first match, and with that match changed.
  abbrev pub drop_first : (A → Bool) → List A → List A
  drop_first p [] = []
  drop_first p (x ∷ xs) = if p x then xs else x ∷ drop_first p xs

  abbrev pub modify_first : (A → Bool) → (A → A) → List A → List A
  modify_first p f [] = []
  modify_first p f (x ∷ xs) = if p x then f x ∷ xs else x ∷ modify_first p f xs

module _ {ℓ} {A : Type ℓ} (p : A → Bool) (f : A → A) where
  pub record Found (xs : List A) : Type ℓ where
    pub index : ℕ
    pub item : A
    pub at : position p xs ≡ some index
    pub first : find p xs ≡ some item
    pub matches : p item ≡ true
    pub removed : remove_at xs index ≡ drop_first p xs
    pub modified : modify_at xs index f ≡ modify_first p f xs

  pub record Missing (xs : List A) : Type ℓ where
    pub nowhere : position p xs ≡ none
    pub nothing : find p xs ≡ none

  Found-later : (x : A) (xs : List A) → p x ≡ false → Found xs → Found (x ∷ xs)
  Found-later x xs h r = record {
    index = suc r.index;
    item = r.item;
    at = rw (h, r.at);
    first = rw (h, r.first);
    matches = r.matches;
    removed = rw (h, r.removed);
    modified = rw (h, r.modified);
  }

  pub locate : (xs : List A) → Missing xs ⊎ Found xs
  locate [] = inl (record { nowhere = refl; nothing = refl })
  locate (x ∷ xs) = elim (Bool-cases (p x)) [
    | inl h ↦ inr (record {
      index = 0;
      item = x;
      at = rw h;
      first = rw h;
      matches = h;
      removed = rw h;
      modified = rw h;
    })
    | inr h ↦ elim (locate xs) [
      | inl none_left ↦
          inl (record { nowhere = rw (h, none_left.nowhere); nothing = rw (h, none_left.nothing) })
      | inr r ↦ inr (Found-later x xs h r)
    ]
  ]
