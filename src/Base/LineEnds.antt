-- ===== src/Base/LineEnds.antt =====
-- Lines of a text that is put together from lines and words.
use Prim.Native.Nat.{ℕ}
use mathlib.Core.Path.{◌≡◌, refl, ap, sym, subst}
use mathlib.Core.Logic.{◌≢◌, inl, inr}
use mathlib.Core.Bool.{true, false}
use mathlib.Core.List.{List, [], ◌∷◌, ◌++◌}
use mathlib.Core.Option.{none, some}
use native.Mathlib.Omega.{arith}
use syauth.Base.Tests.{Bool-cases, ◌==◌}
use syauth.Base.Lists.{any}
use syauth.Base.Strings.{Text}
use syauth.Base.Parsing.{
  push_front, split_inclusive, AtLineStart, IsWord, is_graphic, graphic_head, strip_suffix,
  strip_end, flush,
}

push_front-append :
    (c : ℕ) (xs ys : List Text) → xs ≢ [] → push_front c (xs ++ ys) ≡ push_front c xs ++ ys
push_front-append c [] ys h = absurd (h refl)
push_front-append c (x ∷ xs) ys h = refl

push_front-ne : (c : ℕ) (xs : List Text) → push_front c xs ≢ []
push_front-ne c [] h = cc
push_front-ne c (x ∷ xs) h = cc

split_inclusive-ne : (c : ℕ) (t : Text) → split_inclusive (c ∷ t) ≢ []
unfolding split_inclusive
split_inclusive-ne c t = elim (Bool-cases (c == b'\n')) [
  | inl h ↦ rw h (λ q. cc)
  | inr h ↦ rw h (push_front-ne c (split_inclusive t))
]

snoc_ne : (u : Text) → split_inclusive (u ++ b'\n' ∷ []) ≢ []
snoc_ne [] = split_inclusive-ne b'\n' []
snoc_ne (c ∷ u) = split_inclusive-ne c (u ++ b'\n' ∷ [])

split_inclusive-ended :
    (u t : Text)
    → split_inclusive ((u ++ b'\n' ∷ []) ++ t)
      ≡ split_inclusive (u ++ b'\n' ∷ []) ++ split_inclusive t
unfolding split_inclusive
split_inclusive-ended [] t = refl
split_inclusive-ended (c ∷ u) t = elim (Bool-cases (c == b'\n')) [
  | inl h ↦ rw (h, split_inclusive-ended u t) refl
  | inr h ↦
      rw (h, split_inclusive-ended u t)
        (push_front-append c (split_inclusive (u ++ b'\n' ∷ [])) (split_inclusive t) (snoc_ne u))
]

-- What follows the end of a line has its own lines.
pub split_inclusive-append :
    (s t : Text) → AtLineStart s → split_inclusive (s ++ t) ≡ split_inclusive s ++ split_inclusive t
unfolding split_inclusive
split_inclusive-append s t (inl e) =
    subst (λ (x : Text). split_inclusive (x ++ t) ≡ split_inclusive x ++ split_inclusive t) (sym e)
      refl
split_inclusive-append s t (inr (u, e)) =
    subst (λ (x : Text). split_inclusive (x ++ t) ≡ split_inclusive x ++ split_inclusive t) (sym e)
      (split_inclusive-ended u t)

-- A text without an end of line is one line.
pub split_inclusive-line :
    (w : Text)
    → any (λ (c : ℕ). c == b'\n') w ≡ false
    → split_inclusive (w ++ b'\n' ∷ []) ≡ (w ++ b'\n' ∷ []) ∷ []
unfolding split_inclusive
split_inclusive-line [] h = refl
split_inclusive-line (c ∷ w) h = rw (head, split_inclusive-line w later) refl
  where
    head : (c == b'\n') ≡ false
    head = ground arith

    later : any (λ (d : ℕ). d == b'\n') w ≡ false
    later = ground arith

strip_suffix-snoc : (c : ℕ) (w : Text) → strip_suffix c (w ++ c ∷ []) ≡ some w
strip_suffix-snoc c [] = ground arith
strip_suffix-snoc c (x ∷ []) = ground (arith, strip_suffix-snoc c [])
strip_suffix-snoc c (x ∷ y ∷ w) = rw (strip_suffix-snoc c (y ∷ w))

strip_suffix-other : (c d : ℕ) (w : Text) → (d == c) ≡ false → strip_suffix c (w ++ d ∷ []) ≡ none
strip_suffix-other c d [] h = rw h
strip_suffix-other c d (x ∷ []) h = rw h
strip_suffix-other c d (x ∷ y ∷ w) h = rw (strip_suffix-other c d (y ∷ w) h)

pub strip_end-line :
    (w : Text) (c : ℕ) → is_graphic c ≡ true → strip_end ((w ++ c ∷ []) ++ b'\n' ∷ []) ≡ w ++ c ∷ []
strip_end-line w c g =
    rw (
      strip_suffix-snoc b'\n' (w ++ c ∷ []),
      strip_end,
      strip_suffix-other b'\r' c w (ground arith),
    )

-- The last character of a word.
pub last_of :
    (w : Text) → IsWord w → (a : Text) × (c : ℕ) × (w ≡ a ++ c ∷ []) × (is_graphic c ≡ true)
last_of [] (h, g) = absurd (h refl)
last_of (c ∷ []) (h, g) = ([], c, refl, (graphic_head c [] g).0)
last_of (c ∷ d ∷ w) (h, g) =
    let (a, e, p, q) = last_of (d ∷ w) ((λ n. cc), (graphic_head c (d ∷ w) g).1) in
    (c ∷ a, e, ap (◌∷◌ c) p, q)

pub flush-word : (w : Text) (ws : List Text) → w ≢ [] → flush w ws ≡ w ∷ ws
flush-word [] ws h = absurd (h refl)
flush-word (c ∷ w) ws h = refl
