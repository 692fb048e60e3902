-- ===== src/Base/Parsing.antt =====
-- What the source calls of `str`: prefixes, substrings, white space, and lines with their ends.
use Prim.Native.Nat.{ℕ, zero, suc}
use mathlib.Core.Path.{◌≡◌, refl, ap, sym, subst, ◌∙◌}
use mathlib.Core.Logic.{◌⊎◌, inl, inr, ◌≢◌}
use mathlib.Core.Bool.{Bool, true, false, not, ◌||◌, ◌&&◌}
use mathlib.Core.List.{List, [], ◌∷◌, ◌++◌, append_assoc, append-nil}
use mathlib.Core.Option
use mathlib.Core.Option.{Option, none, some}
use native.Mathlib.Omega.{arith}
use syauth.Base.Tests.{if◌then◌else◌, Bool-cases, leb, ◌==◌}
use syauth.Base.Lists.{length, any}
use syauth.Base.Strings.{Text}

-- `strip_prefix`
unfoldable pub strip_prefix : Text → Text → Option Text
strip_prefix [] t = some t
strip_prefix (p ∷ ps) [] = none
strip_prefix (p ∷ ps) (c ∷ cs) = if p == c then strip_prefix ps cs else none

abbrev pub starts_with : Text → Text → Bool
starts_with p t = elim (strip_prefix p t) [ none ↦ false | some _ ↦ true ]

-- `haystack.contains(needle)`
unfoldable pub has_substring : Text → Text → Bool
has_substring needle [] = starts_with needle []
has_substring needle (c ∷ cs) = starts_with needle (c ∷ cs) || has_substring needle cs

-- The characters beyond ASCII with the property White_Space, in UTF-8.
abbrev wide_spaces : List Text
wide_spaces =
    (0xc2 ∷ 0x85 ∷ [])
    ∷ (0xc2 ∷ 0xa0 ∷ [])
    ∷ (0xe1 ∷ 0x9a ∷ 0x80 ∷ [])
    ∷ (0xe2 ∷ 0x80 ∷ 0x80 ∷ [])
    ∷ (0xe2 ∷ 0x80 ∷ 0x81 ∷ [])
    ∷ (0xe2 ∷ 0x80 ∷ 0x82 ∷ [])
    ∷ (0xe2 ∷ 0x80 ∷ 0x83 ∷ [])
    ∷ (0xe2 ∷ 0x80 ∷ 0x84 ∷ [])
    ∷ (0xe2 ∷ 0x80 ∷ 0x85 ∷ [])
    ∷ (0xe2 ∷ 0x80 ∷ 0x86 ∷ [])
    ∷ (0xe2 ∷ 0x80 ∷ 0x87 ∷ [])
    ∷ (0xe2 ∷ 0x80 ∷ 0x88 ∷ [])
    ∷ (0xe2 ∷ 0x80 ∷ 0x89 ∷ [])
    ∷ (0xe2 ∷ 0x80 ∷ 0x8a ∷ [])
    ∷ (0xe2 ∷ 0x80 ∷ 0xa8 ∷ [])
    ∷ (0xe2 ∷ 0x80 ∷ 0xa9 ∷ [])
    ∷ (0xe2 ∷ 0x80 ∷ 0xaf ∷ [])
    ∷ (0xe2 ∷ 0x81 ∷ 0x9f ∷ [])
    ∷ (0xe3 ∷ 0x80 ∷ 0x80 ∷ [])
    ∷ []

strip_any : List Text → Text → Option Text
strip_any [] t = none
strip_any (p ∷ ps) t =
    let rest = strip_any ps t in elim (strip_prefix p t) [ some r ↦ some r | none ↦ rest ]

-- The text after a leading character for which `char::is_whitespace` holds.
unfoldable pub strip_space : Text → Option Text
unfolding strip_any strip_prefix
strip_space [] = none
strip_space (c ∷ cs) =
    if c == 32 || (leb 9 c && leb c 13) then some cs else strip_any wide_spaces (c ∷ cs)

-- The fuel counts characters.
unfoldable pub trim_from : ℕ → Text → Text
unfolding strip_space
trim_from zero t = t
trim_from (suc fuel) t = elim (strip_space t) [ none ↦ t | some r ↦ trim_from fuel r ]

unfoldable pub trim_start : Text → Text
unfolding trim_from
trim_start t = trim_from (length t) t

-- `split_inclusive('\n')`
abbrev pub push_front : ℕ → List Text → List Text
push_front c [] = (c ∷ []) ∷ []
push_front c (l ∷ ls) = (c ∷ l) ∷ ls

unfoldable pub split_inclusive : Text → List Text
split_inclusive [] = []
split_inclusive (c ∷ cs) =
    let rest = split_inclusive cs in if c == b'\n' then (c ∷ []) ∷ rest else push_front c rest

abbrev pub concat : List Text → Text
concat [] = []
concat (l ∷ ls) = l ++ concat ls

pub concat-split_inclusive : (t : Text) → concat (split_inclusive t) ≡ t
unfolding split_inclusive
concat-split_inclusive [] = refl
concat-split_inclusive (c ∷ cs) = elim (Bool-cases (c == b'\n')) [
  | inl h ↦ rw h (ap (◌∷◌ c) (concat-split_inclusive cs))
  | inr h ↦ rw h (pushed (split_inclusive cs) cs (concat-split_inclusive cs))
]
  where
    pushed : (ls : List Text) (t : Text) → concat ls ≡ t → concat (push_front c ls) ≡ c ∷ t
    pushed [] t h = ap (◌∷◌ c) h
    pushed (l ∷ ls) t h = ap (◌∷◌ c) h

-- A text that is empty or ends a line.
abbrev pub AtLineStart : Text → Type 0
AtLineStart t = (t ≡ []) ⊎ ((u : Text) × (t ≡ u ++ b'\n' ∷ []))

abbrev EndsLine : Text → Type 0
EndsLine t = (u : Text) × (t ≡ u ++ b'\n' ∷ [])

-- Every line but the last one has its end.
abbrev Ended : List Text → Type 0
Ended [] = Unit
Ended (l ∷ []) = Unit
Ended (l ∷ m ∷ ls) = EndsLine l × Ended (m ∷ ls)

Ended-newline : (ls : List Text) → Ended ls → Ended ((b'\n' ∷ []) ∷ ls)
Ended-newline [] h = tt
Ended-newline (l ∷ ls) h = (([], refl), h)

Ended-push : (c : ℕ) (ls : List Text) → Ended ls → Ended (push_front c ls)
Ended-push c [] h = tt
Ended-push c (l ∷ []) h = tt
Ended-push c (l ∷ m ∷ ls) h = ((c ∷ h.0.0, ap (◌∷◌ c) h.0.1), h.1)

Ended-split : (t : Text) → Ended (split_inclusive t)
unfolding split_inclusive
Ended-split [] = tt
Ended-split (c ∷ cs) = elim (Bool-cases (c == b'\n')) [
  | inl h ↦ rw h (newline_first c (split_inclusive cs) h (Ended-split cs))
  | inr h ↦ rw h (Ended-push c (split_inclusive cs) (Ended-split cs))
]
  where
    newline_first :
        (c : ℕ) (ls : List Text) → (c == b'\n') ≡ true → Ended ls → Ended ((c ∷ []) ∷ ls)
    newline_first c [] h e = tt
    newline_first c (l ∷ ls) h e = (([], ap (λ (d : ℕ). d ∷ []) (ground arith)), e)

ends_append : (a b : Text) → EndsLine b → EndsLine (a ++ b)
ends_append a b (u, e) = (a ++ u, ap (◌++◌ a) e ∙ sym (append_assoc a u (b'\n' ∷ [])))

ends_concat :
    (l : Text) (before after : List Text) (m : Text)
    → Ended (l ∷ before ++ m ∷ after)
    → EndsLine (l ++ concat before)
ends_concat l [] after m h = (h.0.0, append-nil l ∙ h.0.1)
ends_concat l (b ∷ before) after m h =
    ends_append l (b ++ concat before) (ends_concat b before after m h.1)

-- What stands before a line of a split text ends a line.
pub split_inclusive-AtLineStart :
    (t : Text) (before after : List Text) (m : Text)
    → split_inclusive t ≡ before ++ m ∷ after
    → AtLineStart (concat before)
split_inclusive-AtLineStart t [] after m h = inl refl
split_inclusive-AtLineStart t (b ∷ before) after m h =
    inr (ends_concat b before after m (subst Ended h (Ended-split t)))

pub concat-append : (xs ys : List Text) → concat (xs ++ ys) ≡ concat xs ++ concat ys
concat-append [] ys = refl
concat-append (x ∷ xs) ys =
    ap (◌++◌ x) (concat-append xs ys) ∙ sym (append_assoc x (concat xs) (concat ys))

abbrev pub is_graphic : ℕ → Bool
is_graphic c = leb 33 c && leb c 126

-- Printable ASCII without spaces.
abbrev pub IsGraphic : Text → Type 0
IsGraphic t = any (λ (c : ℕ). not (is_graphic c)) t ≡ false

-- One word of printable ASCII.
abbrev pub IsWord : Text → Type 0
IsWord w = (w ≢ []) × IsGraphic w

pub graphic_head : (c : ℕ) (cs : Text) → IsGraphic (c ∷ cs) → (is_graphic c ≡ true) × IsGraphic cs
graphic_head c cs h = (ground arith, ground arith)

pub graphic_append : (a b : Text) → IsGraphic a → IsGraphic b → IsGraphic (a ++ b)
graphic_append [] b h k = k
graphic_append (c ∷ a) b h k =
    let (g, rest) = graphic_head c a h in rw g (graphic_append a b rest k)

abbrev starts_high : Text → Bool
starts_high [] = false
starts_high (b ∷ bs) = leb 127 b

strip_any-graphic :
    (ps : List Text) (c : ℕ) (cs : Text)
    → any (λ (p : Text). not (starts_high p)) ps ≡ false
    → is_graphic c ≡ true
    → strip_any ps (c ∷ cs) ≡ none
unfolding strip_any strip_prefix
strip_any-graphic [] c cs h g = refl
strip_any-graphic ([] ∷ ps) c cs h g = cc
strip_any-graphic ((b ∷ bs) ∷ ps) c cs h g =
    rw (differs, strip_any) (strip_any-graphic ps c cs (ground arith) g)
  where
    differs : (b == c) ≡ false
    differs = ground arith

pub strip_space-graphic : (c : ℕ) (cs : Text) → is_graphic c ≡ true → strip_space (c ∷ cs) ≡ none
unfolding strip_space
strip_space-graphic c cs h = rw blank (strip_any-graphic wide_spaces c cs refl h)
  where
    blank : (c == 32 || (leb 9 c && leb c 13)) ≡ false
    blank = ground arith

pub trim_start-graphic : (c : ℕ) (cs : Text) → is_graphic c ≡ true → trim_start (c ∷ cs) ≡ c ∷ cs
unfolding trim_start trim_from
trim_start-graphic c cs h = rw (strip_space-graphic c cs h, trim_from)

-- `strip_suffix` of one character
abbrev pub strip_suffix : ℕ → Text → Option Text
strip_suffix c [] = none
strip_suffix c (x ∷ []) = if x == c then some [] else none
strip_suffix c (x ∷ y ∷ t) = Option.map (◌∷◌ x) (strip_suffix c (y ∷ t))

-- `trim_end_matches`
abbrev pub keep_unless : Bool → ℕ → Text → Text
keep_unless true c [] = []
keep_unless drops c rest = c ∷ rest

unfoldable pub trim_end_matches : (ℕ → Bool) → Text → Text
trim_end_matches p [] = []
trim_end_matches p (c ∷ cs) = keep_unless (p c) c (trim_end_matches p cs)

-- A line as `BufRead::lines` gives it: without its end.
abbrev pub strip_end : Text → Text
strip_end l = elim (strip_suffix b'\n' l) [
  | none ↦ l
  | some m ↦ elim (strip_suffix b'\r' m) [ none ↦ m | some k ↦ k ]
]

-- `split_ascii_whitespace`
abbrev pub is_ascii_space : ℕ → Bool
is_ascii_space c = c == 32 || (c == 9 || (c == 10 || (c == 12 || c == 13)))

abbrev pub flush : Text → List Text → List Text
flush [] ws = ws
flush (c ∷ w) ws = (c ∷ w) ∷ ws

unfoldable pub words_from : Text → Text → List Text
words_from word [] = flush word []
words_from word (c ∷ cs) =
    let more = words_from (word ++ c ∷ []) cs in
    let fresh = flush word (words_from [] cs) in if is_ascii_space c then fresh else more

unfoldable pub split_ascii_whitespace : Text → List Text
unfolding words_from
split_ascii_whitespace = words_from []

pub words_from-graphic :
    (acc w rest : Text) → IsGraphic w → words_from acc (w ++ rest) ≡ words_from (acc ++ w) rest
unfolding words_from
words_from-graphic acc [] rest h = ap (λ (t : Text). words_from t rest) (sym (append-nil acc))
words_from-graphic acc (c ∷ w) rest h =
    let (g, later) = graphic_head c w h in
    rw (solid g) (
      words_from-graphic (acc ++ c ∷ []) w rest later
      ∙ ap (λ (t : Text). words_from t rest) (append_assoc acc (c ∷ []) w))
  where
    solid : is_graphic c ≡ true → is_ascii_space c ≡ false
    solid g = ground arith

pub trim_end_matches-append :
    (p : ℕ → Bool) (a : Text) (c : ℕ) → p c ≡ false → trim_end_matches p (a ++ c ∷ []) ≡ a ++ c ∷ []
unfolding trim_end_matches
trim_end_matches-append p [] c h = rw h refl
trim_end_matches-append p (b ∷ a) c h = rw (trim_end_matches-append p a c h) (kept (p b) a)
  where
    kept : (d : Bool) (a : Text) → keep_unless d b (a ++ c ∷ []) ≡ b ∷ a ++ c ∷ []
    kept true [] = refl
    kept true (x ∷ a) = refl
    kept false a = refl
