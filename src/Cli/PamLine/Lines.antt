-- ===== src/Cli/PamLine/Lines.antt =====
-- Where `insert_line` of crates/syauth-cli/src/install_pam.rs puts the line.
use syauth.Base.{
  Bool, true, false, Text, any, List, [], ◌∷◌, ◌++◌, AtLineStart, concat, concat-append,
  concat-split_inclusive, split_inclusive, split_inclusive-AtLineStart, if◌then◌else◌, ◌≡◌, ◌⊎◌,
  refl, sym, ap, ◌∙◌, Bool-cases, inl, inr, arith,
}
use mathlib.Core.List.{append_assoc}
use syauth.Cli.PamLine.{is_auth_directive, with_newline, insert_from, insert_line}

-- A split of the lines before the first `auth` directive.
pub record FirstAuth (lines : List Text) : Type 0 where
  pub before : List Text
  pub directive : Text
  pub after : List Text
  pub parts : lines ≡ before ++ directive ∷ after
  pub is_first : any is_auth_directive before ≡ false
  pub is_auth : is_auth_directive directive ≡ true

FirstAuth-later :
    (l : Text) (ls : List Text) → is_auth_directive l ≡ false → FirstAuth ls → FirstAuth (l ∷ ls)
FirstAuth-later l ls h f = record {
  before = l ∷ f.before;
  directive = f.directive;
  after = f.after;
  parts = ap (◌∷◌ l) f.parts;
  is_first = rw (h, f.is_first);
  is_auth = f.is_auth;
}

find_auth : (ls : List Text) → (any is_auth_directive ls ≡ false) ⊎ FirstAuth ls
find_auth [] = inl refl
find_auth (l ∷ ls) = elim (Bool-cases (is_auth_directive l)) [
  | inl h ↦ inr (record {
    before = [];
    directive = l;
    after = ls;
    parts = refl;
    is_first = refl;
    is_auth = h;
  })
  | inr h ↦ elim (find_auth ls) [ inl n ↦ inl (rw (h, n)) | inr f ↦ inr (FirstAuth-later l ls h f) ]
]

none_of :
    (l : Text) (ls : List Text)
    → any is_auth_directive (l ∷ ls) ≡ false
    → (is_auth_directive l ≡ false) × (any is_auth_directive ls ≡ false)
none_of l ls h = (ground arith, ground arith)

module _ (new_line : Text) where
  insert_from-done : (ls : List Text) → insert_from true new_line ls ≡ (true, concat ls)
  insert_from-done [] = refl
  insert_from-done (l ∷ ls) = rw (insert_from-done ls)

  insert_from-none :
      (ls : List Text)
      → any is_auth_directive ls ≡ false
      → (insert_from false new_line ls).0 ≡ false
  insert_from-none [] h = refl
  insert_from-none (l ∷ ls) h =
      let (first, later) = none_of l ls h in rw first (insert_from-none ls later)

  insert_from-first :
      (before after : List Text) (d : Text)
      → any is_auth_directive before ≡ false
      → is_auth_directive d ≡ true
      → insert_from false new_line (before ++ d ∷ after)
        ≡ (true, concat before ++ (with_newline new_line ++ concat (d ∷ after)))
  insert_from-first [] after d n h = rw (h, insert_from-done after)
  insert_from-first (b ∷ before) after d n h =
      let (first, later) = none_of b before n in
      rw (first, insert_from-first before after d later h)
        (ap (λ (t : Text). (true, t)) (sym (append_assoc b (concat before) _)))

-- `insert_line` keeps every byte of the text and puts the line, with its end, directly above the first
-- line that starts an `auth` directive; without one it puts the line at the top.
pub insert_line_lem :
    (original new_line : Text)
    → ((any is_auth_directive (split_inclusive original) ≡ false)
        × (insert_line original new_line ≡ with_newline new_line ++ original))
      ⊎ ((f : FirstAuth (split_inclusive original)) × (original
            ≡ concat f.before ++ concat (f.directive ∷ f.after))
          × (insert_line original new_line
              ≡ concat f.before ++ (with_newline new_line ++ concat (f.directive ∷ f.after)))
          × AtLineStart (concat f.before))
unfolding insert_line
insert_line_lem original new_line = elim (find_auth (split_inclusive original)) [
  | inl n ↦ inl (n, rw (insert_from-none new_line (split_inclusive original) n))
  | inr f ↦ inr (
    f,
    sym (concat-split_inclusive original)
        ∙ ap concat f.parts
        ∙ concat-append f.before (f.directive ∷ f.after),
    chosen f,
    split_inclusive-AtLineStart original f.before f.after f.directive f.parts,
  )
]
  where
    outcome : Bool × Text → Text
    outcome r = if r.0 then r.1 else with_newline new_line ++ original

    chosen :
        (f : FirstAuth (split_inclusive original))
        → outcome (insert_from false new_line (split_inclusive original))
          ≡ concat f.before ++ (with_newline new_line ++ concat (f.directive ∷ f.after))
    chosen f = ap outcome (
        ap (insert_from false new_line) f.parts
        ∙ insert_from-first new_line f.before f.after f.directive f.is_first f.is_auth)

-- The text in which the line was inserted is the line with its end between two parts of the original,
-- the first of which is empty or ends a line.
pub insert_line-around :
    (original new_line : Text)
    → (before : Text) × (rest : Text) × (original ≡ before ++ rest)
      × (insert_line original new_line ≡ before ++ (with_newline new_line ++ rest))
      × AtLineStart before
insert_line-around original new_line = elim (insert_line_lem original new_line) [
  | inl (n, e) ↦ ([], original, refl, e, inl refl)
  | inr (f, o, e, b) ↦ (concat f.before, concat (f.directive ∷ f.after), o, e, b)
]
