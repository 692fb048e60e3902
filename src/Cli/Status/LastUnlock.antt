-- ===== src/Cli/Status/LastUnlock.antt =====
-- The last line of the log as `syauth status` (crates/syauth-cli/src/status.rs) reads it, after the
-- writers of crates/syauth-pam/src/auth.rs and crates/syauth-presenced/src/audit.rs.
use syauth.Base.{
  ℕ, ◌+◌, ◌≤◌, ◌<◌, Bool, true, false, not, any, leb, length, Text, List, [], ◌∷◌, ◌++◌, Option,
  none, some, Result, ok, and_then, split_inclusive, split_inclusive-append, split_inclusive-line,
  strip_end, AtLineStart, ◌==◌, ◌≡◌, refl, ap, ◌∙◌, arith, Bool-cases, inl, inr,
}
use syauth.Cli.Status.{
  StatusError, LastUnlockView, log_text, is_blank, last_from, view_of, read_last_unlock,
}

module _ (is_rfc3339 : Text → Bool) (utf8 : Text → Bool) where
  -- Every line of the log is UTF-8.
  abbrev pub Readable : List Text → Type 0
  Readable ls = any (λ (l : Text). not (utf8 l)) ls ≡ false

  Readable-head : (x : Text) (xs : List Text) → Readable (x ∷ xs) → (utf8 x ≡ true) × Readable xs
  Readable-head x xs r = (ground arith, ground arith)

  full : (n : ℕ) → 64 ≤ n → leb 64 n ≡ true
  full n h = ground arith

  last_from-shown :
      (n : ℕ) (o : Option Text) (xs : List Text) (l : Text)
      → n + length xs < 64
      → Readable xs
      → utf8 l ≡ true
      → is_blank (strip_end l) ≡ false
      → last_from is_rfc3339 utf8 n o (xs ++ l ∷ []) ≡ ok (some (strip_end l))
  unfolding last_from
  last_from-shown n o [] l h r u b = rw (opened, u, b) refl
    where
      opened : leb 64 n ≡ false
      opened = ground arith
  last_from-shown n o (x ∷ xs) l h r u b =
      rw (opened, (Readable-head x xs r).0)
        (last_from-shown (n + 1) _ xs l (omega arith) (Readable-head x xs r).1 u b)
    where
      opened : leb 64 n ≡ false
      opened = ground arith

  last_from-capped :
      (n : ℕ) (o : Option Text) (xs ys : List Text)
      → 64 ≤ n + length xs
      → last_from is_rfc3339 utf8 n o (xs ++ ys) ≡ last_from is_rfc3339 utf8 n o xs
  unfolding last_from
  last_from-capped n o [] [] h = refl
  last_from-capped n o [] (y ∷ ys) h = rw (full n (omega arith)) refl
  last_from-capped n o (x ∷ xs) ys h = elim (Bool-cases (leb 64 n)) [
    | inl c ↦ rw c refl
    | inr c ↦ elim (Bool-cases (utf8 x)) [
      | inl u ↦ rw (c, u) (last_from-capped (n + 1) _ xs ys (omega arith))
      | inr u ↦ rw (c, u) refl
    ]
  ]

  -- Once the log has 64 lines, what is appended to it is not read: the view stays the same.
  pub read_last_unlock-capped :
      (log more : Text)
      → AtLineStart log
      → 64 ≤ length (split_inclusive log)
      → read_last_unlock is_rfc3339 utf8 (log_text (log ++ more))
        ≡ read_last_unlock is_rfc3339 utf8 (log_text log)
  unfolding read_last_unlock
  read_last_unlock-capped log more e h = ap shown (
      ap (last_from is_rfc3339 utf8 0 none) (split_inclusive-append log more e)
      ∙ last_from-capped 0 none (split_inclusive log) (split_inclusive more) (omega arith))
    where
      shown : Result (Option Text) StatusError → Result LastUnlockView StatusError
      shown r = and_then r (λ last. ok (view_of is_rfc3339 utf8 last))

  -- a log whose last line is `w`, a text without line ends that starts and ends in printable ASCII
  pub read_last_unlock-line :
      (log w : Text)
      → AtLineStart log
      → length (split_inclusive log) < 64
      → Readable (split_inclusive log)
      → utf8 (w ++ b'\n' ∷ []) ≡ true
      → any (λ (c : ℕ). c == b'\n') w ≡ false
      → strip_end (w ++ b'\n' ∷ []) ≡ w
      → is_blank w ≡ false
      → read_last_unlock is_rfc3339 utf8 (log_text (log ++ (w ++ b'\n' ∷ [])))
        ≡ ok (view_of is_rfc3339 utf8 (some w))
  unfolding read_last_unlock
  read_last_unlock-line log w e short r u one s b = ap shown (
      ap (last_from is_rfc3339 utf8 0 none) (
        split_inclusive-append log (w ++ b'\n' ∷ []) e
        ∙ ap (◌++◌ (split_inclusive log)) (split_inclusive-line w one))
      ∙ last_from-shown 0 none (split_inclusive log) (w ++ b'\n' ∷ []) (omega arith) r u
          (ap is_blank s ∙ b)
      ∙ ap (λ (t : Text). ok (some t)) s)
    where
      shown : Result (Option Text) StatusError → Result LastUnlockView StatusError
      shown r = and_then r (λ last. ok (view_of is_rfc3339 utf8 last))
