-- ===== src/Cli/Status/Writers.antt =====
-- What `syauth status` (crates/syauth-cli/src/status.rs) shows of the lines that the PAM module
-- (crates/syauth-pam/src/auth.rs) and the daemon (crates/syauth-presenced/src/audit.rs) append to
-- `last.log`.
use syauth.Base.{
  bytes_eq, ℕ, ◌<◌, Bool, true, false, ◌||◌, any, length, Text, text, [], ◌∷◌, ◌++◌, Option, none,
  some, Result, ok, split_inclusive, split_ascii_whitespace, words_from, words_from-graphic,
  flush-word, strip_end, strip_end-line, last_of, trim_start-graphic, trim_end_matches,
  trim_end_matches-append, AtLineStart, IsWord, IsGraphic, is_graphic, graphic_head, if◌then◌else◌,
  ◌==◌, ◌≡◌, refl, sym, ap, ◌∙◌, subst, arith, Bool-cases, inl, inr,
}
use mathlib.Core.List.{append_assoc, append-nil}
use syauth.Pam.Auth.{
  AuthOutcome, success, auth_info_unavail, auth_err, is_success, outcome_peer_id,
  last_log_unknown_peer, last_log_line,
}
use syauth.Cli.Status.{
  StatusError, LastUnlockEntry, LastUnlockView, entry, unparseable, log_text, three_fields,
  parse_last_log_line, is_blank, view_of, read_last_unlock,
}
use syauth.Cli.Status.LastUnlock.{Readable, read_last_unlock-line}

-- A line that starts and ends in printable ASCII, with no end of line in it.
pub record IsLine (w : Text) : Type 0 where
  pub no_end : any (λ (c : ℕ). c == b'\n') w ≡ false
  pub kept : strip_end (w ++ b'\n' ∷ []) ≡ w
  pub trimmed : trim_end_matches (λ (c : ℕ). c == b'\n' || c == b'\r') w ≡ w
  pub shown : is_blank w ≡ false

pub graphic_no_end : (w : Text) → IsGraphic w → any (λ (c : ℕ). c == b'\n') w ≡ false
graphic_no_end [] g = refl
graphic_no_end (c ∷ w) g =
    let (h, later) = graphic_head c w g in rw (solid h) (graphic_no_end w later)
  where
    solid : is_graphic c ≡ true → (c == b'\n') ≡ false
    solid h = ground arith

pub word_blank : (w : Text) (rest : Text) → IsWord w → is_blank (w ++ rest) ≡ false
unfolding is_blank
word_blank [] rest (h, g) = absurd (h refl)
word_blank (c ∷ w) rest (h, g) =
    rw (is_blank, trim_start-graphic c (w ++ rest) (graphic_head c w g).0) refl

any-append :
    (p : ℕ → Bool) (a b : Text) → any p a ≡ false → any p b ≡ false → any p (a ++ b) ≡ false
any-append p [] b h k = k
any-append p (c ∷ a) b h k = ground (arith, any-append p a b)

-- A line that ends in a word.
pub IsLine-of :
    (front w : Text)
    → any (λ (c : ℕ). c == b'\n') front ≡ false
    → IsWord w
    → is_blank (front ++ w) ≡ false
    → IsLine (front ++ w)
IsLine-of front w one word shown =
    let (a, c, e, g) = last_of w word in
    let joined : front ++ w ≡ (front ++ a) ++ c ∷ [] =
      ap (◌++◌ front) e ∙ sym (append_assoc front a (c ∷ [])) in
    record {
      no_end = any-append _ front w one (graphic_no_end w word.1);
      kept =
          subst (λ (t : Text). strip_end (t ++ b'\n' ∷ []) ≡ t) (sym joined)
            (strip_end-line (front ++ a) c g);
      trimmed =
          subst (λ (t : Text). trim_end_matches (λ (c : ℕ). c == b'\n' || c == b'\r') t ≡ t)
            (sym joined) (trim_end_matches-append _ (front ++ a) c (ground arith));
      shown = shown;
    }

pub only_word : (w : Text) → IsWord w → words_from [] w ≡ w ∷ []
unfolding words_from
only_word w (h, g) =
    ap (words_from []) (sym (append-nil w)) ∙ words_from-graphic [] w [] g ∙ flush-word w [] h

module _ (is_rfc3339 : Text → Bool) (utf8 : Text → Bool) where
  -- a log of fewer than 64 readable lines, each with its end
  pub record IsShort (log : Text) : Type 0 where
    pub ended : AtLineStart log
    pub short : length (split_inclusive log) < 64
    pub readable : Readable is_rfc3339 utf8 (split_inclusive log)

  pub read_appended :
      (log w : Text)
      → IsShort log
      → utf8 (w ++ b'\n' ∷ []) ≡ true
      → IsLine w
      → read_last_unlock is_rfc3339 utf8 (log_text (log ++ (w ++ b'\n' ∷ [])))
        ≡ ok (view_of is_rfc3339 utf8 (some w))
  read_appended log w l u h =
      read_last_unlock-line is_rfc3339 utf8 log w l.ended l.short l.readable u h.no_end h.kept
        h.shown

  abbrev pub verb_of : AuthOutcome → Text
  verb_of outcome = if is_success outcome then text "success" else text "failure"

  abbrev pub peer_of : AuthOutcome → Text
  peer_of outcome = elim (outcome_peer_id outcome) [ none ↦ last_log_unknown_peer | some id ↦ id ]

  abbrev front_of : Text → Text → Text
  front_of ts verb = ts ++ (text " " ++ (verb ++ text " "))

  fields :
      (ts verb peer : Text)
      → IsWord ts
      → IsWord verb
      → IsWord peer
      → split_ascii_whitespace (front_of ts verb ++ peer) ≡ ts ∷ verb ∷ peer ∷ []
  unfolding split_ascii_whitespace
  fields ts verb peer t v p =
      ap (words_from []) (assoc ts verb peer)
      ∙ words_from-graphic [] ts (text " " ++ (verb ++ (text " " ++ peer))) t.1
      ∙ flush-word ts _ t.0
      ∙ ap (◌∷◌ ts) (
          words_from-graphic [] verb (text " " ++ peer) v.1
          ∙ flush-word verb _ v.0
          ∙ ap (◌∷◌ verb) (only_word peer p))
    where
      assoc : (a b c : Text) → front_of a b ++ c ≡ a ++ (text " " ++ (b ++ (text " " ++ c)))
      assoc a b c = simp append_assoc

  verb-IsWord : (outcome : AuthOutcome) → IsWord (verb_of outcome)
  verb-IsWord outcome = elim (Bool-cases (is_success outcome)) [
    | inl h ↦ rw h ((λ q. cc), refl)
    | inr h ↦ rw h ((λ q. cc), refl)
  ]

  front_no_end :
      (ts verb : Text)
      → IsWord ts
      → IsWord verb
      → any (λ (c : ℕ). c == b'\n') (front_of ts verb) ≡ false
  front_no_end ts verb t v =
      any-append _ ts _ (graphic_no_end ts t.1)
        (any-append _ verb (text " ") (graphic_no_end verb v.1) refl)

  pam_IsLine :
      (ts verb peer : Text)
      → IsWord ts
      → IsWord verb
      → IsWord peer
      → IsLine (front_of ts verb ++ peer)
  pam_IsLine ts verb peer t v p =
      IsLine-of (front_of ts verb) peer (front_no_end ts verb t v) p
        (ap is_blank (append_assoc ts _ peer) ∙ word_blank ts _ t)

  accepted :
      (ts : Text) (outcome : AuthOutcome)
      → is_rfc3339 ts ≡ true
      → three_fields is_rfc3339 utf8 (ts ∷ verb_of outcome ∷ peer_of outcome ∷ [])
        ≡ some (record { timestamp = ts; outcome = verb_of outcome; peer_id = peer_of outcome })
  unfolding bytes_eq
  accepted ts outcome h = elim (Bool-cases (is_success outcome)) [
    | inl s ↦ rw (s, h) refl
    | inr s ↦ rw (s, h) refl
  ]

  pam_parsed :
      (ts : Text) (outcome : AuthOutcome)
      → IsWord ts
      → is_rfc3339 ts ≡ true
      → IsWord (peer_of outcome)
      → parse_last_log_line is_rfc3339 utf8 (front_of ts (verb_of outcome) ++ peer_of outcome)
        ≡ some (record { timestamp = ts; outcome = verb_of outcome; peer_id = peer_of outcome })
  unfolding parse_last_log_line
  pam_parsed ts outcome t h p =
      ap (λ (w : Text). three_fields is_rfc3339 utf8 (split_ascii_whitespace w))
        (IsLine.trimmed
          (pam_IsLine ts (verb_of outcome) (peer_of outcome) t (verb-IsWord outcome) p))
      ∙ ap (three_fields is_rfc3339 utf8)
          (fields ts (verb_of outcome) (peer_of outcome) t (verb-IsWord outcome) p)
      ∙ accepted ts outcome h

  pam_line :
      (ts : Text) (outcome : AuthOutcome)
      → last_log_line ts outcome ≡ (front_of ts (verb_of outcome) ++ peer_of outcome) ++ b'\n' ∷ []
  unfolding last_log_line
  pam_line ts outcome = simp append_assoc

  read_last_unlock-written :
      (log ts : Text) (outcome : AuthOutcome)
      → IsShort log
      → utf8 (last_log_line ts outcome) ≡ true
      → IsWord ts
      → is_rfc3339 ts ≡ true
      → IsWord (peer_of outcome)
      → read_last_unlock is_rfc3339 utf8 (log_text (log ++ last_log_line ts outcome))
        ≡ ok (
            entry (record { timestamp = ts; outcome = verb_of outcome; peer_id = peer_of outcome }))
  unfolding view_of parse_last_log_line
  read_last_unlock-written log ts outcome l u t h p =
      ap (λ (line : Text). read_last_unlock is_rfc3339 utf8 (log_text (log ++ line)))
        (pam_line ts outcome)
      ∙ read_appended log (front_of ts (verb_of outcome) ++ peer_of outcome) l
          (subst (λ (line : Text). utf8 line ≡ true) (pam_line ts outcome) u)
          (pam_IsLine ts (verb_of outcome) (peer_of outcome) t (verb-IsWord outcome) p)
      ∙ ap seen (pam_parsed ts outcome t h p)
    where
      seen : Option LastUnlockEntry → Result LastUnlockView StatusError
      seen o = ok (elim o [
        | some e ↦ entry e
        | none ↦ unparseable (front_of ts (verb_of outcome) ++ peer_of outcome)
      ])

  -- What an outcome is: a success of a peer, or a failure with a peer where one was resolved.
  abbrev pub told : Text → AuthOutcome → LastUnlockEntry
  told ts (success id) = record { timestamp = ts; outcome = text "success"; peer_id = id }
  told ts (auth_info_unavail reason (some id)) = record {
    timestamp = ts;
    outcome = text "failure";
    peer_id = id;
  }
  told ts (auth_info_unavail reason none) = record {
    timestamp = ts;
    outcome = text "failure";
    peer_id = text "unknown";
  }
  told ts (auth_err reason (some id)) = record {
    timestamp = ts;
    outcome = text "failure";
    peer_id = id;
  }
  told ts (auth_err reason none) = record {
    timestamp = ts;
    outcome = text "failure";
    peer_id = text "unknown";
  }

  written-told :
      (ts : Text) (outcome : AuthOutcome)
      → ◌≡◌ {A = LastUnlockEntry}
          (record { timestamp = ts; outcome = verb_of outcome; peer_id = peer_of outcome })
          (told ts outcome)
  written-told ts (success id) = refl
  written-told ts (auth_info_unavail reason (some id)) = refl
  written-told ts (auth_info_unavail reason none) = refl
  written-told ts (auth_err reason (some id)) = refl
  written-told ts (auth_err reason none) = refl

  -- After the PAM module has appended the line of an outcome to a log of fewer than 64 readable lines,
  -- `status` shows its time, `success` for a success and `failure` for any other outcome, and its peer,
  -- `unknown` where none was resolved. The time is an RFC 3339 one, the time and the peer's id are not
  -- empty and are printable ASCII without spaces, and the line is a text.
  pub read_last_unlock-last_log_line :
      (log ts : Text) (outcome : AuthOutcome)
      → IsShort log
      → utf8 (last_log_line ts outcome) ≡ true
      → IsWord ts
      → is_rfc3339 ts ≡ true
      → IsWord (LastUnlockEntry.peer_id (told ts outcome))
      → read_last_unlock is_rfc3339 utf8 (log_text (log ++ last_log_line ts outcome))
        ≡ ok (entry (told ts outcome))
  read_last_unlock-last_log_line log ts outcome l u t h p =
      read_last_unlock-written log ts outcome l u t h
        (subst (λ (e : LastUnlockEntry). IsWord e.peer_id) (sym (written-told ts outcome)) p)
      ∙ ap (λ (e : LastUnlockEntry). ok (entry e)) (written-told ts outcome)
