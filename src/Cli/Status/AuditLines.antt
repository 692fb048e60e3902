-- ===== src/Cli/Status/AuditLines.antt =====
-- What `syauth status` (crates/syauth-cli/src/status.rs) makes of the daemon's audit records
-- (crates/syauth-presenced/src/audit.rs), which by default go to the file that it reads.
use syauth.Base.{
  ℕ, zero, suc, ◌+◌, ◌/◌, ◌%◌, ltb, Bool, true, Text, text, [], ◌∷◌, ◌++◌, Option, none, some,
  Result, ok, split_ascii_whitespace, words_from, IsWord, IsGraphic, graphic_append, ◌≡◌, ◌≢◌, refl,
  sym, ap, ◌∙◌, subst, arith, Bool-cases, inl, inr,
}
use mathlib.Core.List.{append_assoc, append-nil}
use syauth.Presence.Audit.{AuditRecord, format_record, digits, decimal}
use syauth.Cli.Status.{
  StatusError, LastUnlockEntry, LastUnlockView, entry, unparseable, log_text, three_fields,
  parse_last_log_line, is_blank, view_of, read_last_unlock,
}
use syauth.Cli.Status.Writers.{IsLine, IsShort, only_word, IsLine-of, word_blank, read_appended}

digits_graphic : (fuel n : ℕ) (rest : Text) → IsGraphic rest → IsGraphic (digits fuel n rest)
digits_graphic zero n rest h = h
digits_graphic (suc fuel) n rest h = elim (Bool-cases (ltb n 10)) [
  | inl c ↦ rw c here
  | inr c ↦ rw c (digits_graphic fuel (n / 10) _ here)
]
  where
    here : IsGraphic ((48 + n % 10) ∷ rest)
    here = ground arith

graphic_join :
    (a b c d e f : Text)
    → IsGraphic a
    → IsGraphic b
    → IsGraphic c
    → IsGraphic d
    → IsGraphic e
    → IsGraphic f
    → IsGraphic (
        a
        ++ (text ","
            ++ (b
                ++ (text "," ++ (c ++ (text "," ++ (d ++ (text "," ++ (e ++ (text "," ++ f))))))))))
graphic_join a b c d e f ga gb gc gd ge gf =
    let t4 : Text = e ++ (text "," ++ f) in
    let t3 : Text = d ++ (text "," ++ t4) in
    let t2 : Text = c ++ (text "," ++ t3) in
    let t1 : Text = b ++ (text "," ++ t2) in
    comma a t1 ga (comma b t2 gb (comma c t3 gc (comma d t4 gd (comma e f ge gf))))
  where
    comma : (x t : Text) → IsGraphic x → IsGraphic t → IsGraphic (x ++ (text "," ++ t))
    comma x t g h = graphic_append x (text "," ++ t) g (graphic_append (text ",") t refl h)

-- the fields of an audit record with the commas between them, without the line's end
record_line : AuditRecord → Text
record_line r =
    r.peer_id
    ++ (text ","
        ++ (r.nonce_hex
            ++ (text ","
                ++ (decimal r.t_start_ms
                    ++ (text ","
                        ++ (decimal r.t_end_ms
                            ++ (text "," ++ (r.outcome ++ (text "," ++ r.reason)))))))))

audit_line : (r : AuditRecord) → format_record r ≡ record_line r ++ b'\n' ∷ []
unfolding format_record record_line
audit_line r = simp append_assoc

-- Fields of printable ASCII without spaces, and a peer id that is not empty.
pub record IsPlain (r : AuditRecord) : Type 0 where
  pub peer : IsWord r.peer_id
  pub nonce : IsGraphic r.nonce_hex
  pub outcome : IsGraphic r.outcome
  pub reason : IsGraphic r.reason

front_ne : (a b : Text) → a ≢ [] → a ++ b ≢ []
front_ne [] b h = λ _. h refl
front_ne (c ∷ a) b h = λ e. cc

record_line-IsWord : (r : AuditRecord) → IsPlain r → IsWord (record_line r)
unfolding record_line
record_line-IsWord r h = (
  front_ne r.peer_id _ h.peer.0,
  graphic_join r.peer_id r.nonce_hex (decimal r.t_start_ms) (decimal r.t_end_ms) r.outcome r.reason
      h.peer.1 h.nonce (digits_graphic 39 r.t_start_ms [] refl)
      (digits_graphic 39 r.t_end_ms [] refl) h.outcome h.reason,
)

module _ (is_rfc3339 : Text → Bool) (utf8 : Text → Bool) where
  word_IsLine : (w : Text) → IsWord w → IsLine w
  word_IsLine w h = IsLine-of [] w refl h (ap is_blank (sym (append-nil w)) ∙ word_blank w [] h)

  word_unparsed : (w : Text) → IsWord w → parse_last_log_line is_rfc3339 utf8 w ≡ none
  unfolding parse_last_log_line split_ascii_whitespace
  word_unparsed w h =
      ap (λ (t : Text). three_fields is_rfc3339 utf8 (words_from [] t))
        (IsLine.trimmed (word_IsLine w h))
      ∙ ap (three_fields is_rfc3339 utf8) (only_word w h)

  -- After the daemon has appended an audit record whose peer id is not empty and whose peer id, nonce,
  -- outcome and reason are printable ASCII without spaces to a log of fewer than 64 readable lines,
  -- `status` calls that line unparseable, where the line is a text.
  pub read_last_unlock-format_record :
      (log : Text) (r : AuditRecord)
      → IsShort is_rfc3339 utf8 log
      → utf8 (format_record r) ≡ true
      → IsPlain r
      → (line : Text) × (format_record r ≡ line ++ text "\n")
        × (read_last_unlock is_rfc3339 utf8 (log_text (log ++ format_record r))
            ≡ ok (unparseable line))
  unfolding view_of parse_last_log_line
  read_last_unlock-format_record log r l u h = (
    record_line r,
    audit_line r,
    ap (λ (t : Text). read_last_unlock is_rfc3339 utf8 (log_text (log ++ t))) (audit_line r)
        ∙ read_appended is_rfc3339 utf8 log (record_line r) l
            (subst (λ (t : Text). utf8 t ≡ true) (audit_line r) u)
            (word_IsLine (record_line r) word)
        ∙ ap seen (word_unparsed (record_line r) word),
  )
    where
      word : IsWord (record_line r)
      word = record_line-IsWord r h

      seen : Option LastUnlockEntry → Result LastUnlockView StatusError
      seen o = ok (elim o [ some e ↦ entry e | none ↦ unparseable (record_line r) ])
