-- ===== src/Cli/PamLine/Again.antt =====
-- A first `install` of crates/syauth-cli/src/install_pam.rs, and a second one after it.
use syauth.Base.{
  IsWord, Bool, true, false, Text, text, get, get-insert, insert, bytes_eq, bytes_eq_ne,
  bytes_eq_refl, length, length-append, [], ◌∷◌, ◌++◌, AtLineStart, none, some, ok, ◌≡◌, ◌≢◌, refl,
  sym, ap, ◌∙◌, subst, arith, Bool-cases, inl, inr, ◌==◌,
}
use mathlib.Core.List.{append_assoc}
use syauth.Cli.PamLine.{
  default_so_name, IsMatch, recognition_regex, InstallOpts, build_line, insert_line, with_newline,
  maybe_insert_u2f_fallback,
}
use syauth.Cli.PamLine.Lines.{insert_line-around}
use syauth.Cli.PamLine.Disk.{
  PamFile, Disk, Calls, file_mode, ends_with_slash, service_path, backup_path, already_installed,
  installed, Answer, InstallOutcome, take_backup, atomic_write, write_service, first_install,
  read_utf8, install_body, install_file, install,
}

-- The backup's path is the service file's with the suffix.
backup_path-append : (dir name : Text) → backup_path dir name ≡ service_path dir name ++ text ".bak"
unfolding backup_path service_path
backup_path-append dir [] = elim (Bool-cases (ends_with_slash dir)) [
  | inl h ↦ rw h refl
  | inr h ↦ rw h (sym (append_assoc dir (text "/") (text ".bak")))
]
backup_path-append dir (c ∷ name) = elim (Bool-cases (c == b'/')) [
  | inl h ↦ rw h refl
  | inr h ↦ elim (Bool-cases (ends_with_slash dir)) [
    | inl e ↦ rw (h, e) (sym (append_assoc dir (c ∷ name) (text ".bak")))
    | inr e ↦ rw (h, e) (sym (append_assoc dir (text "/" ++ (c ∷ name)) (text ".bak")))
  ]
]

longer : (t : Text) → t ++ text ".bak" ≢ t
longer t h = omega (arith, ap length h, length-append t (text ".bak"))

pub paths_apart :
    (dir name : Text) → bytes_eq (backup_path dir name) (service_path dir name) ≡ false
paths_apart dir name =
    bytes_eq_ne _ _ (λ e. longer (service_path dir name) (sym (backup_path-append dir name) ∙ e))

pub paths_apart' :
    (dir name : Text) → bytes_eq (service_path dir name) (backup_path dir name) ≡ false
paths_apart' dir name =
    bytes_eq_ne _ _
      (λ e. longer (service_path dir name) (sym (backup_path-append dir name) ∙ sym e))

-- Every call succeeds.
pub record Works (io : Calls) : Type 0 where
  pub read_service : io.read_service ≡ true
  pub stat_service : io.stat_service ≡ true
  pub copied : io.copied ≡ none
  pub chmod_backup : io.chmod_backup ≡ true
  pub write_temp : io.write_temp ≡ true
  pub persist : io.persist ≡ true
  pub read_backup : io.read_backup ≡ true
  pub remove_backup : io.remove_backup ≡ true

-- What the pattern says of a line with four spaces between the fields.
abbrev pub Recognises : IsMatch → Type 0
Recognises is_match =
    (before control rest : Text)
    → AtLineStart before
    → IsWord control
    → is_match recognition_regex (
        before
        ++ (text "auth"
            ++ (text "    "
                ++ (control ++ (text "    " ++ (default_so_name ++ (text " " ++ rest)))))))
      ≡ true

-- A string put into another where a line starts is one again.
abbrev pub InsertsText : (Text → Bool) → Type 0
InsertsText utf8 =
    (before line rest : Text)
    → AtLineStart before
    → utf8 (before ++ rest) ≡ true
    → utf8 line ≡ true
    → utf8 (before ++ (line ++ rest)) ≡ true

module _ (is_match : IsMatch) (utf8 : Text → Bool) (opts : InstallOpts) where
  abbrev pub service : Text
  service = service_path opts.pam_dir opts.service

  abbrev pub backup : Text
  backup = backup_path opts.pam_dir opts.service

  -- The service file is a text in which the pattern finds no line, there is no backup, and the options
  -- name the default module without the u2f fallback.
  pub record Fresh (f : PamFile) (disk : Disk) : Type 0 where
    pub here : get service disk ≡ some f
    pub is_text : utf8 f.bytes ≡ true
    pub unwired : is_match recognition_regex f.bytes ≡ false
    pub no_backup : get backup disk ≡ none
    pub no_fallback : opts.with_u2f_fallback ≡ false
    pub module_name : opts.so_path ≡ default_so_name
    pub line_is_text : utf8 (with_newline (build_line opts)) ≡ true

  abbrev pub wired : PamFile → Text
  wired f = insert_line f.bytes (build_line opts)

  abbrev pub after_install : PamFile → Disk → Disk
  after_install f disk =
      insert service (record { bytes = wired f; mode = file_mode f })
        (insert backup (record { bytes = f.bytes; mode = file_mode f }) disk)

  module _ (io : Calls) (works : Works io) (f : PamFile) (disk : Disk) (fresh : Fresh f disk) where
    backup_taken :
        take_backup is_match utf8 io backup f disk
        ≡ (ok tt, insert backup (record { bytes = f.bytes; mode = file_mode f }) disk)
    unfolding take_backup
    backup_taken = ground arith

    written :
        (d : Disk)
        → write_service is_match utf8 io opts service backup (file_mode f) (wired f) d ≡ (
          ok (installed service backup),
          insert service (record { bytes = wired f; mode = file_mode f }) d,
        )
    unfolding write_service atomic_write maybe_insert_u2f_fallback
    written d = ground arith

    first :
        first_install is_match utf8 io opts service backup f disk
        ≡ (ok (installed service backup), after_install f disk)
    unfolding first_install
    first = rw (fresh.no_backup, backup_taken) (written _)

    body :
        install_body is_match utf8 io opts service backup f disk
        ≡ first_install is_match utf8 io opts service backup f disk
    unfolding install_body
    body = ground arith

    read : read_utf8 is_match utf8 io service f ≡ ok f.bytes
    read = ground arith

    pub install_fresh :
        install is_match utf8 io opts disk ≡ (ok (installed service backup), after_install f disk)
    unfolding install
    install_fresh = rw (fresh.here, read, install_file) (body ∙ first)

    -- the line and its fields
    line_parts :
        (rest : Text)
        → with_newline (build_line opts) ++ rest
          ≡ text "auth"
            ++ (text "    "
                ++ (opts.control
                    ++ (text "    "
                        ++ (default_so_name
                            ++ (text " " ++ (opts.module_args ++ (text "\n" ++ rest)))))))
    unfolding build_line
    line_parts rest = simp (append_assoc, fresh.module_name)

    pub wired_recognised :
        IsWord opts.control → Recognises is_match → is_match recognition_regex (wired f) ≡ true
    wired_recognised w r =
        let (before, rest, o, e, b) = insert_line-around f.bytes (build_line opts) in
        subst (λ (t : Text). is_match recognition_regex t ≡ true)
          (sym (e ∙ ap (◌++◌ before) (line_parts rest)))
          (r before opts.control (opts.module_args ++ (text "\n" ++ rest)) b w)

    pub wired_text : InsertsText utf8 → utf8 (wired f) ≡ true
    wired_text h =
        let (before, rest, o, e, b) = insert_line-around f.bytes (build_line opts) in
        subst (λ (t : Text). utf8 t ≡ true) (sym e)
          (h before (with_newline (build_line opts)) rest b
            (subst (λ (t : Text). utf8 t ≡ true) o fresh.is_text) fresh.line_is_text)

    pub service_after :
        get service (after_install f disk) ≡ some (record { bytes = wired f; mode = file_mode f })
    service_after =
        get-insert service service (record { bytes = wired f; mode = file_mode f }) _
        ∙ rw (bytes_eq_refl service)

    abbrev pub new_file : PamFile
    new_file = record { bytes = wired f; mode = file_mode f }

    pub read_again :
        (io2 : Calls)
        → io2.read_service ≡ true
        → InsertsText utf8
        → read_utf8 is_match utf8 io2 service new_file ≡ ok (wired f)
    read_again io2 reads u = ground (arith, wired_text u)

    body_again :
        (io2 : Calls) (d : Disk)
        → IsWord opts.control
        → Recognises is_match
        → install_body is_match utf8 io2 opts service backup new_file d
          ≡ (ok (already_installed service), d)
    unfolding install_body
    body_again io2 d w r = ground (arith, wired_recognised w r)

    again :
        (io2 : Calls)
        → io2.read_service ≡ true
        → IsWord opts.control
        → Recognises is_match
        → InsertsText utf8
        → install is_match utf8 io2 opts (after_install f disk)
          ≡ (ok (already_installed service), after_install f disk)
    unfolding install
    again io2 reads w r u =
        rw (service_after, read_again io2 reads u, install_file) (body_again io2 _ w r)

    -- Where the options name the default module, no u2f fallback and a control flag of one word, a first
    -- `install` whose calls succeed, on a service file in UTF-8 without the line and without a backup,
    -- writes a line that the pattern finds, since it takes any control of one word: a second `install`
    -- with the same options, which can read the file, says that it is there and changes nothing.
    pub install-install :
        (io2 : Calls)
        → io2.read_service ≡ true
        → IsWord opts.control
        → Recognises is_match
        → InsertsText utf8
        → install is_match utf8 io2 opts (install is_match utf8 io opts disk).1
          ≡ (ok (already_installed service), (install is_match utf8 io opts disk).1)
    install-install io2 reads w r u =
        subst (λ (d : Disk). install is_match utf8 io2 opts d ≡ (ok (already_installed service), d))
          (sym (ap (λ (a : Answer InstallOutcome). a.1) install_fresh)) (again io2 reads w r u)
