-- ===== src/Cli/PamLine/Unseen.antt =====
-- A control flag that the pattern of crates/syauth-cli/src/install_pam.rs does not find once its line
-- is written.
use syauth.Base.{
  Bool, true, false, Text, text, get, get-insert, insert, bytes_eq_refl, ◌++◌, AtLineStart, some,
  ok, err, ◌≡◌, refl, sym, ap, ◌∙◌, subst, arith,
}
use syauth.Cli.PamLine.{
  default_module_args, IsMatch, InstallOpts, recognition_regex, build_line, with_newline,
}
use syauth.Cli.PamLine.Lines.{insert_line-around}
use syauth.Cli.PamLine.Disk.{
  PamFile, Disk, Calls, Answer, file_mode, backup_exists, not_installed, installed, InstallOutcome,
  first_install, install_body, install_file, install, uninstall_file, uninstall,
}
use syauth.Cli.PamLine.Again.{
  paths_apart', Works, InsertsText, Fresh, service, backup, wired, after_install, install_fresh,
  service_after, read_again, new_file,
}

-- the control flag of the documentation of `--control`
abbrev pub bracketed_control : Text
bracketed_control = text "[success=done auth_err=die default=ignore]"

-- the line with that flag and the default module with its default arguments
abbrev pub bracketed_line : Text
bracketed_line =
    text "auth    [success=done auth_err=die default=ignore]    pam_syauth.so timeout=8000"

-- What the pattern says of that line: it takes one word for the control flag, so a text in which it
-- finds nothing stays so with the line in it.
abbrev pub Overlooks : IsMatch → Type 0
Overlooks is_match =
    (before rest : Text)
    → AtLineStart before
    → is_match recognition_regex (before ++ rest) ≡ false
    → is_match recognition_regex (before ++ (with_newline bracketed_line ++ rest)) ≡ false

module _ (is_match : IsMatch) (utf8 : Text → Bool) (opts : InstallOpts) (io : Calls)
    (works : Works io) (f : PamFile) (disk : Disk) (fresh : Fresh is_match utf8 opts f disk) where
  abbrev S : Text
  S = service is_match utf8 opts

  abbrev B : Text
  B = backup is_match utf8 opts

  abbrev wired_disk : Disk
  wired_disk = after_install is_match utf8 opts f disk

  abbrev wired_file : PamFile
  wired_file = new_file is_match utf8 opts io works f disk fresh

  line_bracketed :
      opts.control ≡ bracketed_control
      → opts.module_args ≡ default_module_args
      → build_line opts ≡ bracketed_line
  unfolding build_line
  line_bracketed c m = rw (c, m, fresh.module_name) refl

  wired_unseen :
      Overlooks is_match
      → opts.control ≡ bracketed_control
      → opts.module_args ≡ default_module_args
      → is_match recognition_regex (wired is_match utf8 opts f) ≡ false
  wired_unseen overlooks c m =
      let (before, rest, o, e, b) = insert_line-around f.bytes (build_line opts) in
      subst (λ (t : Text). is_match recognition_regex t ≡ false)
        (sym (e ∙ ap (λ (l : Text). before ++ (with_newline l ++ rest)) (line_bracketed c m)))
        (overlooks before rest b
          (subst (λ (t : Text). is_match recognition_regex t ≡ false) o fresh.unwired))

  saved : get B wired_disk ≡ some (record { bytes = f.bytes; mode = file_mode f })
  saved =
      get-insert S B wired_file (insert B (record { bytes = f.bytes; mode = file_mode f }) disk)
      ∙ rw (paths_apart' opts.pam_dir opts.service) (
          get-insert B B (record { bytes = f.bytes; mode = file_mode f }) disk
          ∙ rw (bytes_eq_refl B))

  module _ (io2 : Calls) (reads : io2.read_service ≡ true) (stats : io2.stat_service ≡ true)
      (unseen : is_match recognition_regex (wired is_match utf8 opts f) ≡ false)
      (u : InsertsText utf8) where
    refused :
        install_body is_match utf8 io2 opts S B wired_file wired_disk
        ≡ (err (backup_exists B), wired_disk)
    unfolding install_body first_install
    refused = ground (arith, saved)

    Lost : Disk → Type 0
    Lost d =
        (install is_match utf8 io2 opts d ≡ (err (backup_exists B), d))
        × (uninstall is_match utf8 io2 opts.pam_dir opts.service d ≡ (ok (not_installed S), d))

    lost : Lost wired_disk
    unfolding install uninstall Lost
    lost =
        let here = service_after is_match utf8 opts io works f disk fresh in
        let read = read_again is_match utf8 opts io works f disk fresh io2 reads u in
        (rw (here, read, install_file) refused, rw (here, read, uninstall_file, unseen) refl)

  -- The options have the documented control flag of several words, the default module with its default
  -- arguments, and no u2f fallback; the service file is in UTF-8 and has no line of the module and no
  -- backup; and the pattern, which takes one word for the control, finds nothing in a text with the
  -- line of these options where it finds nothing without it. Then a first `install` whose calls
  -- succeed writes a line that is not found again: a second `install` with the same options, which can
  -- read the file and its mode, fails because of the backup, `uninstall` reports that nothing is
  -- installed, and neither changes a file.
  pub uninstall-install_unseen :
      (io2 : Calls)
      → io2.read_service ≡ true
      → io2.stat_service ≡ true
      → Overlooks is_match
      → InsertsText utf8
      → opts.control ≡ bracketed_control
      → opts.module_args ≡ default_module_args
      → let (outcome, after) = install is_match utf8 io opts disk in
        (outcome ≡ ok (installed S B))
        × (install is_match utf8 io2 opts after ≡ (err (backup_exists B), after))
        × (uninstall is_match utf8 io2 opts.pam_dir opts.service after
            ≡ (ok (not_installed S), after))
  unfolding Lost
  uninstall-install_unseen io2 reads stats overlooks u c m =
      let first = install_fresh is_match utf8 opts io works f disk fresh in
      let again =
        subst (λ (d : Disk). Lost io2 reads stats (wired_unseen overlooks c m) u d)
          (sym (ap (λ (a : Answer InstallOutcome). a.1) first))
          (lost io2 reads stats (wired_unseen overlooks c m) u) in
      (ap (λ (a : Answer InstallOutcome). a.0) first, again.0, again.1)
