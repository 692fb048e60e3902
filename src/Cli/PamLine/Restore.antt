-- ===== src/Cli/PamLine/Restore.antt =====
-- `uninstall` after `install` (crates/syauth-cli/src/install_pam.rs and uninstall_pam.rs).
use syauth.Base.{
  IsWord, Bool, false, Text, get, get-insert, get-erase, insert, erase, bytes_eq, bytes_eq_refl,
  none, some, ok, ◌≡◌, refl, sym, ap, ◌∙◌, subst, arith,
}
use syauth.Cli.PamLine.{IsMatch, InstallOpts}
use syauth.Cli.PamLine.Disk.{
  PamFile, Disk, Calls, file_mode, restored, Answer, InstallOutcome, UninstallOutcome, atomic_write,
  restore, uninstall_file, uninstall, install,
}
use syauth.Cli.PamLine.Again.{
  paths_apart, paths_apart', Works, Recognises, InsertsText, service, backup, Fresh, new_file,
  after_install, service_after, read_again, wired_recognised, install_fresh,
}

module _ (is_match : IsMatch) (utf8 : Text → Bool) (opts : InstallOpts) (io : Calls)
    (works : Works io) (f : PamFile) (disk : Disk) (fresh : Fresh is_match utf8 opts f disk) where
  abbrev old_file : PamFile
  old_file = record { bytes = f.bytes; mode = file_mode f }

  abbrev S : Text
  S = service is_match utf8 opts

  abbrev B : Text
  B = backup is_match utf8 opts

  abbrev wired_disk : Disk
  wired_disk = after_install is_match utf8 opts f disk

  backup_after : get B wired_disk ≡ some old_file
  backup_after =
      get-insert S B (new_file is_match utf8 opts io works f disk fresh) (insert B old_file disk)
      ∙ rw (paths_apart' opts.pam_dir opts.service)
          (get-insert B B old_file disk ∙ rw (bytes_eq_refl B))

  -- the disk after both commands
  abbrev pub restored_disk : Disk
  restored_disk = erase B (insert S old_file wired_disk)

  mode_twice : file_mode (new_file is_match utf8 opts io works f disk fresh) ≡ file_mode f
  mode_twice = omega arith

  module _ (io2 : Calls) (works2 : Works io2) where
    taken_back :
        restore is_match utf8 io2 S B
          (new_file is_match utf8 opts io works f disk fresh)
          (some old_file)
          wired_disk
        ≡ (ok (restored S B), restored_disk)
    unfolding restore atomic_write
    taken_back = ground (arith, mode_twice)

    undone :
        IsWord opts.control
        → Recognises is_match
        → InsertsText utf8
        → uninstall is_match utf8 io2 opts.pam_dir opts.service wired_disk
          ≡ (ok (restored S B), restored_disk)
    unfolding uninstall
    undone w r u =
        rw
          (
            service_after is_match utf8 opts io works f disk fresh,
            read_again is_match utf8 opts io works f disk fresh io2 works2.read_service u,
            uninstall_file,
            wired_recognised is_match utf8 opts io works f disk fresh w r,
            backup_after,
          )
          taken_back

    restored_disk-service : get S restored_disk ≡ some old_file
    restored_disk-service =
        get-erase B S (insert S old_file wired_disk)
        ∙ rw (paths_apart opts.pam_dir opts.service)
            (get-insert S S old_file wired_disk ∙ rw (bytes_eq_refl S))

    restored_disk-backup : get B restored_disk ≡ none
    restored_disk-backup = get-erase B B (insert S old_file wired_disk) ∙ rw (bytes_eq_refl B)

    restored_disk-other :
        (path : Text)
        → bytes_eq S path ≡ false
        → bytes_eq B path ≡ false
        → get path restored_disk ≡ get path disk
    restored_disk-other path hs hb =
        get-erase B path (insert S old_file wired_disk)
        ∙ rw hb (
            get-insert S path old_file wired_disk
            ∙ rw hs (
                get-insert S path (new_file is_match utf8 opts io works f disk fresh)
                  (insert B old_file disk)
                ∙ rw hs (get-insert B path old_file disk ∙ rw hb)))

    -- Where the options name the default module, no u2f fallback and a control flag of one word, every
    -- call succeeds, and the service file is in UTF-8 and has no line of the module and no backup, and
    -- where the pattern finds a line with any control of one word: `uninstall` after `install` gives the
    -- service file its bytes and permission bits back, removes the backup, and leaves every other file
    -- as it was.
    pub uninstall-install :
        IsWord opts.control
        → Recognises is_match
        → InsertsText utf8
        → let (outcome, after) =
            uninstall is_match utf8 io2 opts.pam_dir opts.service
              (install is_match utf8 io opts disk).1 in
          (outcome ≡ ok (restored S B))
          × (get S after ≡ some (record { bytes = f.bytes; mode = file_mode f }))
          × (get B after ≡ none)
          × ((path : Text)
              → bytes_eq S path ≡ false
              → bytes_eq B path ≡ false
              → get path after ≡ get path disk)
    uninstall-install w r u =
        subst Undone
          (sym (
            ap run (
              ap (λ (a : Answer InstallOutcome). a.1)
                (install_fresh is_match utf8 opts io works f disk fresh))
            ∙ undone w r u))
          (refl, restored_disk-service, restored_disk-backup, restored_disk-other)
      where
        run : Disk → Answer UninstallOutcome
        run d = uninstall is_match utf8 io2 opts.pam_dir opts.service d

        Undone : Answer UninstallOutcome → Type 0
        Undone a =
            (a.0 ≡ ok (restored S B))
            × (get S a.1 ≡ some (record { bytes = f.bytes; mode = file_mode f }))
            × (get B a.1 ≡ none)
            × ((path : Text)
                → bytes_eq S path ≡ false
                → bytes_eq B path ≡ false
                → get path a.1 ≡ get path disk)
