-- ===== src/Cli/PamLine/Disk.antt =====
-- `install` and `uninstall` of crates/syauth-cli/src/install_pam.rs and uninstall_pam.rs over the files
-- of the PAM directory and the answers of the system's calls.
use syauth.Base.{
  ℕ, ◌%◌, ◌^◌, Bool, true, not, ◌&&◌, Text, text, Dict, get, insert, erase, is_some, [], ◌∷◌, ◌++◌,
  ◌==◌, Option, none, some, Result, ok, err, take, if◌then◌else◌,
}
use syauth.Cli.PamLine.{
  backup_suffix, IsMatch, recognition_regex, u2f_recognition_regex, InstallOpts, build_line,
  insert_line, maybe_insert_u2f_fallback,
}

pub record PamFile : Type 0 where
  pub bytes : Text
  pub mode : ℕ

abbrev pub Disk : Type 0
Disk = Dict PamFile

-- Whether the calls succeed. A failing `fs::copy` leaves a prefix of the backup; a failing
-- `atomic_write` leaves no temporary file.
pub record Calls : Type 0 where
  pub read_service : Bool
  pub stat_service : Bool
  pub copied : Option ℕ
  pub chmod_backup : Bool
  pub write_temp : Bool
  pub persist : Bool
  pub read_backup : Bool
  pub remove_backup : Bool

pub data InstallError : Type 0 where
  service_not_found : Text → InstallError
  backup_exists : Text → InstallError
  backup_missing : Text → Text → InstallError
  not_utf8 : Text → InstallError
  io_error : Text → InstallError
  persist_error : Text → InstallError

pub data InstallOutcome : Type 0 where
  already_installed : Text → InstallOutcome
  installed : Text → Text → InstallOutcome

pub data UninstallOutcome : Type 0 where
  not_installed : Text → UninstallOutcome
  restored : Text → Text → UninstallOutcome

abbrev pub ends_with_slash : Text → Bool
ends_with_slash [] = true
ends_with_slash (c ∷ []) = c == b'/'
ends_with_slash (c ∷ d ∷ t) = ends_with_slash (d ∷ t)

-- `Path::join`: an absolute name replaces the directory.
abbrev pub join : Text → Text → Text
join dir [] = if ends_with_slash dir then dir else dir ++ text "/"
join dir (c ∷ name) =
    if c == b'/'
    then c ∷ name
    else if ends_with_slash dir
    then dir ++ (c ∷ name)
    else dir ++ (text "/" ++ (c ∷ name))

unfoldable pub service_path : Text → Text → Text
service_path pam_dir service = join pam_dir service

unfoldable pub backup_path : Text → Text → Text
backup_path pam_dir service = join pam_dir (service ++ backup_suffix)

-- `mode() & 0o7777`
abbrev pub file_mode : PamFile → ℕ
file_mode f = f.mode % 2 ^ 12

abbrev pub Answer : Type 0 → Type 0
Answer O = Result O InstallError × Disk

module _ (is_match : IsMatch) (utf8 : Text → Bool) (io : Calls) where
  -- `read_utf8`
  abbrev pub read_utf8 : Text → PamFile → Result Text InstallError
  read_utf8 path f =
      if not io.read_service
      then err (io_error path)
      else if not (utf8 f.bytes)
      then err (not_utf8 path)
      else ok f.bytes

  -- `atomic_write` and `atomic_restore`
  unfoldable pub atomic_write : Text → Text → ℕ → Disk → Answer (Unit {0})
  atomic_write target contents mode disk =
      if not io.write_temp
      then (err (io_error target), disk)
      else if not io.persist
      then (err (persist_error target), disk)
      else (ok tt, insert target (record { bytes = contents; mode = mode }) disk)

  -- the copy and the mode of the backup
  unfoldable pub take_backup : Text → PamFile → Disk → Answer (Unit {0})
  take_backup backup f disk = elim io.copied [
    | some n ↦ (
      err (io_error backup),
      insert backup (record { bytes = take n f.bytes; mode = file_mode f }) disk,
    )
    | none ↦
        let copy = insert backup (record { bytes = f.bytes; mode = file_mode f }) disk in
        if io.chmod_backup then (ok tt, copy) else (err (io_error backup), copy)
  ]

  abbrev pub finish_install : Text → Text → Answer (Unit {0}) → Answer InstallOutcome
  finish_install service backup (err e, disk) = (err e, disk)
  finish_install service backup (ok _, disk) = (ok (installed service backup), disk)

  -- the end of `install`, from the body with the line in place
  unfoldable pub write_service : InstallOpts → Text → Text → ℕ → Text → Disk → Answer InstallOutcome
  unfolding atomic_write
  write_service opts service backup mode with_syauth disk = finish_install service backup (
      atomic_write service (maybe_insert_u2f_fallback is_match with_syauth opts.with_u2f_fallback)
        mode disk)

  abbrev pub after_backup :
      InstallOpts → Text → Text → PamFile → Answer (Unit {0}) → Answer InstallOutcome
  after_backup opts service backup f (err e, disk) = (err e, disk)
  after_backup opts service backup f (ok _, disk) =
      write_service opts service backup (file_mode f) (insert_line f.bytes (build_line opts)) disk

  unfoldable pub first_install : InstallOpts → Text → Text → PamFile → Disk → Answer InstallOutcome
  unfolding take_backup write_service
  first_install opts service backup f disk =
      if is_some (get backup disk)
      then (err (backup_exists backup), disk)
      else after_backup opts service backup f (take_backup backup f disk)

  unfoldable pub install_body : InstallOpts → Text → Text → PamFile → Disk → Answer InstallOutcome
  unfolding first_install write_service
  install_body opts service backup f disk =
      let syauth_present = is_match recognition_regex f.bytes in
      let u2f_present = is_match u2f_recognition_regex f.bytes in
      let needs_u2f_insert = opts.with_u2f_fallback && not u2f_present in
      if syauth_present && not needs_u2f_insert
      then (ok (already_installed service), disk)
      else if not io.stat_service
      then (err (io_error service), disk)
      else if syauth_present
      then write_service opts service backup (file_mode f) f.bytes disk
      else first_install opts service backup f disk

  unfoldable pub install_file :
      InstallOpts → Text → Text → Option PamFile → Disk → Answer InstallOutcome
  unfolding install_body
  install_file opts service backup none disk = (err (service_not_found service), disk)
  install_file opts service backup (some f) disk = elim (read_utf8 service f) [
    | err e ↦ (err e, disk)
    | ok _ ↦ install_body opts service backup f disk
  ]

  unfoldable pub install : InstallOpts → Disk → Answer InstallOutcome
  unfolding install_file service_path backup_path
  install opts disk =
      let service = service_path opts.pam_dir opts.service in
      install_file opts service (backup_path opts.pam_dir opts.service) (get service disk) disk

  -- after the restore, `fs::remove_file`
  abbrev pub drop_backup : Text → Text → Answer (Unit {0}) → Answer UninstallOutcome
  drop_backup service backup (err e, disk) = (err e, disk)
  drop_backup service backup (ok _, disk) =
      if io.remove_backup
      then (ok (restored service backup), erase backup disk)
      else (err (io_error backup), disk)

  unfoldable pub restore : Text → Text → PamFile → Option PamFile → Disk → Answer UninstallOutcome
  unfolding atomic_write
  restore service backup f none disk = (err (backup_missing backup service), disk)
  restore service backup f (some b) disk =
      if not io.read_backup
      then (err (io_error backup), disk)
      else if not io.stat_service
      then (err (io_error service), disk)
      else drop_backup service backup (atomic_write service b.bytes (file_mode f) disk)

  unfoldable pub uninstall_file : Text → Text → Option PamFile → Disk → Answer UninstallOutcome
  unfolding restore
  uninstall_file service backup none disk = (err (service_not_found service), disk)
  uninstall_file service backup (some f) disk = elim (read_utf8 service f) [
    | err e ↦ (err e, disk)
    | ok body ↦
        if not (is_match recognition_regex body)
        then (ok (not_installed service), disk)
        else restore service backup f (get backup disk) disk
  ]

  unfoldable pub uninstall : Text → Text → Disk → Answer UninstallOutcome
  unfolding uninstall_file service_path backup_path
  uninstall pam_dir service disk =
      let path = service_path pam_dir service in
      uninstall_file path (backup_path pam_dir service) (get path disk) disk
