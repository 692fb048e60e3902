-- ===== src/Cli/PamLine/Faults.antt =====
-- Failures of the calls that `install` of crates/syauth-cli/src/install_pam.rs makes.
use syauth.Base.{
  ℕ, Bool, not, ◌&&◌, Text, get, get-insert, insert, Option, none, some, is_some, Result, ok, err,
  ◌≡◌, refl, ◌∙◌, subst, Bool-cases, Option-cases, inl, inr,
}
use syauth.Cli.PamLine.{
  IsMatch, InstallOpts, recognition_regex, u2f_recognition_regex, maybe_insert_u2f_fallback,
}
use syauth.Cli.PamLine.Disk.{
  PamFile, Disk, Calls, file_mode, Answer, InstallError, atomic_write, take_backup, finish_install,
  write_service, after_backup, first_install, install_body, read_utf8, install_file, install,
}
use syauth.Cli.PamLine.Again.{paths_apart, service, backup}

-- An error comes with the file at the path as it was.
abbrev KeptOnError : {A : Type 0} → Text → Disk → Answer A → Type 0
KeptOnError path d (ok a, t) = Unit
KeptOnError path d (err e, t) = get path t ≡ get path d

module _ (is_match : IsMatch) (utf8 : Text → Bool) (io : Calls) (opts : InstallOpts) where
  abbrev S : Text
  S = service is_match utf8 opts

  abbrev B : Text
  B = backup is_match utf8 opts

  abbrev Kept : {A : Type 0} → Disk → Answer A → Type 0
  Kept d a = KeptOnError S d a

  Kept-write :
      (mode : ℕ) (contents : Text) (d : Disk)
      → Kept d (atomic_write is_match utf8 io S contents mode d)
  unfolding atomic_write
  Kept-write mode contents d = elim (Bool-cases io.write_temp) [
    | inl h ↦ elim (Bool-cases io.persist) [ inl g ↦ rw (h, g) tt | inr g ↦ rw (h, g) refl ]
    | inr h ↦ rw h refl
  ]

  Kept-finish :
      (d : Disk) (a : Answer (Unit {0})) → Kept d a → Kept d (finish_install is_match utf8 io S B a)
  Kept-finish d (ok _, t) h = tt
  Kept-finish d (err e, t) h = h

  Kept-service :
      (mode : ℕ) (body : Text) (d : Disk)
      → Kept d (write_service is_match utf8 io opts S B mode body d)
  unfolding write_service
  Kept-service mode body d =
      Kept-finish d
        (atomic_write is_match utf8 io S
          (maybe_insert_u2f_fallback is_match body opts.with_u2f_fallback) mode d)
        (Kept-write mode _ d)

  elsewhere : (x : PamFile) (d : Disk) → get S (insert B x d) ≡ get S d
  elsewhere x d = get-insert B S x d ∙ rw (paths_apart opts.pam_dir opts.service)

  -- the backup, whether it is complete or not
  aside : (f : PamFile) (d : Disk) → get S (take_backup is_match utf8 io B f d).1 ≡ get S d
  unfolding take_backup
  aside f d = elim (Option-cases io.copied) [
    | inl h ↦ elim (Bool-cases io.chmod_backup) [
      | inl g ↦ rw (h, g) (elsewhere _ d)
      | inr g ↦ rw (h, g) (elsewhere _ d)
    ]
    | inr (n, h) ↦ rw h (elsewhere _ d)
  ]

  Kept-from : {A : Type 0} (d t : Disk) (a : Answer A) → get S t ≡ get S d → Kept t a → Kept d a
  Kept-from d t (ok x, v) h k = tt
  Kept-from d t (err e, v) h k = k ∙ h

  Kept-backup :
      (f : PamFile) (d : Disk) (a : Answer (Unit {0}))
      → get S a.1 ≡ get S d
      → Kept d (after_backup is_match utf8 io opts S B f a)
  Kept-backup f d (err e, t) h = h
  Kept-backup f d (ok _, t) h = Kept-from d t _ h (Kept-service (file_mode f) _ t)

  Kept-first : (f : PamFile) (d : Disk) → Kept d (first_install is_match utf8 io opts S B f d)
  unfolding first_install
  Kept-first f d = elim (Bool-cases (is_some (get B d))) [
    | inl h ↦ rw h refl
    | inr h ↦ rw h (Kept-backup f d (take_backup is_match utf8 io B f d) (aside f d))
  ]

  Kept-body : (f : PamFile) (d : Disk) → Kept d (install_body is_match utf8 io opts S B f d)
  unfolding install_body
  Kept-body f d =
      elim (Bool-cases (
        is_match recognition_regex f.bytes
        && not (opts.with_u2f_fallback && not (is_match u2f_recognition_regex f.bytes)))) [
          | inl done ↦ rw done tt
          | inr more ↦ elim (Bool-cases io.stat_service) [
            | inl g ↦ elim (Bool-cases (is_match recognition_regex f.bytes)) [
              | inl p ↦ rw (more, g, p) (Kept-service (file_mode f) f.bytes d)
              | inr p ↦ rw (more, g, p) (Kept-first f d)
            ]
            | inr g ↦ rw (more, g) refl
          ]
        ]

  Kept-read :
      (f : PamFile) (d : Disk) (r : Result Text InstallError)
      → Kept d (elim r [ err e ↦ (err e, d) | ok _ ↦ install_body is_match utf8 io opts S B f d ])
  Kept-read f d (ok _) = Kept-body f d
  Kept-read f d (err e) = refl

  Kept-file : (o : Option PamFile) (d : Disk) → Kept d (install_file is_match utf8 io opts S B o d)
  unfolding install_file
  Kept-file none d = refl
  Kept-file (some f) d = Kept-read f d (read_utf8 is_match utf8 io S f)

  Kept-install : (d : Disk) → Kept d (install is_match utf8 io opts d)
  unfolding install
  Kept-install d = Kept-file (get S d) d

  -- Whichever call fails, an `install` that returns an error leaves the service file as it was.
  pub install-kept :
      (d t : Disk) (e : InstallError)
      → install is_match utf8 io opts d ≡ (err e, t)
      → get S t ≡ get S d
  install-kept d t e h = subst (Kept d) h (Kept-install d)
