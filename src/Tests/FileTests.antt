-- ===== src/Tests/FileTests.antt =====
-- The edits of the PAM service file (crates/syauth-cli) at concrete inputs.
use syauth.Base.{
  List, any, ◌||◌, is_some, Bool-cases, split_inclusive-append, sym, ap, ◌∙◌, true, false, Bool,
  Text, text, [], ◌∷◌, ◌++◌, get, bytes_eq, none, some, ok, err, strip_prefix, strip_space,
  trim_start, has_substring, split_inclusive, IsWord, ◌≡◌, refl, arith, inl, inr,
}
use syauth.Cli.PamLine.{
  default_so_name, default_module_args, default_control_flag, IsMatch, InstallOpts, with_newline,
  is_auth_directive, insert_line,
}
use syauth.Cli.PamLine.Disk.{
  PamFile, Disk, Calls, io_error, backup_exists, already_installed, installed, not_installed,
  restored, service_path, backup_path, take_backup, atomic_write, write_service, first_install,
  install_body, install_file, install, uninstall,
}
use syauth.Cli.PamLine.Again.{
  Works, Recognises, InsertsText, service, backup, Fresh, install-install,
}
use syauth.Cli.PamLine.Restore.{uninstall-install}
use syauth.Cli.PamLine.Faults.{install-kept}
use syauth.Cli.PamLine.Unseen.{
  bracketed_control, bracketed_line, Overlooks, uninstall-install_unseen,
}

-- A matcher that looks for the module's name.
abbrev by_name : IsMatch
by_name pattern body = has_substring default_so_name body

has-append :
    (a t : Text)
    → has_substring default_so_name t ≡ true
    → has_substring default_so_name (a ++ t) ≡ true
unfolding has_substring
has-append [] t h = h
has-append (c ∷ a) t h = ground (arith, has-append a t h)

has_name : (t : Text) → has_substring default_so_name (default_so_name ++ t) ≡ true
unfolding has_substring strip_prefix
has_name t = refl

by_name-Recognises : Recognises by_name
by_name-Recognises before control rest b w = has-append before _ (
    has-append (text "auth") _ (
      has-append (text "    ") _
        (has-append control _ (has-append (text "    ") _ (has_name (text " " ++ rest))))))

abbrev any_text : Text → Bool
any_text t = true

any_text-InsertsText : InsertsText any_text
any_text-InsertsText before line rest b h k = refl

abbrev sudo : InstallOpts
sudo = record {
  service = text "sudo";
  pam_dir = text "/p";
  module_args = default_module_args;
  so_path = default_so_name;
  control = default_control_flag;
  with_u2f_fallback = false;
}

abbrev calls : Calls
calls = record {
  read_service = true;
  stat_service = true;
  copied = none;
  chmod_backup = true;
  write_temp = true;
  persist = true;
  read_backup = true;
  remove_backup = true;
}

calls-Works : Works calls
calls-Works = record {
  read_service = refl;
  stat_service = refl;
  copied = refl;
  chmod_backup = refl;
  write_temp = refl;
  persist = refl;
  read_backup = refl;
  remove_backup = refl;
}

abbrev sudo_file : PamFile
sudo_file = record { bytes = text "#%PAM\nauth include system\n"; mode = 420 }

abbrev etc : Disk
etc = (text "/p/sudo", sudo_file) ∷ []

etc-Fresh : Fresh by_name any_text sudo sudo_file etc
unfolding service_path backup_path bytes_eq has_substring strip_prefix
etc-Fresh = record {
  here = refl;
  is_text = refl;
  unwired = refl;
  no_backup = refl;
  no_fallback = refl;
  module_name = refl;
  line_is_text = refl;
}

sudo-IsWord : IsWord sudo.control
sudo-IsWord = ((λ q. cc), refl)

install-install_example :
    install by_name any_text calls sudo (install by_name any_text calls sudo etc).1 ≡ (
      ok (already_installed (service by_name any_text sudo)),
      (install by_name any_text calls sudo etc).1,
    )
install-install_example =
    install-install by_name any_text sudo calls calls-Works sudo_file etc etc-Fresh calls refl
      sudo-IsWord by_name-Recognises any_text-InsertsText

uninstall-install_example :
    let (outcome, after) =
      uninstall by_name any_text calls
        (text "/p")
        (text "sudo")
        (install by_name any_text calls sudo etc).1 in
    (outcome ≡ ok (restored (service by_name any_text sudo) (backup by_name any_text sudo)))
    × (get (service by_name any_text sudo) after
        ≡ some (record { bytes = sudo_file.bytes; mode = 420 }))
    × (get (backup by_name any_text sudo) after ≡ none)
    × ((path : Text)
        → bytes_eq (service by_name any_text sudo) path ≡ false
        → bytes_eq (backup by_name any_text sudo) path ≡ false
        → get path after ≡ get path etc)
uninstall-install_example =
    uninstall-install by_name any_text sudo calls calls-Works sudo_file etc etc-Fresh calls
      calls-Works sudo-IsWord by_name-Recognises any_text-InsertsText

abbrev full_disk : Calls
full_disk = record calls { write_temp = false }

install_fails :
    install by_name any_text full_disk sudo etc
    ≡ (err (io_error (text "/p/sudo")), (install by_name any_text full_disk sudo etc).1)
unfolding install service_path backup_path bytes_eq has_substring strip_prefix take_backup
    atomic_write write_service first_install install_body install_file
install_fails = refl

install-kept_example :
    get (service by_name any_text sudo) (install by_name any_text full_disk sudo etc).1
    ≡ get (service by_name any_text sudo) etc
install-kept_example =
    install-kept by_name any_text full_disk sudo etc (install by_name any_text full_disk sudo etc).1
      (io_error (text "/p/sudo")) install_fails

-- A matcher that finds the lines that begin like that of the default options.
abbrev default_prefix : Text
default_prefix = text "auth    " ++ (default_control_flag ++ (text "    " ++ default_so_name))

abbrev begins : Text → Bool
begins line = is_some (strip_prefix default_prefix line)

abbrev by_line : IsMatch
by_line pattern body = any begins (split_inclusive body)

any-append : (xs ys : List Text) → any begins (xs ++ ys) ≡ (any begins xs || any begins ys)
any-append [] ys = refl
any-append (x ∷ xs) ys = elim (Bool-cases (begins x)) [
  | inl h ↦ rw h refl
  | inr h ↦ rw h (any-append xs ys)
]

unfound : any begins (split_inclusive (with_newline bracketed_line)) ≡ false
unfolding split_inclusive strip_prefix
unfound = refl

by_line-Overlooks : Overlooks by_line
by_line-Overlooks before rest b h =
    found (with_newline bracketed_line ++ rest)
    ∙ ap (λ (found_later : Bool). any begins (split_inclusive before) || found_later)
        (ap (any begins)
            (split_inclusive-append (with_newline bracketed_line) rest (inr (bracketed_line, refl)))
          ∙ any-append (split_inclusive (with_newline bracketed_line)) (split_inclusive rest)
          ∙ rw unfound refl)
    ∙ sym (found rest)
    ∙ h
  where
    found :
        (later : Text)
        → any begins (split_inclusive (before ++ later))
          ≡ (any begins (split_inclusive before) || any begins (split_inclusive later))
    found later =
        ap (any begins) (split_inclusive-append before later b)
        ∙ any-append (split_inclusive before) (split_inclusive later)

abbrev bracketed : InstallOpts
bracketed = record sudo { control = bracketed_control }

etc-Fresh-bracketed : Fresh by_line any_text bracketed sudo_file etc
unfolding service_path backup_path bytes_eq split_inclusive strip_prefix
etc-Fresh-bracketed = record {
  here = refl;
  is_text = refl;
  unwired = refl;
  no_backup = refl;
  no_fallback = refl;
  module_name = refl;
  line_is_text = refl;
}

uninstall-install_unseen_example :
    let (outcome, after) = install by_line any_text calls bracketed etc in
    (outcome
      ≡ ok (installed (service by_line any_text bracketed) (backup by_line any_text bracketed)))
    × (install by_line any_text calls bracketed after
        ≡ (err (backup_exists (backup by_line any_text bracketed)), after))
    × (uninstall by_line any_text calls (text "/p") (text "sudo") after
        ≡ (ok (not_installed (service by_line any_text bracketed)), after))
uninstall-install_unseen_example =
    uninstall-install_unseen by_line any_text bracketed calls calls-Works sudo_file etc
      etc-Fresh-bracketed calls refl refl by_line-Overlooks any_text-InsertsText refl refl

insert_line_run : insert_line sudo_file.bytes (text "x") ≡ text "#%PAM\nx\nauth include system\n"
unfolding insert_line is_auth_directive split_inclusive strip_prefix strip_space trim_start
insert_line_run = refl
