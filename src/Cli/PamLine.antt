-- ===== src/Cli/PamLine.antt =====
-- crates/syauth-cli/src/install_pam.rs and uninstall_pam.rs: the line of the PAM module in a service
-- file, with its backup. The regular expressions are matched by a parameter, and the file system is
-- the files of the PAM directory by their paths.
pub mod Lines
pub mod Disk
pub mod Again
pub mod Restore
pub mod Faults
pub mod Unseen
use syauth.Base.{
  Bool, true, false, not, ◌&&◌, ◌||◌, ◌%◌, ◌^◌, Text, text, List, [], ◌∷◌, ◌++◌, Option, none, some,
  is_some, ℕ, starts_with, strip_prefix, strip_space, trim_start, has_substring, split_inclusive,
  if◌then◌else◌,
}

abbrev pub backup_suffix : Text
backup_suffix = text ".bak"

abbrev pub default_so_name : Text
default_so_name = text "pam_syauth.so"

abbrev pub default_module_args : Text
default_module_args = text "timeout=8000"

abbrev pub default_control_flag : Text
default_control_flag = text "sufficient"

abbrev pub u2f_fallback_line : Text
u2f_fallback_line = text "auth    sufficient    pam_u2f.so cue"

abbrev pub module_type : Text
module_type = text "auth"

abbrev pub field_separator : Text
field_separator = text "    "

-- The two patterns of the source, under the names of their constants.
pub data Pattern : Type 0 where
  recognition_regex u2f_recognition_regex : Pattern

-- `Regex::is_match`
abbrev pub IsMatch : Type 0
IsMatch = Pattern → Text → Bool

unfoldable pub is_auth_directive : Text → Bool
is_auth_directive line = elim (strip_prefix (text "auth") (trim_start line)) [
  | none ↦ false
  | some after ↦ is_some (strip_space after)
]

pub record InstallOpts : Type 0 where
  pub service : Text
  pub pam_dir : Text
  pub module_args : Text
  pub so_path : Text
  pub control : Text
  pub with_u2f_fallback : Bool

abbrev pub with_newline : Text → Text
with_newline line = line ++ text "\n"

unfoldable pub build_line : InstallOpts → Text
build_line opts =
    module_type
    ++ (field_separator
        ++ (opts.control ++ (field_separator ++ (opts.so_path ++ (text " " ++ opts.module_args)))))

-- The loop of `insert_line` over the lines, with its flag: whether the line was inserted, and the text.
abbrev pub insert_from : Bool → Text → List Text → Bool × Text
insert_from inserted new_line [] = (inserted, [])
insert_from inserted new_line (l ∷ ls) =
    let here = not inserted && is_auth_directive l in
    let rest = insert_from (inserted || here) new_line ls in
    (rest.0, if here then with_newline new_line ++ (l ++ rest.1) else l ++ rest.1)

unfoldable pub insert_line : Text → Text → Text
unfolding is_auth_directive
insert_line original new_line =
    let (inserted, out) = insert_from false new_line (split_inclusive original) in
    if inserted then out else with_newline new_line ++ original

abbrev pub u2f_from : Bool → List Text → Text
u2f_from inserted [] = []
u2f_from inserted (l ∷ ls) =
    let here = not inserted && has_substring default_so_name l in
    let rest = u2f_from (inserted || here) ls in
    l ++ (if here then with_newline u2f_fallback_line ++ rest else rest)

unfoldable pub maybe_insert_u2f_fallback : IsMatch → Text → Bool → Text
maybe_insert_u2f_fallback is_match body enabled =
    if not enabled
    then body
    else if is_match u2f_recognition_regex body
    then body
    else u2f_from false (split_inclusive body)
