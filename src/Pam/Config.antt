-- ===== src/Pam/Config.antt =====
-- crates/syauth-pam/src/config.rs: the module's arguments and paths. A path is its text; `join` puts a
-- slash between, which is what it does for a base without a final slash and a relative name.
use syauth.Base.{
  ℕ, Text, text, List, [], ◌∷◌, ◌++◌, Option, none, some, ◌==◌, length, if◌then◌else◌,
}
use syauth.Presence.Audit.{decimal}

abbrev pub default_bond_dir : Text
default_bond_dir = text "/var/lib/syauth"

abbrev pub default_auth_timeout : ℕ
default_auth_timeout = 8000

abbrev pub last_log_filename : Text
last_log_filename = text "last.log"

abbrev pub default_runtime_fallback_prefix : Text
default_runtime_fallback_prefix = text "/run/user/"

abbrev pub runtime_subdir : Text
runtime_subdir = text "syauth"

abbrev pub default_socket_basename : Text
default_socket_basename = text "auth.sock"

abbrev pub pam_socket_arg_prefix : Text
pam_socket_arg_prefix = text "socket="

pub record Config : Type 0 where
  pub bond_dir : Text
  pub socket_path : Text
  pub auth_timeout : ℕ

abbrev pub join : Text → Text → Text
join base name = base ++ (text "/" ++ name)

-- `str::strip_prefix`
abbrev pub strip_prefix : Text → Text → Option Text
strip_prefix [] s = some s
strip_prefix (c ∷ cs) [] = none
strip_prefix (c ∷ cs) (d ∷ s) = let rest = strip_prefix cs s in if c == d then rest else none

abbrev pub find_map {ℓ κ} : {A : Type ℓ} {B : Type κ} → (A → Option B) → List A → Option B
find_map f [] = none
find_map f (x ∷ xs) = elim (f x) [ some b ↦ some b | none ↦ find_map f xs ]

abbrev pub runtime_path : Text → Text
runtime_path dir = join (join dir runtime_subdir) default_socket_basename

abbrev pub fallback_path : ℕ → Text
fallback_path euid = runtime_path (default_runtime_fallback_prefix ++ decimal euid)

abbrev pub from_env : ℕ → Option Text → Text
from_env euid none = fallback_path euid
from_env euid (some dir) = if length dir == 0 then fallback_path euid else runtime_path dir

-- by the environment variable `XDG_RUNTIME_DIR` and the effective user id
unfoldable pub resolve_socket_path : Option Text → ℕ → Option Text → Text
resolve_socket_path xdg euid (some path) = path
resolve_socket_path xdg euid none = from_env euid xdg

unfoldable pub from_pam_argv : Option Text → ℕ → List Text → Config
unfolding resolve_socket_path
from_pam_argv xdg euid argv = record {
  bond_dir = default_bond_dir;
  socket_path = resolve_socket_path xdg euid (find_map (strip_prefix pam_socket_arg_prefix) argv);
  auth_timeout = default_auth_timeout;
}

abbrev pub last_log_path : Config → Text
last_log_path cfg = join cfg.bond_dir last_log_filename

abbrev pub bonds_file_path : Config → Text
bonds_file_path cfg = join cfg.bond_dir (text "bonds.toml")
