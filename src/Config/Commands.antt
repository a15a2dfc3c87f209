-- ===== src/Config/Commands.antt =====
-- ParseCommand of config.go. The package flag is the argument `parse_flags`: of the flags that a
-- command declares and its arguments it gives what was set and what is left, or nothing after an
-- error. The state is the variable ROBINE_RUNNER_ENROLLMENT_TOKEN; `cwd` is the working directory, if there
-- is one, and `linux` is `runtime.GOOS == "linux"`.
pub mod Accepted
use robine_ci.Prelude.{
  Bool, true, false, not, ◌||◌, ◌&&◌, Option, none, some, List, [], ◌∷◌, if◌then◌else◌,
}
use robine_ci.Prelude.Bytes.{Bytes, codes, bytes_eq}
use robine_ci.Prelude.Int.{ℤ, pos}
use robine_ci.Offer.{is_empty}
use robine_ci.Run.{Run, pure}
use robine_ci.Archive.{absolute, is_rooted}
use robine_ci.Config.{
  Url, Error, usage, missing_enroll_values, relative_config_path, validate_server_url,
  validate_executor_options, or_then,
}

pub data FlagKind : Type 0 where
  text boolean int64 : FlagKind

-- The flags that were set, and the arguments that are none.
pub record Flags : Type 0 where
  pub texts : Bytes → Option Bytes
  pub booleans : Bytes → Option Bool
  pub integers : Bytes → Option ℤ
  pub rest : List Bytes

pub record EnrollOptions : Type 0 where
  pub server_url : Bytes
  pub name : Bytes
  pub config_path : Bytes
  pub enrollment_token : Bytes
  pub force : Bool
  pub executor : Bytes
  pub resource_namespace : Bytes
  pub cpu_millis : ℤ
  pub memory_bytes : ℤ
  pub pids_limit : ℤ

pub record InstallOptions : Type 0 where
  pub config_path : Bytes
  pub config_explicit : Bool
  pub expected_server_url : Bytes

pub data Command : Type 0 where
  version : Command
  enroll : EnrollOptions → Command
  start : Bytes → Command
  install : InstallOptions → Command

pub data Parsed : Type 0 where
  parsed : Command → Parsed
  refused : Error → Parsed

abbrev pub otherwise : {A : Type 0} → Option A → A → A
otherwise none default = default
otherwise (some value) default = value

-- `path, _ = filepath.Abs(path)`
abbrev pub absolute_or_empty : Option Bytes → Bytes → Bytes
absolute_or_empty cwd path = otherwise (absolute cwd path) []

abbrev pub enroll_flags : List (Bytes × FlagKind)
enroll_flags =
    (codes "server", text)
    ∷ (codes "name", text)
    ∷ (codes "config", text)
    ∷ (codes "force", boolean)
    ∷ (codes "executor", text)
    ∷ (codes "resource-namespace", text)
    ∷ (codes "cpu-millis", int64)
    ∷ (codes "memory-bytes", int64)
    ∷ (codes "pids-limit", int64)
    ∷ []

abbrev pub start_flags : List (Bytes × FlagKind)
start_flags = (codes "config", text) ∷ []

abbrev pub install_flags : List (Bytes × FlagKind)
install_flags = (codes "config", text) ∷ (codes "server", text) ∷ []

unfoldable pub default_executor : Bool → Bytes
default_executor linux = if linux then codes "docker" else codes "native"

-- The options of the flags and the token.
enroll_options : Bool → Flags → Bytes → EnrollOptions
unfolding default_executor
enroll_options linux flags token = record {
  server_url = otherwise (flags.texts (codes "server")) [];
  name = otherwise (flags.texts (codes "name")) [];
  config_path = otherwise (flags.texts (codes "config")) [];
  enrollment_token = token;
  force = otherwise (flags.booleans (codes "force")) false;
  executor = otherwise (flags.texts (codes "executor")) (default_executor linux);
  resource_namespace = otherwise (flags.texts (codes "resource-namespace")) (codes "robine");
  cpu_millis = otherwise (flags.integers (codes "cpu-millis")) (pos 2_000);
  memory_bytes = otherwise (flags.integers (codes "memory-bytes")) (pos 4_294_967_296);
  pids_limit = otherwise (flags.integers (codes "pids-limit")) (pos 512);
}

install_options : Flags → InstallOptions
install_options flags = record {
  config_path = otherwise (flags.texts (codes "config")) [];
  config_explicit = elim (flags.texts (codes "config")) [ none ↦ false | some path ↦ true ];
  expected_server_url = otherwise (flags.texts (codes "server")) [];
}

-- An error, or the command.
checked : Option Error → Command → Parsed
checked (some error) command = refused error
checked none command = parsed command

module _ (parse_url : Bytes → Option Url)
    (parse_flags : List (Bytes × FlagKind) → List Bytes → Option Flags) (cwd : Option Bytes)
    (linux : Bool) where
  enroll_error : EnrollOptions → Option Error
  enroll_error o =
      if is_empty o.server_url
        || is_empty o.name
        || is_empty o.config_path
        || is_empty o.enrollment_token
      then some missing_enroll_values
      else or_then parse_url (validate_server_url parse_url o.server_url) (
          validate_executor_options o.executor o.resource_namespace o.cpu_millis o.memory_bytes
            o.pids_limit)

  enroll_checked : EnrollOptions → Parsed
  unfolding enroll_error checked
  enroll_checked o =
      checked (enroll_error o)
        (enroll (record o { config_path = absolute_or_empty cwd o.config_path }))

  -- The variable with the token is read and unset once the flags are parsed.
  parse_enroll : Option Flags → Run Bytes Parsed
  unfolding enroll_checked enroll_options
  parse_enroll none token = (refused usage, token)
  parse_enroll (some flags) token =
      if not (is_empty flags.rest)
      then (refused usage, token)
      else (enroll_checked (enroll_options linux flags token), [])

  start_at : Bytes → List Bytes → Parsed
  start_at path rest =
      if not (is_empty rest) || is_empty path
      then refused usage
      else parsed (start (absolute_or_empty cwd path))

  parse_start : Option Flags → Parsed
  unfolding start_at
  parse_start none = refused usage
  parse_start (some flags) = start_at (otherwise (flags.texts (codes "config")) []) flags.rest

  install_checked : InstallOptions → Parsed
  unfolding checked
  install_checked o =
      if o.config_explicit && (is_empty o.config_path || not (is_rooted o.config_path))
      then refused relative_config_path
      else if is_empty o.expected_server_url
      then parsed (install o)
      else checked (validate_server_url parse_url o.expected_server_url) (install o)

  parse_install : Option Flags → Parsed
  unfolding install_checked install_options
  parse_install none = refused usage
  parse_install (some flags) =
      if not (is_empty flags.rest) then refused usage else install_checked (install_options flags)

  unfoldable pub parse_command : List Bytes → Run Bytes Parsed
  unfolding parse_enroll parse_start parse_install
  parse_command [] token = (refused usage, token)
  parse_command (word ∷ args) token =
      if bytes_eq word (codes "version") || bytes_eq word (codes "--version")
      then ((if is_empty args then parsed version else refused usage), token)
      else if bytes_eq word (codes "enroll")
      then parse_enroll (parse_flags enroll_flags args) token
      else if bytes_eq word (codes "start")
      then (parse_start (parse_flags start_flags args), token)
      else if bytes_eq word (codes "install")
      then (parse_install (parse_flags install_flags args), token)
      else (refused usage, token)
