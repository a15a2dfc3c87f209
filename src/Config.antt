-- ===== src/Config.antt =====
-- runner-go/internal/config/config.go: the runner's configuration, its defaults and what makes it
-- valid. url.Parse is the argument `parse_url`; the environment variable with the limit of transfers
-- is an argument where it is read.
pub mod Commands
pub mod Files
pub mod Valid
use robine_ci.Prelude.{
  ℕ, ◌+◌, ◌*◌, ◌≡◌, Bool, true, false, not, ◌||◌, ◌&&◌, Option, none, some, List, [], ◌∷◌, ◌++◌,
  ltb, leb, length, ◌==◌, if◌then◌else◌,
}
use robine_ci.Prelude.Bytes.{Bytes, codes, bytes_eq}
use robine_ci.Prelude.Int.{ℤ, pos, negsuc}
use robine_ci.Offer.{is_empty}
use robine_ci.Strings.{trim_space, parse_int}

pub record Config : Type 0 where
  pub server_url : Bytes
  pub runner_id : Bytes
  pub credential : Bytes
  pub name : Bytes
  pub executor : Bytes
  pub resource_namespace : Bytes
  pub cpu_millis : ℤ
  pub memory_bytes : ℤ
  pub pids_limit : ℤ

-- What url.Parse gives of a URL, as far as the code reads it.
pub record Url : Type 0 where
  pub scheme : Bytes
  pub host : Bytes
  pub hostname : Bytes
  pub has_user : Bool
  pub raw_query : Bytes
  pub fragment : Bytes

-- The errors of the package, by their texts.
pub data Error : Type 0 where
  usage missing_enroll_values invalid_url tls_required relative_config_path missing_values : Error
  invalid_executor invalid_namespace invalid_limits invalid_transfer_limit : Error
  stat_failed not_private read_failed invalid_json exists inspect_failed : Error
  directory_failed temporary_failed chmod_failed write_failed sync_failed close_failed : Error
  rename_failed : Error

-- `a < b` for an int64 and a number.
unfoldable pub below : ℤ → ℕ → Bool
below (pos a) b = ltb a b
below (negsuc a) b = true

unfoldable pub above : ℤ → ℕ → Bool
above (pos a) b = ltb b a
above (negsuc a) b = false

unfoldable pub is_zero : ℤ → Bool
is_zero (pos n) = n == 0
is_zero (negsuc n) = false

abbrev pub or_default : Bytes → Bytes → Bytes
or_default value default = if is_empty value then default else value

unfoldable pub executor_of : Config → Bytes
executor_of cfg = or_default cfg.executor (codes "native")

unfoldable pub namespace_of : Config → Bytes
namespace_of cfg = or_default cfg.resource_namespace (codes "robine")

unfoldable pub cpu_millis_of : Config → ℤ
unfolding is_zero
cpu_millis_of cfg = if is_zero cfg.cpu_millis then pos 2_000 else cfg.cpu_millis

unfoldable pub memory_bytes_of : Config → ℤ
unfolding is_zero
memory_bytes_of cfg = if is_zero cfg.memory_bytes then pos 4_294_967_296 else cfg.memory_bytes

unfoldable pub pids_limit_of : Config → ℤ
unfolding is_zero
pids_limit_of cfg = if is_zero cfg.pids_limit then pos 512 else cfg.pids_limit

abbrev pub default_transfer_limit : ℕ
default_transfer_limit = 256 * 1024 * 1024

abbrev pub maximum_transfer_limit : ℕ
maximum_transfer_limit = 1_000_000_000

within_limit : Option ℤ → ℤ × Option Error
within_limit none = (pos default_transfer_limit, some invalid_transfer_limit)
within_limit (some value) =
    if below value 1 || above value maximum_transfer_limit
    then (pos default_transfer_limit, some invalid_transfer_limit)
    else (value, none)

-- transferMaxArchiveBytes, of the variable's value: the limit, and the error.
unfoldable pub transfer_max_archive_bytes : Bytes → ℤ × Option Error
unfolding within_limit below above parse_int
transfer_max_archive_bytes raw =
    if is_empty raw then (pos default_transfer_limit, none) else within_limit (parse_int raw)

-- strings.ContainsAny of the characters that a namespace must not have.
unfoldable pub has_separator : Bytes → Bool
has_separator [] = false
has_separator (c ∷ s) =
    c == 32 || c == 47 || c == 92 || c == 9 || c == 13 || c == 10 || has_separator s

-- The error, or none.
unfoldable pub validate_executor_options : Bytes → Bytes → ℤ → ℤ → ℤ → Option Error
unfolding has_separator below above
validate_executor_options executor namespace cpu_millis memory_bytes pids_limit =
    if not (bytes_eq executor (codes "native")) && not (bytes_eq executor (codes "docker"))
    then some invalid_executor
    else if is_empty namespace || ltb 80 (length namespace) || has_separator namespace
    then some invalid_namespace
    else if below cpu_millis 100
        || above cpu_millis 256_000
        || below memory_bytes (64 * 1024 * 1024)
        || above memory_bytes (1024 * 1024 * 1024 * 1024)
        || below pids_limit 16
        || above pids_limit 1_000_000
    then some invalid_limits
    else none

is_loopback : Bytes → Bool
is_loopback hostname =
    bytes_eq hostname (codes "localhost")
    || bytes_eq hostname (codes "127.0.0.1")
    || bytes_eq hostname (codes "::1")

check_url : Option Url → Option Error
check_url none = some invalid_url
check_url (some u) =
    if is_empty u.hostname || u.has_user || not (is_empty u.raw_query) || not (is_empty u.fragment)
    then some invalid_url
    else if bytes_eq u.scheme (codes "https")
    then none
    else if bytes_eq u.scheme (codes "http") && is_loopback u.hostname
    then none
    else some tls_required

module _ (parse_url : Bytes → Option Url) where
  unfoldable pub validate_server_url : Bytes → Option Error
  unfolding check_url is_loopback
  validate_server_url raw = check_url (parse_url raw)

  -- The first error of two checks.
  abbrev pub or_then : Option Error → Option Error → Option Error
  or_then (some e) later = some e
  or_then none later = later

  -- The variable ROBINE_TRANSFER_MAX_ARCHIVE_BYTES and the configuration.
  unfoldable pub validate : Bytes → Config → Option Error
  unfolding validate_server_url validate_executor_options transfer_max_archive_bytes executor_of
      namespace_of cpu_millis_of memory_bytes_of pids_limit_of
  validate variable cfg =
      if is_empty (trim_space cfg.runner_id)
        || is_empty (trim_space cfg.credential)
        || is_empty (trim_space cfg.name)
      then some missing_values
      else or_then (validate_server_url cfg.server_url) (
          or_then (transfer_max_archive_bytes variable).1 (
            validate_executor_options (executor_of cfg) (namespace_of cfg) (cpu_millis_of cfg)
              (memory_bytes_of cfg) (pids_limit_of cfg)))
