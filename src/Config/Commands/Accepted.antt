-- ===== src/Config/Commands/Accepted.antt =====
-- ParseCommand of config.go: what it has checked of a command that it gives.
use robine_ci.Prelude.{
  ◌≡◌, refl, Bool, true, false, not, ◌||◌, ◌&&◌, Option, none, some, List, [], ◌∷◌, if◌then◌else◌,
  ◌⊎◌, inl, inr,
}
use robine_ci.Prelude.Bytes.{Bytes, codes, bytes_eq}
use robine_ci.Prelude.Checks.{or_false, passed}
use robine_ci.Offer.{is_empty}
use robine_ci.Archive.{is_rooted}
use robine_ci.Config.{Url, Error, usage, validate_server_url, validate_executor_options}
use robine_ci.Config.Valid.{or_then-none}
use robine_ci.Config.Commands.{
  FlagKind, Flags, EnrollOptions, InstallOptions, version, enroll, start, install, Parsed, parsed,
  refused, enroll_options, install_options, enroll_flags, start_flags, install_flags, otherwise,
  absolute_or_empty, checked, enroll_error, enroll_checked, parse_enroll, start_at, parse_start,
  install_checked, parse_install, parse_command,
}

-- The options of an enrollment with a token.
pub record IsEnrollable (parse_url : Bytes → Option Url) (token : Bytes) (o : EnrollOptions)
    : Type 0 where
  pub server : validate_server_url parse_url o.server_url ≡ none
  pub executor :
      validate_executor_options o.executor o.resource_namespace o.cpu_millis o.memory_bytes
        o.pids_limit
      ≡ none
  pub named : is_empty o.name ≡ false
  pub uses : o.enrollment_token ≡ token
  pub given : is_empty token ≡ false

abbrev pub IsInstallable : (Bytes → Option Url) → InstallOptions → Type 0
IsInstallable parse_url o =
    ((o.config_explicit ≡ false) ⊎ (is_rooted o.config_path ≡ true))
    × ((is_empty o.expected_server_url ≡ true)
        ⊎ (validate_server_url parse_url o.expected_server_url ≡ none))

-- What holds of a command, by the token before and after.
abbrev pub IsChecked : (Bytes → Option Url) → Bytes → Bytes → Parsed → Type 0
IsChecked parse_url token left (refused error) = Unit
IsChecked parse_url token left (parsed version) = Unit
IsChecked parse_url token left (parsed (start path)) = Unit
IsChecked parse_url token left (parsed (enroll o)) = IsEnrollable parse_url token o × (left ≡ [])
IsChecked parse_url token left (parsed (install o)) = IsInstallable parse_url o

either : {A : Type 0} (P : A → Type 0) (b : Bool) (x y : A) → P x → P y → P (if b then x else y)
either P true x y px py = px
either P false x y px py = py

either_knowing :
    {A : Type 0} (P : A → Type 0) (b : Bool) (x y : A)
    → P x
    → (b ≡ false → P y)
    → P (if b then x else y)
either_knowing P true x y px py = px
either_knowing P false x y px py = py refl

rooted_of : (e c r : Bool) → e && (c || not r) ≡ false → (e ≡ false) ⊎ (r ≡ true)
rooted_of false c r h = inl refl
rooted_of true c true h = inr refl
rooted_of true true false h = cc
rooted_of true false false h = cc

module _ (parse_url : Bytes → Option Url)
    (parse_flags : List (Bytes × FlagKind) → List Bytes → Option Flags) (cwd : Option Bytes)
    (linux : Bool) where
  enroll_error-IsEnrollable :
      (o : EnrollOptions)
      → enroll_error parse_url parse_flags cwd linux o ≡ none
      → IsEnrollable parse_url o.enrollment_token o
  unfolding enroll_error
  enroll_error-IsEnrollable o e =
      let (filled, e1) =
        passed
          (is_empty o.server_url
            || is_empty o.name
            || is_empty o.config_path
            || is_empty o.enrollment_token)
          _ _ e in
      let (l3, token) =
        or_false (is_empty o.server_url || is_empty o.name || is_empty o.config_path) _ filled in
      let (l2, _) = or_false (is_empty o.server_url || is_empty o.name) _ l3 in
      let (_, name) = or_false (is_empty o.server_url) _ l2 in
      let (server, executor) =
        or_then-none parse_url (validate_server_url parse_url o.server_url) _ e1 in
      record { server = server; executor = executor; named = name; uses = refl; given = token }

  enroll_checked-IsChecked :
      (o : EnrollOptions)
      → IsChecked parse_url o.enrollment_token [] (enroll_checked parse_url parse_flags cwd linux o)
  unfolding enroll_checked
  enroll_checked-IsChecked o = go (enroll_error parse_url parse_flags cwd linux o) refl
    where
      go :
          (e : Option Error)
          → enroll_error parse_url parse_flags cwd linux o ≡ e
          → IsChecked parse_url o.enrollment_token []
              (checked e (enroll (record o { config_path = absolute_or_empty cwd o.config_path })))
      go (some error) same = unfold checked in tt
      go none same =
          unfold checked in
          let ok = enroll_error-IsEnrollable o same in
          (
            record {
              server = ok.server;
              executor = ok.executor;
              named = ok.named;
              uses = refl;
              given = ok.given;
            },
            refl,
          )

  parse_enroll-IsChecked :
      (flags : Option Flags) (token : Bytes)
      → IsChecked parse_url token
          (parse_enroll parse_url parse_flags cwd linux flags token).1
          (parse_enroll parse_url parse_flags cwd linux flags token).0
  unfolding parse_enroll enroll_options
  parse_enroll-IsChecked none token = tt
  parse_enroll-IsChecked (some flags) token =
      either {A = Parsed × Bytes} (λ r. IsChecked parse_url token r.1 r.0)
        (not (is_empty flags.rest)) _ _ tt
        (enroll_checked-IsChecked (enroll_options linux flags token))

  parse_start-IsChecked :
      (flags : Option Flags) (token : Bytes)
      → IsChecked parse_url token token (parse_start parse_url parse_flags cwd linux flags)
  unfolding parse_start start_at
  parse_start-IsChecked none token = tt
  parse_start-IsChecked (some flags) token = started (otherwise (flags.texts (codes "config")) [])
    where
      started :
          (path : Bytes)
          → IsChecked parse_url token token
              (start_at parse_url parse_flags cwd linux path flags.rest)
      started path =
          either (IsChecked parse_url token token) (not (is_empty flags.rest) || is_empty path)
            (refused usage) (parsed (start (absolute_or_empty cwd path))) tt tt

  install_checked-IsChecked :
      (o : InstallOptions) (token : Bytes)
      → IsChecked parse_url token token (install_checked parse_url parse_flags cwd linux o)
  unfolding install_checked
  install_checked-IsChecked o token =
      either_knowing (IsChecked parse_url token token) _ _ _ tt (λ explicit.
        let rooted =
          rooted_of o.config_explicit (is_empty o.config_path) (is_rooted o.config_path) explicit in
        unset rooted (is_empty o.expected_server_url) refl)
    where
      found :
          (o.config_explicit ≡ false) ⊎ (is_rooted o.config_path ≡ true)
          → (e : Option Error) → validate_server_url parse_url o.expected_server_url ≡ e
          → IsChecked parse_url token token (checked e (install o))
      found rooted (some error) same = unfold checked in tt
      found rooted none same = unfold checked in (rooted, inr same)

      unset :
          (o.config_explicit ≡ false) ⊎ (is_rooted o.config_path ≡ true)
          → (b : Bool) → is_empty o.expected_server_url ≡ b
          → IsChecked parse_url token token (
              if b
              then parsed (install o)
              else checked (validate_server_url parse_url o.expected_server_url) (install o))
      unset rooted true same = (rooted, inl same)
      unset rooted false same = found rooted _ refl

  parse_install-IsChecked :
      (flags : Option Flags) (token : Bytes)
      → IsChecked parse_url token token (parse_install parse_url parse_flags cwd linux flags)
  unfolding parse_install install_options
  parse_install-IsChecked none token = tt
  parse_install-IsChecked (some flags) token =
      either (IsChecked parse_url token token) (not (is_empty flags.rest)) _ _ tt
        (install_checked-IsChecked (install_options flags) token)

  -- Whatever the arguments are, a command that ParseCommand gives is checked: an enrollment has a name,
  -- a valid server URL, valid options of the executor and the token of the environment, which is not
  -- empty and is unset; an installation has an absolute path of the configuration where one is given,
  -- and a valid server URL where one is given.
  pub parse_command-IsChecked :
      (args : List Bytes) (token : Bytes)
      → IsChecked parse_url token
          (parse_command parse_url parse_flags cwd linux args token).1
          (parse_command parse_url parse_flags cwd linux args token).0
  unfolding parse_command
  parse_command-IsChecked [] token = tt
  parse_command-IsChecked (word ∷ args) token =
      let P : Parsed × Bytes → Type 0 = λ r. IsChecked parse_url token r.1 r.0 in
      either P (bytes_eq word (codes "version") || bytes_eq word (codes "--version")) _ _
        (either (IsChecked parse_url token token) (is_empty args) _ _ tt tt)
        (either P (bytes_eq word (codes "enroll")) _ _
          (parse_enroll-IsChecked (parse_flags enroll_flags args) token)
          (either P (bytes_eq word (codes "start")) _ _
            (parse_start-IsChecked (parse_flags start_flags args) token)
            (either P (bytes_eq word (codes "install")) _ _
              (parse_install-IsChecked (parse_flags install_flags args) token) tt)))
