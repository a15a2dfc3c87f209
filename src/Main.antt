-- ===== src/Main.antt =====
-- runner-go/cmd/robine-runner/main.go: `run`, from the arguments to what is done. The runner that a start
-- leads to, and the installation, are results here.
pub mod Settled
use robine_ci.Prelude.{Bool, Option, none, some, List, ◌⊎◌, inl, inr}
use robine_ci.Prelude.Bytes.{Bytes}
use robine_ci.Run.{Run}
use robine_ci.Config.{Config, Url, Error}
use robine_ci.Config.Files.{Disk, Loaded, loaded, failure, load, write_config}
use robine_ci.Config.Commands.{
  FlagKind, Flags, EnrollOptions, InstallOptions, Command, version, enroll, start, install, Parsed,
  parsed, refused, parse_command,
}
use robine_ci.Transfer.{Http, Failure}

pub data Outcome : Type 0 where
  config_failed : Error → Outcome
  enrollment_failed : Failure → Outcome
  version_printed : Outcome
  enrolled : Bytes → Config → Outcome
  runs : Config → Outcome
  installs : InstallOptions → Outcome

module _ (parse_url : Bytes → Option Url)
    (parse_flags : List (Bytes × FlagKind) → List Bytes → Option Flags) (cwd : Option Bytes)
    (linux : Bool) (variable : Bytes) (http : Http) (disk : Disk) (encode : Config → Bytes)
    (decode : Bytes → Option Config) (unix : Bool) where
  -- The variable with the enrollment token, the server and the disk.
  abbrev pub World : Type 0
  World = Bytes × http.World × disk.World

  after_write : Bytes → Config → Option Error → Outcome
  after_write path cfg none = enrolled path cfg
  after_write path cfg (some error) = config_failed error

  after_enroll : EnrollOptions → Config ⊎ Failure → Run disk.World Outcome
  unfolding after_write
  after_enroll o (inr error) d = (enrollment_failed error, d)
  after_enroll o (inl cfg) d =
      let (error, d') = write_config parse_url variable disk encode o.config_path cfg o.force d in
      (after_write o.config_path cfg error, d')

  after_load : Loaded → Outcome
  after_load (failure error) = config_failed error
  after_load (loaded cfg) = runs cfg

  run_parsed : Parsed → Run World Outcome
  unfolding after_enroll after_load
  run_parsed (refused error) w = (config_failed error, w)
  run_parsed (parsed version) w = (version_printed, w)
  run_parsed (parsed (enroll o)) (token, h, d) =
      let (answer, h') = robine_ci.Transfer.enroll http o h in
      let (outcome, d') = after_enroll o answer d in (outcome, (token, h', d'))
  run_parsed (parsed (start path)) (token, h, d) =
      let (read, d') = load parse_url variable disk decode unix path d in
      (after_load read, (token, h, d'))
  run_parsed (parsed (install o)) w = (installs o, w)

  pub run : List Bytes → Run World Outcome
  unfolding run_parsed
  run args (token, h, d) =
      let (command, token') = parse_command parse_url parse_flags cwd linux args token in
      run_parsed command (token', h, d)
