-- ===== src/Main/Settled.antt =====
-- `run` of main.go: what has been done when it reports success.
use robine_ci.Prelude.{
  ◌≡◌, refl, sym, ◌∙◌, Bool, true, Option, none, some, List, ◌⊎◌, inl, inr, Bool-cases,
}
use mathlib.Core.Bool.{false≢true}
use robine_ci.Prelude.Bytes.{Bytes}
use robine_ci.Config.{Config, Url, Error, validate}
use robine_ci.Config.Files.{File, Disk, Loaded, loaded, failure, write_config, directory_of}
use robine_ci.Config.Files.Atomic.{Settled, write_config-Settled, write_config-valid}
use robine_ci.Config.Files.Loading.{load-valid}
use robine_ci.Config.Commands.{
  FlagKind, Flags, EnrollOptions, version, enroll, start, install, Parsed, parsed, refused,
}
use robine_ci.Transfer.{Http, Failure}
use robine_ci.Main.{
  Outcome, config_failed, enrollment_failed, version_printed, enrolled, runs, installs, after_write,
  after_enroll, after_load, run_parsed, run,
}

module _ (parse_url : Bytes → Option Url)
    (parse_flags : List (Bytes × FlagKind) → List Bytes → Option Flags) (cwd : Option Bytes)
    (linux : Bool) (variable : Bytes) (http : Http) (disk : Disk) (encode : Config → Bytes)
    (decode : Bytes → Option Config) (unix : Bool) (is_temporary : Bytes → Bool)
    (named : (directory t : Bytes) (d : disk.World)
      → (disk.create_temp directory d).0 ≡ some t
      → is_temporary t ≡ true) where
  -- What holds of an outcome, by the disk that is left.
  abbrev pub IsDone : Outcome → disk.World → Type 0
  IsDone (enrolled path cfg) d =
      (is_temporary path ≡ true)
      ⊎ ((validate parse_url variable cfg ≡ none)
          × (disk.file path d ≡ some (record { mode = 384; body = encode cfg })))
  IsDone (runs cfg) d = validate parse_url variable cfg ≡ none
  IsDone (config_failed error) d = Unit
  IsDone (enrollment_failed error) d = Unit
  IsDone version_printed d = Unit
  IsDone (installs o) d = Unit

  some_ne_none : {e : Error} → some e ≡ none → ⊥
  some_ne_none h = cc

  after_write-IsDone :
      (path : Bytes) (cfg : Config) (old : Option File) (error : Option Error) (d : disk.World)
      → (error ≡ none → validate parse_url variable cfg ≡ none)
      → Settled old (record { mode = 384; body = encode cfg }) error (disk.file path d)
      → IsDone
          (after_write parse_url parse_flags cwd linux variable http disk encode decode unix path
            cfg error)
          d
  unfolding after_write
  after_write-IsDone path cfg old none d valid (inl (ok, now)) = inr (valid refl, now)
  after_write-IsDone path cfg old none d valid (inr (e, bad, now)) = absurd (some_ne_none (sym bad))
  after_write-IsDone path cfg old (some error) d valid settled = tt

  temporary-IsDone :
      (path : Bytes) (cfg : Config) (error : Option Error) (d : disk.World)
      → is_temporary path ≡ true
      → IsDone
          (after_write parse_url parse_flags cwd linux variable http disk encode decode unix path
            cfg error)
          d
  unfolding after_write
  temporary-IsDone path cfg none d e = inl e
  temporary-IsDone path cfg (some error) d e = tt

  after_enroll-IsDone :
      (o : EnrollOptions) (answer : Config ⊎ Failure) (d : disk.World)
      → IsDone
          (after_enroll parse_url parse_flags cwd linux variable http disk encode decode unix o
            answer d).0
          (after_enroll parse_url parse_flags cwd linux variable http disk encode decode unix o
            answer d).1
  unfolding after_enroll
  after_enroll-IsDone o (inr error) d = tt
  after_enroll-IsDone o (inl cfg) d = elim (Bool-cases (is_temporary o.config_path)) [
    | inl e ↦ temporary-IsDone o.config_path cfg _ _ e
    | inr e ↦
        after_write-IsDone o.config_path cfg (disk.file o.config_path d)
          (write_config parse_url variable disk encode o.config_path cfg o.force d).0 _
          (write_config-valid disk parse_url variable decode unix o.config_path cfg encode o.force
            d)
          (write_config-Settled disk parse_url variable encode o.config_path cfg o.force d
            (λ d' made.
              absurd
                (false≢true (sym e ∙ named (directory_of o.config_path) o.config_path d' made))))
  ]

  after_load-IsDone :
      (read : Loaded) (d : disk.World)
      → ((cfg : Config) → read ≡ loaded cfg → validate parse_url variable cfg ≡ none)
      → IsDone
          (after_load parse_url parse_flags cwd linux variable http disk encode decode unix read)
          d
  unfolding after_load
  after_load-IsDone (failure error) d valid = tt
  after_load-IsDone (loaded cfg) d valid = valid cfg refl

  run_parsed-IsDone :
      (command : Parsed) (token : Bytes) (h : http.World) (d : disk.World)
      → IsDone
          (run_parsed parse_url parse_flags cwd linux variable http disk encode decode unix command
            (token, h, d)).0
          (run_parsed parse_url parse_flags cwd linux variable http disk encode decode unix command
            (token, h, d)).1.2
  unfolding run_parsed
  run_parsed-IsDone (refused error) token h d = tt
  run_parsed-IsDone (parsed version) token h d = tt
  run_parsed-IsDone (parsed (enroll o)) token h d =
      after_enroll-IsDone o (robine_ci.Transfer.enroll http o h).0 d
  run_parsed-IsDone (parsed (start path)) token h d =
      after_load-IsDone _ _ (load-valid disk parse_url variable decode unix path d)
  run_parsed-IsDone (parsed (install o)) token h d = tt

  -- If os.CreateTemp gives names of a kind of their own only: when an enrollment is reported, the file that
  -- was named holds the configuration, which is valid, and is private to its owner, unless its name is
  -- of that kind; and a runner starts with a valid configuration only.
  pub run-IsDone :
      (args : List Bytes) (token : Bytes) (h : http.World) (d : disk.World)
      → IsDone
          (run parse_url parse_flags cwd linux variable http disk encode decode unix args
            (token, h, d)).0
          (run parse_url parse_flags cwd linux variable http disk encode decode unix args
            (token, h, d)).1.2
  unfolding run
  run-IsDone args token h d = run_parsed-IsDone _ _ h d
