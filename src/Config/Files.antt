-- ===== src/Config/Files.antt =====
-- Load and Write. `Disk` is the file system: the calls that the code makes, each of which may fail, and
-- what the system documents of them. A file is what its path leads to, and paths that are different
-- texts are taken to lead to different files: the paths here are that of the configuration and the new
-- one that os.CreateTemp gives. encoding/json is the arguments `encode` and `decode`: `encode` has no
-- error, since json.Marshal has none for a struct of texts and integers. `unix` is
-- `runtime.GOOS != "windows"`.
pub mod Atomic
pub mod Loading
use robine_ci.Prelude.{
  ℕ, ◌+◌, ◌%◌, ◌≡◌, ◌≢◌, ap, Bool, true, false, not, ◌||◌, ◌&&◌, Option, none, some, List, [], ◌∷◌,
  ◌++◌, ◌==◌, if◌then◌else◌,
}
use robine_ci.Prelude.Bytes.{Bytes, codes}
use robine_ci.Run.{Run, pure, ◌>>=◌, ◌>>◌}
use robine_ci.Offer.{is_empty}
use robine_ci.Archive.{slash, clean}
use robine_ci.Config.{
  Config, Url, Error, validate, stat_failed, not_private, read_failed, invalid_json, exists,
  inspect_failed, directory_failed, temporary_failed, chmod_failed, write_failed, sync_failed,
  close_failed, rename_failed,
}

pub record File : Type 0 where
  pub mode : ℕ
  pub body : Bytes

pub data Found : Type 0 where
  found missing failed : Found

pub record Disk : Type 1 where
  pub World : Type 0
  pub file : Bytes → World → Option File
  -- the permission bits, or an error
  pub stat : Bytes → World → Option ℕ × World
  pub stat_reads :
      (p : Bytes) (m : ℕ) (w : World)
      → (stat p w).0 ≡ some m
      → (f : File) × (file p w ≡ some f) × (f.mode ≡ m)
  pub stat_keeps : (p q : Bytes) (w : World) → file q (stat p w).1 ≡ file q w
  pub read : Bytes → World → Option Bytes × World
  pub read_reads :
      (p body : Bytes) (w : World)
      → (read p w).0 ≡ some body
      → (f : File) × (file p w ≡ some f) × (f.body ≡ body)
  pub lstat : Bytes → World → Found × World
  pub lstat_keeps : (p q : Bytes) (w : World) → file q (lstat p w).1 ≡ file q w
  pub make_dirs : Bytes → World → Bool × World
  pub make_dirs_keeps : (p q : Bytes) (w : World) → file q (make_dirs p w).1 ≡ file q w
  -- os.CreateTemp in a directory: an empty file under a new name
  pub create_temp : Bytes → World → Option Bytes × World
  pub create_temp_makes :
      (p t : Bytes) (w : World)
      → (create_temp p w).0 ≡ some t
      → (f : File) × (file t (create_temp p w).1 ≡ some f) × (f.body ≡ [])
  pub create_temp_keeps :
      (p q : Bytes) (w : World)
      → (create_temp p w).0 ≢ some q
      → file q (create_temp p w).1 ≡ file q w
  pub chmod : Bytes → ℕ → World → Bool × World
  pub chmod_sets :
      (p : Bytes) (m : ℕ) (f : File) (w : World)
      → (chmod p m w).0 ≡ true
      → file p w ≡ some f
      → file p (chmod p m w).1 ≡ some (record f { mode = m })
  pub chmod_keeps : (p q : Bytes) (m : ℕ) (w : World) → q ≢ p → file q (chmod p m w).1 ≡ file q w
  pub write : Bytes → Bytes → World → Bool × World
  pub write_appends :
      (p body : Bytes) (f : File) (w : World)
      → (write p body w).0 ≡ true
      → file p w ≡ some f
      → file p (write p body w).1 ≡ some (record f { body = f.body ++ body })
  pub write_keeps : (p q body : Bytes) (w : World) → q ≢ p → file q (write p body w).1 ≡ file q w
  pub sync : Bytes → World → Bool × World
  pub sync_keeps : (p q : Bytes) (w : World) → file q (sync p w).1 ≡ file q w
  pub close : Bytes → World → Bool × World
  pub close_keeps : (p q : Bytes) (w : World) → file q (close p w).1 ≡ file q w
  pub rename : Bytes → Bytes → World → Bool × World
  pub rename_moves :
      (p q : Bytes) (w : World) → (rename p q w).0 ≡ true → file q (rename p q w).1 ≡ file p w
  pub rename_fails :
      (p q : Bytes) (w : World) → (rename p q w).0 ≡ false → file q (rename p q w).1 ≡ file q w
  pub remove : Bytes → World → Bool × World
  pub remove_keeps : (p q : Bytes) (w : World) → q ≢ p → file q (remove p w).1 ≡ file q w

-- filepath.Dir: what stands before the last slash, that included, cleaned.
unfoldable pub through_slash : Bytes → Bytes
through_slash [] = []
through_slash (c ∷ s) =
    let rest = through_slash s in
    if is_empty rest then (if c == slash then c ∷ [] else []) else c ∷ rest

unfoldable pub directory_of : Bytes → Bytes
unfolding through_slash
directory_of path = clean (through_slash path)

pub data Loaded : Type 0 where
  loaded : Config → Loaded
  failure : Error → Loaded

module _ (parse_url : Bytes → Option Url) (variable : Bytes) where
  abbrev pub checked : Option Error → Config → Loaded
  checked (some e) cfg = failure e
  checked none cfg = loaded cfg

  abbrev pub decoded : Option Config → Loaded
  decoded none = failure invalid_json
  decoded (some cfg) = checked (validate parse_url variable cfg) cfg

  module _ (disk : Disk) where
    module _ (decode : Bytes → Option Config) (unix : Bool) where
      after_read : Option Bytes → Loaded
      after_read none = failure read_failed
      after_read (some body) = decoded (decode body)

      read_config : Bytes → Run disk.World Loaded
      unfolding after_read
      read_config path = do body ← disk.read path; pure (after_read body)

      after_stat : Bytes → Option ℕ → Run disk.World Loaded
      after_stat path none = pure (failure stat_failed)
      after_stat path (some mode) =
          if unix && not (mode % 64 == 0) then pure (failure not_private) else read_config path

      unfoldable pub load : Bytes → Run disk.World Loaded
      unfolding after_stat read_config
      load path = do mode ← disk.stat path; after_stat path mode

    -- The temporary file `t` is filled and moved to `path`; the argument is whether the last call
    -- succeeded.
    after_rename : Bool → Run disk.World (Option Error)
    after_rename ok = pure (if ok then none else some rename_failed)

    after_close : Bytes → Bytes → Bool → Run disk.World (Option Error)
    unfolding after_rename
    after_close t path false = pure (some close_failed)
    after_close t path true = do ok ← disk.rename t path; after_rename ok

    after_sync : Bytes → Bytes → Bool → Run disk.World (Option Error)
    unfolding after_close
    after_sync t path false = do disk.close t; pure (some sync_failed)
    after_sync t path true = do ok ← disk.close t; after_close t path ok

    after_write : Bytes → Bytes → Bool → Run disk.World (Option Error)
    unfolding after_sync
    after_write t path false = do disk.close t; pure (some write_failed)
    after_write t path true = do ok ← disk.sync t; after_sync t path ok

    after_chmod : Bytes → Bytes → Bytes → Bool → Run disk.World (Option Error)
    unfolding after_write
    after_chmod body t path false = do disk.close t; pure (some chmod_failed)
    after_chmod body t path true = do ok ← disk.write t body; after_write t path ok

    -- Behind os.CreateTemp, with the deferred os.Remove.
    after_temp : Bytes → Bytes → Option Bytes → Run disk.World (Option Error)
    unfolding after_chmod
    after_temp body path none = pure (some temporary_failed)
    after_temp body path (some t) = do
      ok ← disk.chmod t 384
      result ← after_chmod body t path ok
      disk.remove t
      pure result

    after_dirs : Bytes → Bytes → Bool → Run disk.World (Option Error)
    unfolding after_temp
    after_dirs body path false = pure (some directory_failed)
    after_dirs body path true = do t ← disk.create_temp (directory_of path); after_temp body path t

    replace : Bytes → Bytes → Run disk.World (Option Error)
    unfolding after_dirs
    replace body path = do ok ← disk.make_dirs (directory_of path); after_dirs body path ok

    after_lstat : Bytes → Bytes → Found → Run disk.World (Option Error)
    after_lstat body path found = pure (some exists)
    after_lstat body path failed = pure (some inspect_failed)
    after_lstat body path missing = replace body path

    write_valid : Bytes → Bytes → Bool → Run disk.World (Option Error)
    unfolding after_lstat replace
    write_valid body path true = replace body path
    write_valid body path false = do there ← disk.lstat path; after_lstat body path there

    after_validate : Bytes → Bytes → Bool → Option Error → Run disk.World (Option Error)
    after_validate body path force (some e) = pure (some e)
    after_validate body path force none = write_valid body path force

    -- The error, or none. 384 is 0o600.
    unfoldable pub write_config :
        (Config → Bytes) → Bytes → Config → Bool → Run disk.World (Option Error)
    unfolding after_validate write_valid
    write_config encode path cfg force =
        after_validate (encode cfg) path force (validate parse_url variable cfg)
