-- ===== src/Config/Files/Atomic.antt =====
-- Write replaces the file at once or leaves it as it was, and Load reads what Write wrote.
use robine_ci.Prelude.{
  ◌≡◌, ◌≢◌, refl, sym, ap, ◌∙◌, Bool, true, false, ◌&&◌, Option, none, some, ◌++◌, ◌⊎◌, inl, inr,
  Bool-cases, Option-cases,
}
use mathlib.Core.Path.{subst}
use robine_ci.Prelude.Bytes.{Bytes}
use robine_ci.Run.{Run, pure, ◌>>=◌}
use robine_ci.Config.{Config, Url, Error, validate, stat_failed, read_failed}
use robine_ci.Config.Files.{
  File, Disk, Found, found, missing, failed, Loaded, loaded, failure, load, directory_of,
  after_close, after_sync, after_write, after_chmod, after_temp, after_dirs, replace, after_lstat,
  write_valid, after_validate, write_config, after_read, read_config, after_stat, decoded, checked,
}

-- Either there is no error and the file is the new one, or there is an error and it is the old one.
abbrev pub Settled : Option File → File → Option Error → Option File → Type 0
Settled old new result now =
    ((result ≡ none) × (now ≡ some new)) ⊎ ((e : Error) × (result ≡ some e) × (now ≡ old))

some_ne_none : {A : Type 0} {a : A} → some a ≡ none → ⊥
some_ne_none e = cc

some_injective : {A : Type 0} {a b : A} → some a ≡ some b → a ≡ b
some_injective e = cc

and_false : (b : Bool) → b && false ≡ false
and_false true = refl
and_false false = refl

module _ (disk : Disk) (parse_url : Bytes → Option Url) (variable : Bytes) (path : Bytes)
    (old : Option File) (t : Bytes) (other : path ≢ t) where
  open disk use {World, file}

  -- What an action leaves, started where the file is the old one and the temporary one is `f`.
  abbrev Settles : Run World (Option Error) → File → File → Type 0
  Settles m f new =
      (w : World)
      → file path w ≡ old
      → file t w ≡ some f
      → Settled old new (m w).0 (file path (m w).1)

  after_close-Settles :
      (ok : Bool) (f : File) → Settles (after_close parse_url variable disk t path ok) f f
  unfolding after_close ◌>>=◌ pure
  after_close-Settles false f w before there = inr (Error.close_failed, refl, before)
  after_close-Settles true f w before there = elim (Bool-cases (disk.rename t path w).0) [
    | inl e ↦ inl (rw e, disk.rename_moves t path w e ∙ there)
    | inr e ↦ inr (Error.rename_failed, rw e, disk.rename_fails t path w e ∙ before)
  ]

  after_sync-Settles :
      (ok : Bool) (f : File) → Settles (after_sync parse_url variable disk t path ok) f f
  unfolding after_sync ◌>>=◌ pure
  after_sync-Settles false f w before there =
      inr (Error.sync_failed, refl, disk.close_keeps t path w ∙ before)
  after_sync-Settles true f w before there =
      after_close-Settles (disk.close t w).0 f (disk.close t w).1
        (disk.close_keeps t path w ∙ before) (disk.close_keeps t t w ∙ there)

  after_write-Settles :
      (ok : Bool) (f : File) → Settles (after_write parse_url variable disk t path ok) f f
  unfolding after_write ◌>>=◌ pure
  after_write-Settles false f w before there =
      inr (Error.write_failed, refl, disk.close_keeps t path w ∙ before)
  after_write-Settles true f w before there =
      after_sync-Settles (disk.sync t w).0 f (disk.sync t w).1 (disk.sync_keeps t path w ∙ before)
        (disk.sync_keeps t t w ∙ there)

  abbrev filled : File → Bytes → File
  filled f body = record f { body = f.body ++ body }

  after_chmod-Settles :
      (body : Bytes) (ok : Bool) (f : File)
      → Settles (after_chmod parse_url variable disk body t path ok) f (filled f body)
  unfolding after_chmod ◌>>=◌ pure
  after_chmod-Settles body false f w before there =
      inr (Error.chmod_failed, refl, disk.close_keeps t path w ∙ before)
  after_chmod-Settles body true f w before there = elim (Bool-cases (disk.write t body w).0) [
    | inl e ↦
        after_write-Settles (disk.write t body w).0 (filled f body) (disk.write t body w).1
          (disk.write_keeps t path body w other ∙ before) (disk.write_appends t body f w e there)
    | inr e ↦ rw e (
        inr (
          Error.write_failed,
          unfold after_write in refl,
          unfold after_write in
              (disk.close_keeps t path (disk.write t body w).1
                ∙ disk.write_keeps t path body w other
                ∙ before),
        ))
  ]

  abbrev private : File → File
  private f = record f { mode = 384 }

  after_temp-Settles :
      (body : Bytes) (f : File)
      → Settles (after_temp parse_url variable disk body path (some t)) f (filled (private f) body)
  unfolding after_temp after_chmod ◌>>=◌ pure
  after_temp-Settles body f w before there =
      let before' = disk.chmod_keeps t path 384 w other ∙ before in
      let m = after_chmod parse_url variable disk body t path (disk.chmod t 384 w).0 in
      let w' = (disk.chmod t 384 w).1 in
      let kept = disk.remove_keeps t path (m w').1 other in
      let settled : Settled old (filled (private f) body) (m w').0 (file path (m w').1) =
        elim (Bool-cases (disk.chmod t 384 w).0) [
          | inl e ↦
              after_chmod-Settles body (disk.chmod t 384 w).0 (private f) w' before'
                (disk.chmod_sets t 384 f w e there)
          | inr e ↦ inr (
            Error.chmod_failed,
            ap (λ ok. (after_chmod parse_url variable disk body t path ok w').0) e,
            ap (λ ok. file path (after_chmod parse_url variable disk body t path ok w').1) e
                ∙ disk.close_keeps t path w'
                ∙ before',
          )
        ] in
      elim settled [
        | inl (ok, now) ↦ inl (ok, kept ∙ now)
        | inr (e, bad, now) ↦ inr (e, bad, kept ∙ now)
      ]

module _ (disk : Disk) (parse_url : Bytes → Option Url) (variable : Bytes) (path body : Bytes)
    (old : Option File) where
  open disk use {World, file}

  abbrev written : File
  written = record { mode = 384; body = body }

  abbrev Leaves : Run World (Option Error) → Type 0
  Leaves m = (w : World) → file path w ≡ old → Settled old written (m w).0 (file path (m w).1)

  module _ (distinct : (w : World) → (disk.create_temp (directory_of path) w).0 ≢ some path) where
    after_dirs-Leaves : (ok : Bool) → Leaves (after_dirs parse_url variable disk body path ok)
    unfolding after_dirs ◌>>=◌ pure
    after_dirs-Leaves false w before = inr (Error.directory_failed, refl, before)
    after_dirs-Leaves true w before =
        let kept = disk.create_temp_keeps (directory_of path) path w (distinct w) in
        let w' = (disk.create_temp (directory_of path) w).1 in
        elim (Option-cases (disk.create_temp (directory_of path) w).0) [
          | inl e ↦ rw e (
              inr (
                Error.temporary_failed,
                unfold after_temp pure in refl,
                unfold after_temp pure in (kept ∙ before),
              ))
          | inr (t, e) ↦
              let other : path ≢ t = λ same. distinct w (e ∙ ap some (sym same)) in
              let (f, there, empty) = disk.create_temp_makes (directory_of path) t w e in
              let settled =
                after_temp-Settles disk parse_url variable path old t other body f w'
                  (kept ∙ before) there in
              let settled' =
                subst
                  (λ b.
                    Settled old (record { mode = 384; body = b ++ body })
                      (after_temp parse_url variable disk body path (some t) w').0
                      (file path (after_temp parse_url variable disk body path (some t) w').1))
                  empty settled in
              rw e settled'
        ]

    replace-Leaves : Leaves (replace parse_url variable disk body path)
    unfolding replace ◌>>=◌
    replace-Leaves w before =
        after_dirs-Leaves (disk.make_dirs (directory_of path) w).0
          (disk.make_dirs (directory_of path) w).1
          (disk.make_dirs_keeps (directory_of path) path w ∙ before)

    after_lstat-Leaves :
        (there : Found) → Leaves (after_lstat parse_url variable disk body path there)
    unfolding after_lstat pure
    after_lstat-Leaves found w before = inr (Error.exists, refl, before)
    after_lstat-Leaves failed w before = inr (Error.inspect_failed, refl, before)
    after_lstat-Leaves missing w before = replace-Leaves w before

    write_valid-Leaves :
        (force : Bool) → Leaves (write_valid parse_url variable disk body path force)
    unfolding write_valid ◌>>=◌
    write_valid-Leaves true w before = replace-Leaves w before
    write_valid-Leaves false w before =
        after_lstat-Leaves (disk.lstat path w).0 (disk.lstat path w).1
          (disk.lstat_keeps path path w ∙ before)

    after_validate-Leaves :
        (force : Bool) (e : Option Error)
        → Leaves (after_validate parse_url variable disk body path force e)
    unfolding after_validate pure
    after_validate-Leaves force (some e) w before = inr (e, refl, before)
    after_validate-Leaves force none w before = write_valid-Leaves force w before

module _ (disk : Disk) (parse_url : Bytes → Option Url) (variable : Bytes) (encode : Config → Bytes)
    (path : Bytes) (cfg : Config) (force : Bool) (w : disk.World)
    (distinct : (w : disk.World) → (disk.create_temp (directory_of path) w).0 ≢ some path) where
  -- Whatever calls fail, Write either reports no error and the file holds exactly the encoded
  -- configuration and is private to its owner, or reports an error and the file is as it was, if a
  -- temporary file never gets the name of the file itself.
  pub write_config-Settled :
      Settled
        (disk.file path w)
        (record { mode = 384; body = encode cfg })
        (write_config parse_url variable disk encode path cfg force w).0
        (disk.file path (write_config parse_url variable disk encode path cfg force w).1)
  unfolding write_config
  write_config-Settled =
      after_validate-Leaves disk parse_url variable path (encode cfg) (disk.file path w) distinct
        force (validate parse_url variable cfg) w refl

unwritable :
    {old : Option File} {new : File} {now : Option File} {r : Option Error}
    → Settled old new r now
    → r ≡ none
    → now ≡ some new
unwritable (inl (_, now)) e = now
unwritable (inr (x, bad, _)) e = absurd (some_ne_none (sym bad ∙ e))

module _ (disk : Disk) (parse_url : Bytes → Option Url) (variable : Bytes)
    (decode : Bytes → Option Config) (unix : Bool) (path : Bytes) (cfg : Config) where
  open disk use {World, file}

  abbrev Reads : Loaded → Type 0
  Reads r = (r ≡ loaded cfg) ⊎ (r ≡ failure stat_failed) ⊎ (r ≡ failure read_failed)

  read_config-Reads :
      (f : File) (w : World)
      → decode f.body ≡ some cfg
      → validate parse_url variable cfg ≡ none
      → file path w ≡ some f
      → Reads (read_config parse_url variable disk decode unix path w).0
  unfolding read_config after_read ◌>>=◌ pure
  read_config-Reads f w decodes valid there = elim (Option-cases (disk.read path w).0) [
    | inl e ↦ rw e (inr (inr refl))
    | inr (body, e) ↦
        let (g, here, same) = disk.read_reads path body w e in
        let same' : f ≡ g = some_injective (sym there ∙ here) in
        let got : decode body ≡ some cfg =
          ap decode (sym same ∙ ap (λ x. x.body) (sym same')) ∙ decodes in
        rw e (
          inl (
            ap (decoded parse_url variable) got ∙ ap (λ v. checked parse_url variable v cfg) valid))
  ]

  load-Reads :
      (f : File) (w : World)
      → f.mode ≡ 384
      → decode f.body ≡ some cfg
      → validate parse_url variable cfg ≡ none
      → file path w ≡ some f
      → Reads (load parse_url variable disk decode unix path w).0
  unfolding load after_stat ◌>>=◌ pure
  load-Reads f w private decodes valid there = elim (Option-cases (disk.stat path w).0) [
    | inl e ↦ rw e (inr (inl refl))
    | inr (m, e) ↦
        let (g, here, same) = disk.stat_reads path m w e in
        let same' : f ≡ g = some_injective (sym there ∙ here) in
        let m' : m ≡ 384 = sym same ∙ ap (λ x. x.mode) (sym same') ∙ private in
        let found_ =
          read_config-Reads f (disk.stat path w).1 decodes valid
            (disk.stat_keeps path path w ∙ there) in
        rw (e, m', and_false unix) found_
  ]

  pub write_config-valid :
      (encode : Config → Bytes) (force : Bool) (w : World)
      → (write_config parse_url variable disk encode path cfg force w).0 ≡ none
      → validate parse_url variable cfg ≡ none
  unfolding write_config after_validate pure
  write_config-valid encode force w done = elim (Option-cases (validate parse_url variable cfg)) [
    | inl e ↦ e
    | inr (e, bad) ↦
        let done' : some e ≡ none = rw (bad, write_config) at done in absurd (some_ne_none done')
  ]

-- The configuration, or the error that the file could not be read.
abbrev pub IsReadBack : Config → Loaded → Type 0
IsReadBack cfg r = (r ≡ loaded cfg) ⊎ (r ≡ failure stat_failed) ⊎ (r ≡ failure read_failed)

-- After a Write with no error, Load gives back the configuration that was written, or reports that the
-- file could not be read; so if encoding/json decodes what it encoded, and if a temporary file never
-- gets the name of the file itself.
pub load-write_config :
    (disk : Disk) (parse_url : Bytes → Option Url) (variable : Bytes) (encode : Config → Bytes)
    (decode : Bytes → Option Config) (unix : Bool) (path : Bytes) (cfg : Config) (force : Bool)
    (w : disk.World)
    → decode (encode cfg) ≡ some cfg
    → ((w : disk.World) → (disk.create_temp (directory_of path) w).0 ≢ some path)
    → (write_config parse_url variable disk encode path cfg force w).0 ≡ none
    → IsReadBack cfg
        (load parse_url variable disk decode unix path
          (write_config parse_url variable disk encode path cfg force w).1).0
load-write_config disk parse_url variable encode decode unix path cfg force w codec distinct done =
    let now =
      unwritable (write_config-Settled disk parse_url variable encode path cfg force w distinct)
        done in
    load-Reads disk parse_url variable decode unix path cfg
      (record { mode = 384; body = encode cfg })
      (write_config parse_url variable disk encode path cfg force w).1 refl codec
      (write_config-valid disk parse_url variable decode unix path cfg encode force w done) now
