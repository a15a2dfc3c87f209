-- ===== src/Config/Files/Loading.antt =====
-- Load of config.go: what holds of a configuration that it gives.
use mathlib.Core.Path.{subst}
use robine_ci.Prelude.{
  ℕ, ◌%◌, ◌≡◌, refl, Bool, not, ◌&&◌, Option, none, some, ◌==◌, inl, inr, Bool-cases,
}
use robine_ci.Prelude.Bytes.{Bytes}
use robine_ci.Run.{pure, ◌>>=◌}
use robine_ci.Config.{Config, Url, Error, validate}
use robine_ci.Config.Files.{
  Disk, Loaded, loaded, failure, load, checked, decoded, after_read, read_config, after_stat,
}

-- A configuration that Load gives is valid.
pub load-valid :
    (disk : Disk) (parse_url : Bytes → Option Url) (variable : Bytes)
    (decode : Bytes → Option Config) (unix : Bool) (path : Bytes) (w : disk.World) (cfg : Config)
    → (load parse_url variable disk decode unix path w).0 ≡ loaded cfg
    → validate parse_url variable cfg ≡ none
unfolding load ◌>>=◌
load-valid disk parse_url variable decode unix path w cfg e =
    subst ValidLoaded e (stated (disk.stat path w).0 (disk.stat path w).1)
  where
    ValidLoaded : Loaded → Type 0
    ValidLoaded (loaded c) = validate parse_url variable c ≡ none
    ValidLoaded (failure error) = Unit

    checking :
        (o : Option Error) (c : Config)
        → validate parse_url variable c ≡ o
        → ValidLoaded (checked parse_url variable o c)
    checking none c same = same
    checking (some error) c same = tt

    decoding : (o : Option Config) → ValidLoaded (decoded parse_url variable o)
    decoding none = tt
    decoding (some c) = checking (validate parse_url variable c) c refl

    reading : (o : Option Bytes) → ValidLoaded (after_read parse_url variable disk decode unix o)
    reading none = unfold after_read in tt
    reading (some body) = unfold after_read in decoding (decode body)

    stated :
        (o : Option ℕ) (v : disk.World)
        → ValidLoaded (after_stat parse_url variable disk decode unix path o v).0
    stated none v = unfold after_stat pure in tt
    stated (some mode) v = elim (Bool-cases (unix && not (mode % 64 == 0))) [
      | inl e' ↦ unfold after_stat in rw e' (unfold pure in tt)
      | inr e' ↦
          unfold after_stat in rw e' (unfold read_config ◌>>=◌ pure in reading (disk.read path v).0)
    ]
