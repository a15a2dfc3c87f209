-- ===== src/Tests/Unpacking.antt =====
-- Tests of the unpacking of archives, with files in memory: the world is the one path that is a
-- symbolic link.
use robine_ci.Prelude.{
  ◌≡◌, ◌≢◌, refl, sym, ap, ◌∙◌, arith, true, Option, none, some, [], ◌∷◌, All, length,
  if◌then◌else◌,
}
use robine_ci.Prelude.Bytes.{Bytes, codes, bytes_eq}
use robine_ci.Redactor.{begins_with}
use robine_ci.Run.{pure, ◌>>=◌}
use robine_ci.Archive.{
  slash, split, cons_first, join_parts, is_rooted, push_part, clean_onto, unstack, clean,
  drop_empty, join_path, replace_backslashes, trim_slash, contains_nul, is_unsafe_part, any_unsafe,
  strip_source, safe_archive_name, workspace_path, absolute,
}
use robine_ci.Archive.Limits.{charge, is_negative, is_greater}
use robine_ci.Config.Files.{directory_of, through_slash}
use robine_ci.Archive.Extract.{
  Files, Kind, absent, link, other, regular, directory, Entries, finished, entry, State, Failure,
  link_traversed, outside, making, judge, walk, reject_symlink_components, extract_entry,
  extract_entries, extract_archive, file_mode,
}
use robine_ci.Archive.Extract.Confined.{Guarded, extract_archive-Guarded}

abbrev pub kind_in : Bytes → Bytes → Kind
kind_in p w = if bytes_eq p w then link else other

pub kind_in-ne-absent : (p w : Bytes) {A : Type 0} → kind_in p w ≡ absent → A
kind_in-ne-absent p w e = absurd (ground (arith, e))

pub some_same : (k m : Kind) → some k ≡ some m → k ≡ m
some_same k m e = cc

abbrev pub memory : Files
memory = record {
  World = Bytes;
  kind = kind_in;
  lstat = λ p w. (some (kind_in p w), w);
  lstat_reads = λ p k w e. some_same (kind_in p w) k e;
  lstat_keeps = λ p q w. refl;
  absent_below = λ p q w gone. kind_in-ne-absent p w gone;
  make_dirs = λ p w. (true, w);
  make_dirs_links = λ p q w n. n;
  create = λ p mode w. (true, w);
  copy = λ p body w. (true, w);
  close = λ p w. (true, w);
}

abbrev pub small_archive : Entries
small_archive =
    entry (record { name = codes "source/a"; kind = directory; size = 0; mode = 493 }) []
      (entry (record { name = codes "source/a/b"; kind = regular; size = 2; mode = 438 })
        (codes "hi") finished)

abbrev pub workspace : Bytes
workspace = codes "/tmp/x"

abbrev pub linked : Bytes → State memory
linked path = record { world = path; made = [] }

abbrev unpacked : Bytes → Option Failure × State memory
unpacked path =
    extract_archive memory (λ body. some small_archive) none (codes "gz") workspace true
      (linked path)

-- Two entries are made; where the first one's path is a link, it is refused.
unpacks : ((unpacked []).0 ≡ none) × ((unpacked (codes "/tmp/x/a")).0 ≡ some link_traversed)
unfolding begins_with safe_archive_name split cons_first join_parts is_rooted push_part clean_onto
    unstack clean drop_empty join_path replace_backslashes trim_slash contains_nul is_unsafe_part
    any_unsafe strip_source bytes_eq workspace_path absolute charge is_negative is_greater
    directory_of through_slash outside making judge walk reject_symlink_components extract_entry
    extract_entries extract_archive file_mode pure ◌>>=◌
unpacks = (refl, refl)

no_writers : file_mode 438 ≡ 420
unfolding file_mode
no_writers = refl

clean-workspace : clean workspace ≡ codes "/tmp/x"
unfolding split cons_first join_parts is_rooted push_part clean_onto unstack clean bytes_eq
clean-workspace = refl

pub workspace_deep : clean workspace ≢ slash ∷ []
workspace_deep e =
    let e' : codes "/tmp/x" ≡ slash ∷ [] = sym clean-workspace ∙ e in omega (arith, ap length e')

extract_archive-Guarded_example : All (Guarded memory workspace) (unpacked []).1.made
unfolding is_rooted
extract_archive-Guarded_example =
    extract_archive-Guarded memory (λ body. some small_archive) none (codes "gz") workspace true []
      refl workspace_deep
