-- ===== src/Archive/Create.antt =====
-- createArchive of runner-go/internal/runner/archive.go. `Packing` has the calls that the code makes beside
-- os.Lstat of `Files`: filepath.WalkDir, filepath.Rel, and the writers of archive/tar and compress/gzip,
-- of which the code knows how many bytes they have written and what they give in the end.
pub mod Entries
pub mod Bounded
use robine_ci.Prelude.{
  ℕ, suc, ◌+◌, ◌%◌, ◌^◌, Bool, true, false, Option, none, some, List, [], ◌∷◌, ◌++◌, ◌⊎◌, inl, inr,
  ltb, length, if◌then◌else◌,
}
use robine_ci.Prelude.Bytes.{Bytes, codes}
use robine_ci.Run.{Run, pure, ◌>>=◌, ◌>>◌}
use robine_ci.Offer.{is_empty}
use robine_ci.Strings.{sort_strings}
use robine_ci.Docker.Arguments.{mem}
use robine_ci.Archive.{safe_workspace_relative, workspace_path}
use robine_ci.Archive.Limits.{is_greater, max_expanded_bytes}
use robine_ci.Archive.Extract.{
  Files, Kind, absent, State, outside, reject_symlink_components, max_archive_files,
}

-- What Lstat says of an entry; the size is the pattern of an int64.
pub record Info : Type 0 where
  pub is_regular : Bool
  pub is_dir : Bool
  pub size : ℕ

-- What is written for an entry: its name in the archive, and the file that its data come from.
pub record Packed : Type 0 where
  pub name : Bytes
  pub path : Bytes
  pub info : Info

pub record Packing (World : Type 0) : Type 0 where
  -- the paths that WalkDir visits, each with whether it is a regular file or a directory, or an error
  pub walk_dir : Bytes → World → Option (List (Bytes × Bool)) × World
  -- filepath.Rel with filepath.ToSlash
  pub relative_to : Bytes → Bytes → Option Bytes
  pub inspect : Bytes → World → Option Info × World
  -- tar.FileInfoHeader and WriteHeader; os.Open; io.Copy with Close
  pub write_header : Packed → World → Bool × World
  pub open_file : Bytes → World → Bool × World
  pub copy_in : Bytes → World → Bool × World
  -- the length of the buffer behind such entries; the archive of them, if the writers close well
  pub buffered : List Packed → ℕ
  pub finish : List Packed → Option Bytes

pub data Failure : Type 0 where
  no_paths unsafe_path escapes link_traversed missing_path walk_failed unsupported_entry rel_failed
        too_many inspect_failed header_failed expanded_too_far open_failed copy_failed upload_limit
        close_failed :
      Failure

-- What the loops keep: the names seen, the number of entries, the count of bytes, and what is written.
pub record Pack : Type 0 where
  pub seen : List Bytes
  pub count : ℕ
  pub expanded : ℕ
  pub written : List Packed

abbrev pub Result : Type 0
Result = Pack ⊎ Failure

-- The callback of WalkDir, over the paths that are visited.
unfoldable pub supported : List (Bytes × Bool) → Option (List Bytes)
supported [] = some []
supported ((path, true) ∷ visited) = elim (supported visited) [
  | none ↦ none
  | some paths ↦ some (path ∷ paths)
]
supported ((path, false) ∷ visited) = none

module _ (files : Files) (packing : Packing files.World) (max_archive_bytes : ℕ) where
  abbrev Act : Type 0 → Type 0
  Act = Run (State files)

  -- With the entry written, the length of the buffer is checked.
  unfoldable pub within_limit : Pack → Result
  within_limit pack =
      if ltb max_archive_bytes (packing.buffered pack.written) then inr upload_limit else inl pack

  after_open : Bytes → Pack → Bool → Act Result
  after_open path pack false = pure (inr open_failed)
  after_open path pack true = do
    copied ← outside files (packing.copy_in path)
    pure (if copied then within_limit pack else inr copy_failed)

  write_data : Packed → Pack → Act Result
  unfolding after_open
  write_data entry pack =
      if entry.info.is_regular
      then (let total = (pack.expanded + entry.info.size) % 2 ^ 64 in
          if is_greater total max_expanded_bytes then pure (inr expanded_too_far) else do
            opened ← outside files (packing.open_file entry.path)
            after_open entry.path (record pack { expanded = total }) opened)
      else pure (within_limit pack)

  pub after_header : Packed → Pack → Bool → Act Result
  unfolding write_data
  after_header entry pack false = pure (inr header_failed)
  after_header entry pack true =
      write_data entry (record pack { written = pack.written ++ entry ∷ [] })

  abbrev entry_name : Bytes → Info → Bytes
  entry_name name info = if info.is_dir then name ++ codes "/" else name

  after_info : Bytes → Bytes → Pack → Option Info → Act Result
  unfolding after_header
  after_info name path pack none = pure (inr inspect_failed)
  after_info name path pack (some info) = do
    let entry : Packed = record { name = entry_name name info; path = path; info = info }
    ok ← outside files (packing.write_header entry)
    after_header entry pack ok

  add_named : Bytes → Pack → Option Bytes → Act Result
  unfolding after_info
  add_named path pack none = pure (inr rel_failed)
  add_named path pack (some name) =
      if mem name pack.seen
      then pure (inl pack)
      else if ltb max_archive_files (suc pack.count)
      then pure (inr too_many)
      else do
        info ← outside files (packing.inspect path)
        after_info name path (record pack { seen = name ∷ pack.seen; count = suc pack.count }) info

  abbrev pub and_then : Result → (Pack → Act Result) → Act Result
  and_then (inl pack) rest = rest pack
  and_then (inr failure) rest = pure (inr failure)

  unfoldable pub add_entries : Bytes → List Bytes → Pack → Act Result
  unfolding add_named
  add_entries workspace [] pack = pure (inl pack)
  add_entries workspace (path ∷ paths) pack = do
    result ← add_named path pack (packing.relative_to workspace path)
    and_then result (add_entries workspace paths)

  after_supported : Bytes → Pack → Option (List Bytes) → Act Result
  after_supported workspace pack none = pure (inr unsupported_entry)
  after_supported workspace pack (some paths) = add_entries workspace (sort_strings paths) pack

  after_walk : Bytes → Pack → Option (List (Bytes × Bool)) → Act Result
  unfolding after_supported
  after_walk workspace pack none = pure (inr walk_failed)
  after_walk workspace pack (some visited) = after_supported workspace pack (supported visited)

  after_lstat : Bytes → Bytes → Pack → Option Kind → Act Result
  unfolding after_walk
  after_lstat workspace root pack none = pure (inr missing_path)
  after_lstat workspace root pack (some absent) = pure (inr missing_path)
  after_lstat workspace root pack (some _) = do
    visited ← outside files (packing.walk_dir root)
    after_walk workspace pack visited

  after_reject : {E : Type 0} → Bytes → Bytes → Pack → Option E → Act Result
  unfolding after_lstat
  after_reject workspace root pack (some refused) = pure (inr link_traversed)
  after_reject workspace root pack none = do
    found ← outside files (files.lstat root)
    after_lstat workspace root pack found

  after_root : Bytes → Bytes → Pack → Option Bytes → Act Result
  unfolding after_reject
  after_root workspace relative pack none = pure (inr escapes)
  after_root workspace relative pack (some root) = do
    refused ← reject_symlink_components files workspace relative
    after_reject workspace root pack refused

  after_clean : Option Bytes → Bytes → Pack → Option Bytes → Act Result
  unfolding after_root
  after_clean cwd workspace pack none = pure (inr unsafe_path)
  after_clean cwd workspace pack (some relative) =
      after_root workspace relative pack (workspace_path cwd workspace relative)

  unfoldable pub add_paths : Option Bytes → Bytes → List Bytes → Pack → Act Result
  unfolding after_clean
  add_paths cwd workspace [] pack = pure (inl pack)
  add_paths cwd workspace (path ∷ paths) pack = do
    result ← after_clean cwd workspace pack (safe_workspace_relative path)
    and_then result (add_paths cwd workspace paths)

  closed : Option Bytes → Bytes ⊎ Failure
  closed none = inr close_failed
  closed (some body) = if ltb max_archive_bytes (length body) then inr upload_limit else inl body

  unfoldable pub finished : Result → Bytes ⊎ Failure
  unfolding closed
  finished (inr failure) = inr failure
  finished (inl pack) = closed (packing.finish pack.written)

  unfoldable pub create_archive : Option Bytes → Bytes → List Bytes → Act (Bytes ⊎ Failure)
  create_archive cwd workspace paths = if is_empty paths then pure (inr no_paths) else do
    result ←
        add_paths cwd workspace paths (record { seen = []; count = 0; expanded = 0; written = [] })
    pure (finished result)
