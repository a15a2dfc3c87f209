-- ===== src/Archive/Extract.antt =====
-- extractArchive and rejectSymlinkComponents of runner-go/internal/runner/archive.go. `Files` is the file
-- system: the calls that the code makes, each of which may fail, and what the system documents of them.
-- compress/gzip and archive/tar are the argument `unpack`, the entries of an archive with their data.
-- The state keeps the directories and files that were made, each with the world before the call.
pub mod Walk
pub mod Confined
use robine_ci.Prelude.{
  ℕ, suc, ◌+◌, ◌-◌, ◌*◌, ◌/◌, ◌%◌, ◌≡◌, ◌≢◌, Bool, true, false, ◌||◌, ◌&&◌, Option, none, some,
  List, [], ◌∷◌, ◌++◌, ◌==◌, ltb, length, take, if◌then◌else◌,
}
use robine_ci.Prelude.Bytes.{Bytes, bytes_eq}
use robine_ci.Run.{Run, pure, ◌>>=◌, ◌>>◌}
use robine_ci.Offer.{is_empty}
use robine_ci.Archive.{slash, dot, split, clean, join_path, safe_archive_name, workspace_path}
use robine_ci.Archive.Limits.{charge}
use robine_ci.Config.Files.{directory_of}

-- What os.Lstat finds: nothing, a symbolic link, or another file.
pub data Kind : Type 0 where
  absent link other : Kind

pub record Files : Type 1 where
  pub World : Type 0
  pub kind : Bytes → World → Kind
  pub lstat : Bytes → World → Option Kind × World
  pub lstat_reads : (p : Bytes) (k : Kind) (w : World) → (lstat p w).0 ≡ some k → kind p w ≡ k
  pub lstat_keeps : (p q : Bytes) (w : World) → kind q (lstat p w).1 ≡ kind q w
  -- below a path that is not there nothing is there
  pub absent_below :
      (p q : Bytes) (w : World) → kind p w ≡ absent → kind (p ++ slash ∷ q) w ≡ absent
  -- os.MkdirAll, which makes no links
  pub make_dirs : Bytes → World → Bool × World
  pub make_dirs_links :
      (p q : Bytes) (w : World) → kind q w ≢ link → kind q (make_dirs p w).1 ≢ link
  -- os.OpenFile with O_WRONLY|O_CREATE|O_EXCL and a mode; a copy of bytes into the file; its Close
  pub create : Bytes → ℕ → World → Bool × World
  pub copy : Bytes → Bytes → World → Bool × World
  pub close : Bytes → World → Bool × World

pub data EntryKind : Type 0 where
  directory regular unsupported : EntryKind

-- The size and the mode are the patterns of int64s.
pub record Header : Type 0 where
  pub name : Bytes
  pub kind : EntryKind
  pub size : ℕ
  pub mode : ℕ

-- What the calls of reader.Next give: an end, an error, or an entry with the data that follows it.
pub data Entries : Type 0 where
  finished broken : Entries
  entry : Header → Bytes → Entries → Entries

pub data Failure : Type 0 where
  bad_gzip bad_archive too_many unsafe_name escapes link_traversed inspect_failed directory_failed
        expanded_too_far parent_failed create_failed copy_failed close_failed bad_entry :
      Failure

abbrev pub max_archive_files : ℕ
max_archive_files = 10_000

-- `os.FileMode(mode) & 0o777`, without 0o022, and 0o600 for none.
unfoldable pub file_mode : ℕ → ℕ
file_mode mode =
    let bits = mode % 512 in
    let kept = bits - bits / 16 % 2 * 16 - bits / 2 % 2 * 2 in if kept == 0 then 384 else kept

abbrev pub is_directory : EntryKind → Bool
is_directory directory = true
is_directory _ = false

module _ (files : Files) where
  pub record Made : Type 0 where
    pub path : Bytes
    pub before : files.World

  pub record State : Type 0 where
    pub world : files.World
    pub made : List Made

  -- A call that makes nothing, and one that makes what stands at the path.
  unfoldable pub outside : {A : Type 0} → (files.World → A × files.World) → Run State A
  outside call s = let (a, world) = call s.world in (a, record s { world = world })

  unfoldable pub making : {A : Type 0} → Bytes → (files.World → A × files.World) → Run State A
  making path call s =
      let (a, world) = call s.world in
      (a, record { world = world; made = s.made ++ record { path = path; before = s.world } ∷ [] })

  -- What Lstat says of a component; the argument is the rest of the loop.
  unfoldable pub judge : Option Kind → Run State (Option Failure) → Run State (Option Failure)
  judge none rest = pure (some inspect_failed)
  judge (some absent) rest = pure none
  judge (some link) rest = pure (some link_traversed)
  judge (some other) rest = rest

  unfoldable pub walk : Bytes → List Bytes → Run State (Option Failure)
  walk current [] = pure none
  walk current (component ∷ components) =
      let skipped = walk current components in
      let next = join_path (current ∷ component ∷ []) in
      let deeper = walk next components in
      if bytes_eq component dot || is_empty component
      then skipped
      else do found ← outside (files.lstat next); judge found deeper

  unfoldable pub reject_symlink_components : Bytes → Bytes → Run State (Option Failure)
  reject_symlink_components root relative = walk root (split (clean relative))

  -- What an entry leads to: an error, or the count of bytes after it.
  pub data Verdict : Type 0 where
    stop : Failure → Verdict
    go_on : ℕ → Verdict

  abbrev pub verdict : Bool → Failure → ℕ → Verdict
  verdict true failure total = go_on total
  verdict false failure total = stop failure

  make_directory : Bytes → ℕ → Run State Verdict
  make_directory target expanded = do
    ok ← making target (files.make_dirs target)
    pure (verdict ok directory_failed expanded)

  after_create : Bytes → Header → Bytes → ℕ → Bool → Run State Verdict
  after_create target header body total false = pure (stop create_failed)
  after_create target header body total true = do
    copied ← outside (files.copy target (take header.size body))
    closed ← outside (files.close target)
    pure (
        if copied
        then (if ltb (length body) header.size
            then stop copy_failed
            else verdict closed close_failed total)
        else stop copy_failed)

  after_parent : Bytes → Header → Bytes → ℕ → Bool → Run State Verdict
  unfolding after_create
  after_parent target header body total false = pure (stop parent_failed)
  after_parent target header body total true = do
    ok ← making target (files.create target (file_mode header.mode))
    after_create target header body total ok

  make_file : Bytes → Header → Bytes → Option ℕ → Run State Verdict
  unfolding after_parent
  make_file target header body none = pure (stop expanded_too_far)
  make_file target header body (some total) = do
    ok ← making (directory_of target) (files.make_dirs (directory_of target))
    after_parent target header body total ok

  module _ (archive_length : ℕ) (cwd : Option Bytes) (destination : Bytes) (strip_root : Bool) where
    make_entry : EntryKind → Bytes → Header → Bytes → ℕ → Run State Verdict
    unfolding make_directory make_file
    make_entry directory target header body expanded = make_directory target expanded
    make_entry regular target header body expanded =
        make_file target header body (charge archive_length expanded header.size)
    make_entry unsupported target header body expanded = pure (stop bad_entry)

    after_walk : Bytes → Header → Bytes → ℕ → Option Failure → Run State Verdict
    unfolding make_entry
    after_walk target header body expanded (some failure) = pure (stop failure)
    after_walk target header body expanded none = make_entry header.kind target header body expanded

    after_path : Bytes → Header → Bytes → ℕ → Option Bytes → Run State Verdict
    unfolding after_walk
    after_path name header body expanded none = pure (stop escapes)
    after_path name header body expanded (some target) = do
      refused ← reject_symlink_components destination name
      after_walk target header body expanded refused

    after_name : Header → Bytes → ℕ → Option Bytes → Run State Verdict
    unfolding after_path
    after_name header body expanded none = pure (stop unsafe_name)
    after_name header body expanded (some name) =
        if is_empty name && is_directory header.kind
        then pure (go_on expanded)
        else after_path name header body expanded (workspace_path cwd destination name)

    unfoldable pub extract_entry : Header → Bytes → ℕ → Run State Verdict
    unfolding after_name
    extract_entry header body expanded =
        after_name header body expanded (safe_archive_name header.name strip_root)

    abbrev pub after_entry : Verdict → (ℕ → Run State (Option Failure)) → Run State (Option Failure)
    after_entry (stop failure) rest = pure (some failure)
    after_entry (go_on total) rest = rest total

    -- The loop, with the number of entries and of bytes so far.
    unfoldable pub extract_entries : Entries → ℕ → ℕ → Run State (Option Failure)
    extract_entries finished count expanded = pure none
    extract_entries broken count expanded = pure (some bad_archive)
    extract_entries (entry header body entries) count expanded =
        let rest = λ (total : ℕ). extract_entries entries (suc count) total in
        if ltb max_archive_files (suc count)
        then pure (some too_many)
        else do result ← extract_entry header body expanded; after_entry result rest

  extract_unpacked : ℕ → Option Bytes → Bytes → Bool → Option Entries → Run State (Option Failure)
  extract_unpacked archive_length cwd destination strip_root none = pure (some bad_gzip)
  extract_unpacked archive_length cwd destination strip_root (some entries) =
      extract_entries archive_length cwd destination strip_root entries 0 0

  -- The error, or none.
  unfoldable pub extract_archive :
      (Bytes → Option Entries) → Option Bytes → Bytes → Bytes → Bool → Run State (Option Failure)
  unfolding extract_unpacked
  extract_archive unpack cwd body destination strip_root =
      extract_unpacked (length body) cwd destination strip_root (unpack body)
