-- ===== src/Archive/Extract/Confined.antt =====
-- What extractArchive makes stands below its destination, and no symbolic link leads there.
use mathlib.Core.Path.{subst}
use robine_ci.Prelude.{
  ℕ, suc, ◌≡◌, ◌≢◌, refl, sym, ap, ◌∙◌, ◌⊎◌, Bool, true, false, ◌&&◌, Option, none, some, List, [],
  ◌∷◌, ◌++◌, All, All-append, Bool-cases, inl, inr, ltb, length,
}
use robine_ci.Prelude.Bytes.{Bytes}
use robine_ci.Run.{pure, ◌>>=◌}
use robine_ci.Offer.{is_empty}
use robine_ci.Archive.{
  slash, split, clean, join_parts, is_rooted, workspace_path, safe_archive_name,
}
use robine_ci.Archive.Parts.{IsPlain}
use robine_ci.Archive.Inside.{plain_inside}
use robine_ci.Archive.Anchors.{workspace_itself}
use robine_ci.Archive.Names.{IsSafe, itself, below, safe_archive_name-IsSafe}
use robine_ci.Archive.Limits.{charge}
use robine_ci.Config.Files.{directory_of}
use robine_ci.Archive.Extract.{
  Files, link, State, Made, Failure, Header, directory, regular, unsupported, Entries, finished,
  broken, entry, stop, go_on, outside, making, file_mode, reject_symlink_components, make_directory,
  after_create, after_parent, make_file, make_entry, after_walk, after_path, is_directory,
  after_name, extract_entry, after_entry, extract_entries, extract_unpacked, extract_archive,
  max_archive_files,
}
use robine_ci.Archive.Extract.Walk.{
  paths_below, NoLinks, NoLinks-kept, Looks, walk-Looks, reject-clear,
}

-- The path of the parts below a directory.
abbrev pub place : Bytes → List Bytes → Bytes
place base [] = base
place base (p ∷ ps) = base ++ slash ∷ join_parts (p ∷ ps)

module _ (files : Files) (destination : Bytes) where
  open files use {World, kind}

  -- What was made is the destination, or stands below it under plain names, or is the directory that
  -- holds such a path; and when it was made no path that leads there from the destination was a link.
  pub record Guarded (m : Made files) : Type 0 where
    pub parts : List Bytes
    pub plain : All IsPlain parts
    pub stands :
        (m.path ≡ place (clean destination) parts)
        ⊎ (m.path ≡ directory_of (place (clean destination) parts))
    pub clear : NoLinks files (paths_below (clean destination) parts) m.before

  pub record Confined (s : State files) : Type 0 where
    pub all : All Guarded s.made

  outside-Confined :
      {A : Type 0} (call : World → A × World) (s : State files)
      → Confined s
      → Confined (outside files call s).1
  unfolding outside
  outside-Confined call s c = record { all = c.all }

  making-Confined :
      {A : Type 0} (path : Bytes) (call : World → A × World) (s : State files)
      → Confined s
      → Guarded (record { path = path; before = s.world })
      → Confined (making files path call s).1
  unfolding making
  making-Confined path call s c g = record { all = All-append Guarded s.made _ c.all (g, tt) }

  after_create-Confined :
      (target : Bytes) (header : Header) (body : Bytes) (total : ℕ) (ok : Bool) (s : State files)
      → Confined s
      → Confined (after_create files target header body total ok s).1
  unfolding after_create ◌>>=◌ pure
  after_create-Confined target header body total false s c = c
  after_create-Confined target header body total true s c =
      outside-Confined (files.close target) _ (outside-Confined (files.copy target _) s c)

  module _ (parts : List Bytes) (plain : All IsPlain parts) where
    abbrev target : Bytes
    target = place (clean destination) parts

    abbrev Clear : State files → Type 0
    Clear s = NoLinks files (paths_below (clean destination) parts) s.world

    guards : (s : State files) → Clear s → Guarded (record { path = target; before = s.world })
    guards s n = record { parts = parts; plain = plain; stands = inl refl; clear = n }

    make_directory-Confined :
        (expanded : ℕ) (s : State files)
        → Confined s
        → Clear s
        → Confined (make_directory files target expanded s).1
    unfolding make_directory ◌>>=◌ pure
    make_directory-Confined expanded s c n =
        making-Confined target (files.make_dirs target) s c (guards s n)

    after_parent-Confined :
        (header : Header) (body : Bytes) (total : ℕ) (ok : Bool) (s : State files)
        → Confined s
        → Clear s
        → Confined (after_parent files target header body total ok s).1
    unfolding after_parent ◌>>=◌ pure
    after_parent-Confined header body total false s c n = c
    after_parent-Confined header body total true s c n =
        after_create-Confined target header body total _ _
          (making-Confined target (files.create target (file_mode header.mode)) s c (guards s n))

    make_file-Confined :
        (header : Header) (body : Bytes) (charged : Option ℕ) (s : State files)
        → Confined s
        → Clear s
        → Confined (make_file files target header body charged s).1
    unfolding make_file making ◌>>=◌ pure
    make_file-Confined header body none s c n = c
    make_file-Confined header body (some total) s c n =
        let parent = directory_of target in
        let made = making files parent (files.make_dirs parent) s in
        after_parent-Confined header body total made.0 made.1
          (making-Confined parent (files.make_dirs parent) s c
            (record { parts = parts; plain = plain; stands = inr refl; clear = n }))
          (NoLinks-kept files _ s.world made.1.world (λ q. files.make_dirs_links parent q s.world)
            n)

    module _ (archive_length : ℕ) (cwd : Option Bytes) (strip_root : Bool) where
      after_walk-Confined :
          (header : Header) (body : Bytes) (expanded : ℕ) (refused : Option Failure)
          (s : State files)
          → Confined s
          → (refused ≡ none → Clear s)
          → Confined
              (after_walk files archive_length cwd destination strip_root target header body
                expanded refused s).1
      unfolding after_walk make_entry pure
      after_walk-Confined header body expanded (some failure) s c n = c
      after_walk-Confined header body expanded none s c n =
          elim header.kind
            as (λ k.
              Confined
                (make_entry files archive_length cwd destination strip_root k target header body
                  expanded s).1) [
                    | directory ↦ make_directory-Confined expanded s c (n refl)
                    | regular ↦
                        make_file-Confined header body (charge archive_length expanded header.size)
                          s c (n refl)
                    | unsupported ↦ c
                  ]

  module _ (archive_length : ℕ) (cwd : Option Bytes) (strip_root : Bool)
      (rooted : is_rooted destination ≡ true) (deep : clean destination ≢ slash ∷ []) where
    -- Where a name leads, and what the check of its components finds.
    record Placed (name : Bytes) : Type 0 where
      parts : List Bytes
      plain : All IsPlain parts
      found : workspace_path cwd destination name ≡ some (place (clean destination) parts)
      clear :
          (s : State files)
          → (reject_symlink_components files destination name s).0 ≡ none
          → NoLinks files (paths_below (clean destination) parts) s.world

    IsSafe-Placed : (name : Bytes) → IsSafe name → Placed name
    IsSafe-Placed name (itself e) = record {
      parts = [];
      plain = tt;
      found = ap (workspace_path cwd destination) e ∙ workspace_itself cwd destination rooted deep;
      clear = λ s h. tt;
    }
    IsSafe-Placed name (below p ps h e) = record {
      parts = p ∷ ps;
      plain = h;
      found =
          ap (workspace_path cwd destination) e ∙ plain_inside cwd destination p ps rooted deep h;
      clear = λ s passed.
          reject-clear files destination (clean destination) p ps s
            (record { rooted = rooted; deep = deep; named = refl }) h
            (ap (λ n. (reject_symlink_components files destination n s).0) (sym e) ∙ passed);
    }

    reject-Looks :
        (name : Bytes) (s : State files)
        → Looks files s (reject_symlink_components files destination name s).1
    unfolding reject_symlink_components
    reject-Looks name s = walk-Looks files destination (split (clean name)) s

    Looks-Confined : {s t : State files} → Looks files s t → Confined s → Confined t
    Looks-Confined l c = record { all = subst (λ m. All Guarded m) (sym l.nothing_made) c.all }

    after_path-Confined :
        (name : Bytes) (header : Header) (body : Bytes) (expanded : ℕ) (s : State files)
        → IsSafe name
        → Confined s
        → Confined
            (after_path files archive_length cwd destination strip_root name header body expanded
              (workspace_path cwd destination name)
              s).1
    unfolding after_path ◌>>=◌
    after_path-Confined name header body expanded s safe c =
        let placed = IsSafe-Placed name safe in
        let looked = reject-Looks name s in
        let walked = reject_symlink_components files destination name s in
        let keeps = λ (q : Bytes). λ (n : kind q s.world ≢ link).
          λ (l : kind q walked.1.world ≡ link). n (sym (looked.kinds q) ∙ l) in
        rw placed.found (
          after_walk-Confined placed.parts placed.plain archive_length cwd strip_root header body
            expanded walked.0 walked.1 (Looks-Confined looked c)
            (λ passed. NoLinks-kept files _ s.world walked.1.world keeps (placed.clear s passed)))

    after_name-Confined :
        (header : Header) (body : Bytes) (expanded : ℕ) (name : Option Bytes) (s : State files)
        → ((n : Bytes) → name ≡ some n → IsSafe n)
        → Confined s
        → Confined
            (after_name files archive_length cwd destination strip_root header body expanded name
              s).1
    unfolding after_name pure
    after_name-Confined header body expanded none s safe c = c
    after_name-Confined header body expanded (some name) s safe c =
        let go = after_path-Confined name header body expanded s (safe name refl) c in
        elim (Bool-cases (is_empty name && is_directory header.kind)) [
          | inl e ↦ rw e c
          | inr e ↦ rw e go
        ]

    extract_entry-Confined :
        (header : Header) (body : Bytes) (expanded : ℕ) (s : State files)
        → Confined s
        → Confined
            (extract_entry files archive_length cwd destination strip_root header body expanded s).1
    unfolding extract_entry
    extract_entry-Confined header body expanded s c =
        after_name-Confined header body expanded (safe_archive_name header.name strip_root) s
          (λ n e. safe_archive_name-IsSafe header.name strip_root n e) c

    extract_entries-Confined :
        (entries : Entries) (count expanded : ℕ) (s : State files)
        → Confined s
        → Confined
            (extract_entries files archive_length cwd destination strip_root entries count expanded
              s).1
    unfolding extract_entries ◌>>=◌ pure
    extract_entries-Confined finished count expanded s c = c
    extract_entries-Confined broken count expanded s c = c
    extract_entries-Confined (entry header body entries) count expanded s c =
        elim (Bool-cases (ltb max_archive_files (suc count))) [
          | inl e ↦ rw e c
          | inr e ↦
              let ran =
                extract_entry files archive_length cwd destination strip_root header body expanded
                  s in
              let kept = extract_entry-Confined header body expanded s c in
              let rest = λ (total : ℕ).
                extract_entries files archive_length cwd destination strip_root entries (suc count)
                  total in
              rw e
                (elim ran.0
                  as (λ v.
                    Confined
                      (after_entry files archive_length cwd destination strip_root v rest
                        ran.1).1) [
                          | stop failure ↦ kept
                          | go_on total ↦
                              extract_entries-Confined entries (suc count) total ran.1 kept
                        ])
        ]

pub extract_archive-Confined :
    (files : Files) (unpack : Bytes → Option Entries) (cwd : Option Bytes)
    (body destination : Bytes) (strip_root : Bool) (s : State files)
    → is_rooted destination ≡ true
    → clean destination ≢ slash ∷ []
    → Confined files destination s
    → Confined files destination (extract_archive files unpack cwd body destination strip_root s).1
unfolding extract_archive extract_unpacked pure
extract_archive-Confined files unpack cwd body destination strip_root s rooted deep c =
    elim (unpack body)
      as (λ u.
        Confined files destination
          (extract_unpacked files (length body) cwd destination strip_root u s).1) [
            | none ↦ c
            | some entries ↦
                extract_entries-Confined files destination (length body) cwd strip_root rooted deep
                  entries 0 0 s c
          ]

-- Whatever an archive holds and whichever calls fail: what extractArchive makes in an absolute
-- destination other than `/` is the destination, or stands below it under plain names, or is the
-- directory that holds such a path; and when it was made, no path that leads there from the
-- destination was a symbolic link.
pub extract_archive-Guarded :
    (files : Files) (unpack : Bytes → Option Entries) (cwd : Option Bytes)
    (body destination : Bytes) (strip_root : Bool) (w : files.World)
    → is_rooted destination ≡ true
    → clean destination ≢ slash ∷ []
    → All
        (Guarded files destination)
        (extract_archive files unpack cwd body destination strip_root
          (record { world = w; made = [] })).1.made
extract_archive-Guarded files unpack cwd body destination strip_root w rooted deep =
    (extract_archive-Confined files unpack cwd body destination strip_root
      (record { world = w; made = [] }) rooted deep (record { all = tt })).all
