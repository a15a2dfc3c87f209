-- ===== src/Archive/Create/Bounded.antt =====
-- The limits that createArchive keeps.
use robine_ci.Prelude.{
  ℕ, suc, ◌^◌, ◌≤◌, ◌<◌, ◌≡◌, refl, ap, ◌∙◌, Bool, Option, none, some, List, [], ◌∷◌, ◌⊎◌, inl, inr,
  ltb, length, arith, Bool-cases, Option-cases,
}
use robine_ci.Prelude.Bytes.{Bytes}
use robine_ci.Run.{Run, pure, ◌>>=◌}
use robine_ci.Offer.{is_empty}
use robine_ci.Strings.{sort_strings}
use robine_ci.Docker.Arguments.{mem}
use robine_ci.Archive.{safe_workspace_relative, workspace_path}
use robine_ci.Archive.Limits.{max_expanded_bytes}
use robine_ci.Archive.Extract.{
  Files, Kind, absent, link, other, State, outside, reject_symlink_components, max_archive_files,
}
use robine_ci.Archive.Create.{
  Info, Packed, Packing, Failure, no_paths, upload_limit, close_failed, Pack, Result, supported,
  after_info, add_named, and_then, add_entries, after_supported, after_walk, after_lstat,
  after_reject, after_root, after_clean, add_paths, closed, finished, create_archive, entry_name,
}
use robine_ci.Archive.Create.Entries.{content_size, Room, Good, Keeps, after_header-Keeps}

apart : {failure : Failure} {body : Bytes} → ◌≡◌ {A = Bytes ⊎ Failure} (inr failure) (inl body) → ⊥
apart e = cc

left : {a b : Bytes} → ◌≡◌ {A = Bytes ⊎ Failure} (inl a) (inl b) → a ≡ b
left e = cc

module _ (files : Files) (packing : Packing files.World) (max_archive_bytes : ℕ) where
  module _
      (sizes : (path : Bytes) (w : files.World) (info : Info)
        → (packing.inspect path w).0 ≡ some info
        → info.size < 2 ^ 62) where
    after_info-Keeps :
        (name path : Bytes) (pack : Pack) (found : Option Info)
        → ((info : Info) → found ≡ some info → info.size < 2 ^ 62)
        → Room pack 0
        → suc (length pack.written) ≤ pack.count
        → Keeps files packing max_archive_bytes
            (after_info files packing max_archive_bytes name path pack found)
    unfolding after_info ◌>>=◌ pure
    after_info-Keeps name path pack none sized room next s = tt
    after_info-Keeps name path pack (some info) sized room next s =
        let entry : Packed = record {
          name = entry_name files packing max_archive_bytes name info;
          path = path;
          info = info;
        } in
        after_header-Keeps files packing max_archive_bytes entry pack _ (sized info refl) room next
          _

    add_named-Keeps :
        (path : Bytes) (pack : Pack) (name : Option Bytes)
        → Room pack 0
        → Keeps files packing max_archive_bytes
            (add_named files packing max_archive_bytes path pack name)
    unfolding add_named outside ◌>>=◌ pure
    add_named-Keeps path pack none room s = tt
    add_named-Keeps path pack (some name) room s = elim (Bool-cases (mem name pack.seen)) [
      | inl e ↦ rw e room
      | inr e ↦ elim (Bool-cases (ltb max_archive_files (suc pack.count))) [
        | inl many ↦ rw (e, many) tt
        | inr few ↦
            rw (e, few)
              (after_info-Keeps name path
                (record pack { seen = name ∷ pack.seen; count = suc pack.count }) _
                (λ info found. sizes path s.world info found)
                (record {
                  sized = room.sized;
                  small = room.small;
                  each = omega (arith, room.each);
                  few = ground (arith, few);
                })
                (omega (arith, room.each)) _)
      ]
    ]

    and_then-Good :
        (result : Result) (rest : Pack → Run (State files) Result) (s : State files)
        → Good result
        → ((pack : Pack) → Room pack 0 → Keeps files packing max_archive_bytes (rest pack))
        → Good (and_then files packing max_archive_bytes result rest s).0
    unfolding pure
    and_then-Good (inl pack) rest s room keeps = keeps pack room s
    and_then-Good (inr failure) rest s room keeps = tt

    add_entries-Keeps :
        (workspace : Bytes) (paths : List Bytes) (pack : Pack)
        → Room pack 0
        → Keeps files packing max_archive_bytes
            (add_entries files packing max_archive_bytes workspace paths pack)
    unfolding add_entries ◌>>=◌ pure
    add_entries-Keeps workspace [] pack room s = room
    add_entries-Keeps workspace (path ∷ paths) pack room s =
        and_then-Good _ _ _ (add_named-Keeps path pack (packing.relative_to workspace path) room s)
          (λ pack' room'. add_entries-Keeps workspace paths pack' room')

    after_walk-Keeps :
        (workspace : Bytes) (pack : Pack) (visited : Option (List (Bytes × Bool)))
        → Room pack 0
        → Keeps files packing max_archive_bytes
            (after_walk files packing max_archive_bytes workspace pack visited)
    unfolding after_walk after_supported pure
    after_walk-Keeps workspace pack none room s = tt
    after_walk-Keeps workspace pack (some visited) room s =
        elim (supported visited)
          as (λ o. Good (after_supported files packing max_archive_bytes workspace pack o s).0) [
            | none ↦ tt
            | some paths ↦ add_entries-Keeps workspace (sort_strings paths) pack room s
          ]

    after_lstat-Keeps :
        (workspace root : Bytes) (pack : Pack) (found : Option Kind)
        → Room pack 0
        → Keeps files packing max_archive_bytes
            (after_lstat files packing max_archive_bytes workspace root pack found)
    unfolding after_lstat ◌>>=◌ pure
    after_lstat-Keeps workspace root pack none room s = tt
    after_lstat-Keeps workspace root pack (some absent) room s = tt
    after_lstat-Keeps workspace root pack (some link) room s =
        after_walk-Keeps workspace pack _ room _
    after_lstat-Keeps workspace root pack (some other) room s =
        after_walk-Keeps workspace pack _ room _

    after_clean-Keeps :
        (cwd : Option Bytes) (workspace : Bytes) (pack : Pack) (relative : Option Bytes)
        → Room pack 0
        → Keeps files packing max_archive_bytes
            (after_clean files packing max_archive_bytes cwd workspace pack relative)
    unfolding after_clean after_root after_reject ◌>>=◌ pure
    after_clean-Keeps cwd workspace pack none room s = tt
    after_clean-Keeps cwd workspace pack (some relative) room s =
        elim (Option-cases (workspace_path cwd workspace relative)) [
          | inl e ↦ rw (e, after_root) tt
          | inr (root, e) ↦
              let refused = reject_symlink_components files workspace relative s in
              rw e
                (elim refused.0
                  as (λ o.
                    Good
                      (after_reject files packing max_archive_bytes workspace root pack o
                        refused.1).0) [
                          | some failure ↦ tt
                          | none ↦ after_lstat-Keeps workspace root pack _ room _
                        ])
        ]

    add_paths-Keeps :
        (cwd : Option Bytes) (workspace : Bytes) (paths : List Bytes) (pack : Pack)
        → Room pack 0
        → Keeps files packing max_archive_bytes
            (add_paths files packing max_archive_bytes cwd workspace paths pack)
    unfolding add_paths ◌>>=◌ pure
    add_paths-Keeps cwd workspace [] pack room s = room
    add_paths-Keeps cwd workspace (path ∷ paths) pack room s =
        and_then-Good _ _ _
          (after_clean-Keeps cwd workspace pack (safe_workspace_relative path) room s)
          (λ pack' room'. add_paths-Keeps cwd workspace paths pack' room')

    finished-Bounded :
        (result : Result) (body : Bytes)
        → Good result
        → finished files packing max_archive_bytes result ≡ inl body
        → (written : List Packed) × (packing.finish written ≡ some body)
          × (length body ≤ max_archive_bytes)
          × (length written ≤ max_archive_files)
          × (content_size written ≤ max_expanded_bytes)
    unfolding finished closed
    finished-Bounded (inr failure) body room e = cc
    finished-Bounded (inl pack) body room e = elim (Option-cases (packing.finish pack.written)) [
      | inl failed ↦
          let e' : ◌≡◌ {A = Bytes ⊎ Failure} (inr close_failed) (inl body) =
            rw (failed, closed) at e in
          absurd (apart e')
      | inr (made, same) ↦ elim (Bool-cases (ltb max_archive_bytes (length made))) [
        | inl long ↦
            let e' : ◌≡◌ {A = Bytes ⊎ Failure} (inr upload_limit) (inl body) =
              rw (same, closed, long) at e in
            absurd (apart e')
        | inr fits ↦
            let e' : made ≡ body = left (rw (same, closed, fits) at e) in
            (
              pack.written,
              same ∙ ap some e',
              ground (arith, fits, ap length e'),
              omega (arith, room.each, room.few),
              omega (arith, room.sized, room.small),
            )
      ]
    ]

-- An archive that createArchive gives is no longer than the limit of uploads, and is that of at most
-- 10,000 entries with at most a billion bytes in their files, if no file has 2 ^ 62 bytes or more.
pub create_archive-Bounded :
    (files : Files) (packing : Packing files.World) (max_archive_bytes : ℕ) (cwd : Option Bytes)
    (workspace body : Bytes) (paths : List Bytes) (s : State files)
    → ((path : Bytes) (w : files.World) (info : Info)
        → (packing.inspect path w).0 ≡ some info
        → info.size < 2 ^ 62)
    → (create_archive files packing max_archive_bytes cwd workspace paths s).0 ≡ inl body
    → (written : List Packed) × (packing.finish written ≡ some body)
      × (length body ≤ max_archive_bytes)
      × (length written ≤ max_archive_files)
      × (content_size written ≤ max_expanded_bytes)
unfolding create_archive ◌>>=◌ pure
create_archive-Bounded files packing max_archive_bytes cwd workspace body paths s sizes e =
    elim (Bool-cases (is_empty paths)) [
      | inl empty ↦
          let e' : ◌≡◌ {A = Bytes ⊎ Failure} (inr no_paths) (inl body) = rw empty at e in
          absurd (apart e')
      | inr some_path ↦
          let first : Pack = record { seen = []; count = 0; expanded = 0; written = [] } in
          let room : Room first 0 = record {
            sized = refl;
            small = omega arith;
            each = omega arith;
            few = omega arith;
          } in
          finished-Bounded files packing max_archive_bytes sizes _ body
            (add_paths-Keeps files packing max_archive_bytes sizes cwd workspace paths first room s)
            (rw some_path at e)
    ]
