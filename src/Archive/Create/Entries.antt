-- ===== src/Archive/Create/Entries.antt =====
-- What one entry adds to an archive that createArchive makes.
use robine_ci.Prelude.{
  ℕ, suc, ◌+◌, ◌%◌, ◌^◌, ◌≤◌, ◌<◌, ◌≡◌, Bool, true, false, List, [], ◌∷◌, ◌++◌, inl, inr, ltb,
  length, length-append, arith, Bool-cases, if◌then◌else◌,
}
use robine_ci.Prelude.Bytes.{Bytes}
use robine_ci.Run.{Run, pure, ◌>>=◌}
use robine_ci.Archive.Limits.{is_greater, is_negative, max_expanded_bytes}
use robine_ci.Archive.Extract.{Files, State, outside, max_archive_files}
use robine_ci.Archive.Create.{
  Packed, Packing, Pack, Result, within_limit, after_open, write_data, after_header,
}

-- The bytes of the regular files.
abbrev pub content_size : List Packed → ℕ
content_size [] = 0
content_size (entry ∷ entries) =
    (if entry.info.is_regular then entry.info.size else 0) + content_size entries

content_size-append :
    (xs : List Packed) (e : Packed)
    → content_size (xs ++ e ∷ []) ≡ content_size xs + (if e.info.is_regular then e.info.size else 0)
content_size-append [] e = omega arith
content_size-append (x ∷ xs) e = omega (arith, content_size-append xs e)

-- What the loops keep within the limits; `Room` before an entry's bytes are counted.
pub record Room (pack : Pack) (size : ℕ) : Type 0 where
  pub sized : pack.expanded + size ≡ content_size pack.written
  pub small : pack.expanded ≤ max_expanded_bytes
  pub each : length pack.written ≤ pack.count
  pub few : pack.count ≤ max_archive_files

abbrev pub Good : Result → Type 0
Good (inl pack) = Room pack 0
Good (inr failure) = Unit

module _ (files : Files) (packing : Packing files.World) (max_archive_bytes : ℕ) where
  abbrev pub Keeps : Run (State files) Result → Type 0
  Keeps m = (s : State files) → Good (m s).0

  within_limit-Good :
      (pack : Pack) → Room pack 0 → Good (within_limit files packing max_archive_bytes pack)
  unfolding within_limit
  within_limit-Good pack room =
      elim (Bool-cases (ltb max_archive_bytes (packing.buffered pack.written))) [
        | inl e ↦ rw e tt
        | inr e ↦ rw e room
      ]

  after_open-Keeps :
      (path : Bytes) (pack : Pack) (ok : Bool)
      → Room pack 0
      → Keeps (after_open files packing max_archive_bytes path pack ok)
  unfolding after_open ◌>>=◌ pure
  after_open-Keeps path pack false room s = tt
  after_open-Keeps path pack true room s =
      elim (Bool-cases (outside files (packing.copy_in path) s).0) [
        | inl e ↦ rw e (within_limit-Good pack room)
        | inr e ↦ rw e tt
      ]

  no_wrap : (a b : ℕ) → a ≤ max_expanded_bytes → b < 2 ^ 62 → (a + b) % 2 ^ 64 ≡ a + b
  no_wrap a b h k = omega arith

  not_greater :
      (a : ℕ) → a < 2 ^ 63 → is_greater a max_expanded_bytes ≡ false → a ≤ max_expanded_bytes
  unfolding is_greater is_negative
  not_greater a h e = ground (arith, e)

  write_data-Keeps :
      (entry : Packed) (pack : Pack)
      → entry.info.size < 2 ^ 62
      → Room pack (if entry.info.is_regular then entry.info.size else 0)
      → Keeps (write_data files packing max_archive_bytes entry pack)
  unfolding write_data ◌>>=◌ pure
  write_data-Keeps entry pack sized room s = elim (Bool-cases entry.info.is_regular) [
    | inr e ↦
        let room' : Room pack 0 = record {
          sized = ground (arith, room.sized, e);
          small = room.small;
          each = room.each;
          few = room.few;
        } in
        rw e (within_limit-Good pack room')
    | inl e ↦
        let total = (pack.expanded + entry.info.size) % 2 ^ 64 in
        let same = no_wrap pack.expanded entry.info.size room.small sized in
        rw e (elim (Bool-cases (is_greater total max_expanded_bytes)) [
          | inl far ↦ rw far tt
          | inr near ↦ rw near (
              after_open-Keeps entry.path (record pack { expanded = total }) _
                (record {
                  sized = ground (arith, room.sized, e, same);
                  small = not_greater total (omega (arith, same, room.small, sized)) near;
                  each = room.each;
                  few = room.few;
                })
                _)
        ])
  ]

  pub after_header-Keeps :
      (entry : Packed) (pack : Pack) (ok : Bool)
      → entry.info.size < 2 ^ 62
      → Room pack 0
      → suc (length pack.written) ≤ pack.count
      → Keeps (after_header files packing max_archive_bytes entry pack ok)
  unfolding after_header pure
  after_header-Keeps entry pack false sized room next s = tt
  after_header-Keeps entry pack true sized room next s =
      write_data-Keeps entry _ sized
        (record {
          sized = omega (arith, room.sized, content_size-append pack.written entry);
          small = room.small;
          each = omega (arith, length-append {0} pack.written (entry ∷ []), next);
          few = room.few;
        })
        s
