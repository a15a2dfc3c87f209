-- ===== src/Archive.antt =====
-- The paths of runner-go/internal/runner/archive.go: safeArchiveName, safeWorkspaceRelative and
-- workspacePath, with what they use of path/filepath on Unix. A path that is refused is `none`.
pub mod Parts
pub mod Inside
pub mod Anchors
pub mod Names
pub mod Relative
pub mod Limits
pub mod Extract
pub mod Create
use robine_ci.Prelude.{
  ℕ, Bool, true, false, ◌||◌, ◌&&◌, not, Option, none, some, List, [], ◌∷◌, ◌++◌, map, ltb, length,
  ◌==◌, if◌then◌else◌,
}
use robine_ci.Prelude.Bytes.{Bytes, codes, bytes_eq}
use robine_ci.Offer.{is_empty}
use robine_ci.Redactor.{begins_with}

abbrev pub slash : ℕ
slash = b'/'

abbrev pub dot : Bytes
dot = codes "."

abbrev pub dots : Bytes
dots = codes ".."

abbrev pub max_archive_path_size : ℕ
max_archive_path_size = 4096

-- strings.Split(path, "/")
unfoldable pub cons_first : ℕ → List Bytes → List Bytes
cons_first c [] = (c ∷ []) ∷ []
cons_first c (p ∷ ps) = (c ∷ p) ∷ ps

unfoldable pub split : Bytes → List Bytes
split [] = [] ∷ []
split (c ∷ s) = let rest = split s in if c == slash then [] ∷ rest else cons_first c rest

-- strings.Join(parts, "/")
unfoldable pub join_parts : List Bytes → Bytes
join_parts [] = []
join_parts (p ∷ []) = p
join_parts (p ∷ q ∷ ps) = p ++ slash ∷ join_parts (q ∷ ps)

unfoldable pub is_rooted : Bytes → Bool
is_rooted [] = false
is_rooted (c ∷ s) = c == slash

-- filepath.Clean: the parts so far, the last one first, and one more part.
pub back : Bool → List Bytes → List Bytes
back rooted [] = if rooted then [] else dots ∷ []
back rooted (top ∷ stack) = if bytes_eq top dots then dots ∷ top ∷ stack else stack

unfoldable pub push_part : Bool → List Bytes → Bytes → List Bytes
unfolding back
push_part rooted stack p =
    if is_empty p || bytes_eq p dot
    then stack
    else if bytes_eq p dots
    then back rooted stack
    else p ∷ stack

unfoldable pub clean_onto : Bool → List Bytes → List Bytes → List Bytes
clean_onto rooted stack [] = stack
clean_onto rooted stack (p ∷ ps) = clean_onto rooted (push_part rooted stack p) ps

unfoldable pub unstack : List Bytes → List Bytes → List Bytes
unstack [] parts = parts
unstack (p ∷ stack) parts = unstack stack (p ∷ parts)

abbrev pub clean_parts : Bytes → List Bytes
clean_parts path = unstack (clean_onto (is_rooted path) [] (split path)) []

unfoldable pub clean : Bytes → Bytes
clean path =
    if is_rooted path
    then slash ∷ join_parts (clean_parts path)
    else if is_empty (clean_parts path)
    then dot
    else join_parts (clean_parts path)

-- filepath.Join: empty elements are dropped.
unfoldable pub drop_empty : List Bytes → List Bytes
drop_empty [] = []
drop_empty (p ∷ ps) = let rest = drop_empty ps in if is_empty p then rest else p ∷ rest

pub join_kept : List Bytes → Bytes
join_kept [] = []
join_kept (p ∷ ps) = clean (join_parts (p ∷ ps))

unfoldable pub join_path : List Bytes → Bytes
unfolding join_kept
join_path elements = join_kept (drop_empty elements)

-- filepath.Abs; the first argument is the working directory, if there is one.
unfoldable pub absolute : Option Bytes → Bytes → Option Bytes
absolute cwd path =
    if is_rooted path
    then some (clean path)
    else elim cwd [ none ↦ none | some dir ↦ some (join_path (dir ∷ path ∷ [])) ]

-- `strings.ReplaceAll(name, "\\", "/")`
unfoldable pub replace_backslashes : Bytes → Bytes
replace_backslashes [] = []
replace_backslashes (c ∷ s) = (if c == 92 then slash else c) ∷ replace_backslashes s

-- `strings.TrimSuffix(name, "/")`
unfoldable pub trim_slash : Bytes → Bytes
trim_slash [] = []
trim_slash (c ∷ []) = if c == slash then [] else c ∷ []
trim_slash (c ∷ d ∷ s) = c ∷ trim_slash (d ∷ s)

unfoldable pub contains_nul : Bytes → Bool
contains_nul [] = false
contains_nul (c ∷ s) = c == 0 || contains_nul s

unfoldable pub is_unsafe_part : Bytes → Bool
is_unsafe_part p = is_empty p || bytes_eq p dot || bytes_eq p dots

unfoldable pub any_unsafe : List Bytes → Bool
any_unsafe [] = false
any_unsafe (p ∷ ps) = is_unsafe_part p || any_unsafe ps

unfoldable pub strip_source : Bool → List Bytes → Option Bytes
strip_source false parts = some (join_path parts)
strip_source true [] = none
strip_source true (p ∷ []) = if bytes_eq p (codes "source") then some [] else none
strip_source true (p ∷ q ∷ parts) =
    if bytes_eq p (codes "source") then some (join_path (q ∷ parts)) else none

abbrev pub archive_name : Bytes → Bytes
archive_name name = trim_slash (replace_backslashes name)

unfoldable pub safe_archive_name : Bytes → Bool → Option Bytes
safe_archive_name raw strip_root =
    let name = archive_name raw in
    if is_empty name
      || ltb max_archive_path_size (length name)
      || contains_nul name
      || is_rooted name
    then none
    else if any_unsafe (split name)
    then none
    else strip_source strip_root (split name)

unfoldable pub safe_workspace_relative : Bytes → Option Bytes
safe_workspace_relative path =
    let cleaned = clean path in
    if is_empty path
      || is_rooted path
      || bytes_eq cleaned dot
      || bytes_eq cleaned dots
      || begins_with cleaned (codes "../")
      || ltb max_archive_path_size (length cleaned)
      || contains_nul cleaned
    then none
    else some cleaned

pub within : Bytes → Bytes → Option Bytes
within root target =
    if not (bytes_eq target root) && not (begins_with target (root ++ slash ∷ []))
    then none
    else some target

unfoldable pub workspace_path : Option Bytes → Bytes → Bytes → Option Bytes
unfolding within
workspace_path cwd workspace relative = elim (absolute cwd workspace) [
  | none ↦ none
  | some root ↦ elim (absolute cwd (join_path (workspace ∷ relative ∷ []))) [
    | none ↦ none
    | some target ↦ within root target
  ]
]
