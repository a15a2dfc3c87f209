-- ===== src/Executor/Options.antt =====
-- stringList of executor.go: a list of paths among the options of a built-in step.
use robine_ci.Prelude.{Option, none, some, List, [], ◌∷◌, if◌then◌else◌, ◌⊎◌, inl, inr}
use robine_ci.Prelude.Bytes.{Bytes, codes, bytes_eq}
use robine_ci.Offer.{Json, Items, is_empty}

-- `options[key]`
unfoldable pub option_at : Bytes → List (Bytes × Json) → Option Json
option_at key [] = none
option_at key ((k, value) ∷ options) =
    let rest = option_at key options in if bytes_eq k key then some value else rest

-- The paths, or the text of the error.
abbrev pub Paths : Type 0
Paths = List Bytes ⊎ Bytes

cons_path : Bytes → Paths → Paths
cons_path path (inl paths) =
    if is_empty path then inr (codes "paths must contain strings") else inl (path ∷ paths)
cons_path path (inr text) = inr text

entries : Items → Paths
unfolding cons_path
entries Items.nil = inl []
entries (Items.cons (Json.text path) items) = cons_path path (entries items)
entries (Items.cons _ items) = inr (codes "paths must contain strings")

unfoldable pub string_list : Option Json → Paths
unfolding entries
string_list (some (Json.array (Items.cons entry items))) = entries (Items.cons entry items)
string_list _ = inr (codes "paths must be a non-empty list")
