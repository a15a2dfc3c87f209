-- ===== src/Tests/Paths.antt =====
-- Tests of the archive's paths and limits.
use robine_ci.Prelude.{
  ℕ, ◌+◌, ◌≡◌, ◌≢◌, refl, sym, ap, ◌∙◌, arith, length, true, none, some, [], ◌∷◌, ◌++◌,
}
use robine_ci.Prelude.Bytes.{Bytes, codes, bytes_eq}
use robine_ci.Redactor.{begins_with}
use robine_ci.Archive.{
  slash, split, cons_first, join_parts, is_rooted, push_part, clean_onto, unstack, clean,
  drop_empty, join_path, replace_backslashes, trim_slash, contains_nul, is_unsafe_part, any_unsafe,
  strip_source, safe_archive_name, safe_workspace_relative, workspace_path,
}
use robine_ci.Archive.Limits.{charge, is_negative, charge_overflow}
use robine_ci.Archive.Relative.{relative_path_inside}
use robine_ci.Archive.Names.{archive_entry_inside}

abbrev raw_name : Bytes
raw_name = codes "source/a/b/"

abbrev directory : Bytes
directory = codes "/tmp/./x/"

name_ab : safe_archive_name raw_name true ≡ some (codes "a/b")
unfolding safe_archive_name split cons_first join_parts is_rooted push_part clean_onto unstack clean
    drop_empty join_path replace_backslashes trim_slash contains_nul is_unsafe_part any_unsafe
    strip_source bytes_eq
name_ab = refl

escape_refused : safe_archive_name (codes "source/../b") true ≡ none
unfolding safe_archive_name split cons_first is_rooted replace_backslashes trim_slash contains_nul
    is_unsafe_part any_unsafe bytes_eq
escape_refused = refl

up_refused : safe_workspace_relative (codes "a/../../b") ≡ none
unfolding begins_with safe_workspace_relative split cons_first join_parts is_rooted push_part
    clean_onto unstack clean contains_nul bytes_eq
up_refused = refl

directory_clean : clean directory ≡ codes "/tmp/x"
unfolding split cons_first join_parts is_rooted push_part clean_onto unstack clean bytes_eq
directory_clean = refl

deep : clean directory ≢ slash ∷ []
deep e =
    let e' : codes "/tmp/x" ≡ slash ∷ [] = sym directory_clean ∙ e in omega (arith, ap length e')

archive_entry_inside_example :
    workspace_path none directory (codes "a/b") ≡ some (clean directory ++ slash ∷ codes "a/b")
unfolding is_rooted
archive_entry_inside_example =
    archive_entry_inside raw_name true (codes "a/b") directory none name_ab (λ e. cc) refl deep

abbrev three_hundred : ℕ
three_hundred = 300

abbrev five : ℕ
five = 5

charge_overflow_example :
    (charge 50 1 9_223_372_036_854_775_807 ≡ some (1 + 9_223_372_036_854_775_807))
    × (is_negative (1 + 9_223_372_036_854_775_807) ≡ true)
charge_overflow_example =
    charge_overflow 50 1 9_223_372_036_854_775_807 (omega arith) (omega arith) (omega arith)
      (omega arith)

relative_kept : safe_workspace_relative (codes "a/../b") ≡ some (codes "b")
unfolding begins_with safe_workspace_relative split cons_first join_parts is_rooted push_part
    clean_onto unstack clean contains_nul bytes_eq
relative_kept = refl

relative_path_inside_example :
    workspace_path none directory (codes "b") ≡ some (clean directory ++ slash ∷ codes "b")
unfolding is_rooted
relative_path_inside_example =
    relative_path_inside (codes "a/../b") (codes "b") directory none relative_kept refl deep
