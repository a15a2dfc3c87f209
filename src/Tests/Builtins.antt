-- ===== src/Tests/Builtins.antt =====
-- Tests of the built-in steps: an archive of one file is made, and a cache is restored.
use robine_ci.Prelude.{
  ◌^◌, ◌≤◌, ◌<◌, ◌≡◌, refl, arith, true, false, Option, none, some, List, [], ◌∷◌, inl, length,
  ◌||◌,
}
use robine_ci.Prelude.Bytes.{Bytes, codes, bytes_eq}
use robine_ci.Redactor.{begins_with}
use robine_ci.Run.{pure, ◌>>=◌}
use robine_ci.Offer.{JobStep, Json}
use robine_ci.Strings.{sort_strings, insert_sorted, to_lower, lower, contains, replace_all}
use robine_ci.Archive.{
  split, cons_first, join_parts, is_rooted, push_part, clean_onto, unstack, clean, drop_empty,
  join_path, replace_backslashes, trim_slash, contains_nul, is_unsafe_part, any_unsafe,
  strip_source, safe_archive_name, workspace_path, absolute, safe_workspace_relative,
}
use robine_ci.Archive.Limits.{charge, is_negative, is_greater, max_expanded_bytes}
use robine_ci.Config.Files.{directory_of, through_slash}
use robine_ci.Archive.Extract.{
  outside, making, judge, walk, reject_symlink_components, extract_entry, extract_entries,
  extract_archive, file_mode, max_archive_files,
}
use robine_ci.Archive.Create.{
  Packing, Packed, Info, supported, within_limit, add_entries, add_paths, finished, create_archive,
}
use robine_ci.Archive.Create.Entries.{content_size}
use robine_ci.Archive.Create.Bounded.{create_archive-Bounded}
use robine_ci.Docker.Arguments.{mem}
use robine_ci.Transfer.{Http, Client, equal_fold, get_request, get_transfer}
use robine_ci.Executor.Options.{option_at}
use robine_ci.Executor.Builtins.{
  Failure, Both, on_files, on_http, text_option, resolved_artifact_name, execute_builtin,
}
use robine_ci.Executor.Builtins.Verified.{Fine, execute_builtin-Unpacked}
use robine_ci.Tests.Unpacking.{memory, small_archive, workspace, workspace_deep, linked}

abbrev small_file : Info
small_file = record { is_regular = true; is_dir = false; size = 2 }

abbrev one_file : Packing Bytes
one_file = record {
  walk_dir = λ root w. (some ((root, true) ∷ []), w);
  relative_to = λ base path. some (codes "a");
  inspect = λ path w. (some small_file, w);
  write_header = λ entry w. (true, w);
  open_file = λ path w. (true, w);
  copy_in = λ path w. (true, w);
  buffered = λ written. 10;
  finish = λ written. some (codes "gz");
}

some_info : (info : Info) → some small_file ≡ some info → info.size < 2 ^ 62
some_info info e = let e' : small_file ≡ info = cc in rw (← e') (omega arith)

made_archive :
    (create_archive memory one_file 20 none workspace (codes "a" ∷ []) (linked [])).0
    ≡ inl (codes "gz")
unfolding begins_with split cons_first join_parts is_rooted push_part clean_onto unstack clean
    drop_empty join_path contains_nul bytes_eq workspace_path absolute safe_workspace_relative
    is_negative is_greater outside judge walk reject_symlink_components supported within_limit
    add_entries add_paths finished create_archive mem sort_strings insert_sorted pure ◌>>=◌
made_archive = refl

create_archive-Bounded_example :
    (written : List Packed) × (one_file.finish written ≡ some (codes "gz"))
    × (length (codes "gz") ≤ 20)
    × (length written ≤ max_archive_files)
    × (content_size written ≤ max_expanded_bytes)
create_archive-Bounded_example =
    create_archive-Bounded memory one_file 20 none workspace (codes "gz") (codes "a" ∷ [])
      (linked []) (λ path w info e. some_info info e) made_archive

abbrev server : Http
server = record {
  World = Unit {0};
  call = λ request w. (
    some (record { status = 200; content_digest = codes "AB"; body = codes "gz"; complete = true }),
    w,
  );
  digest = λ body. codes "ab";
  decode_digest = λ answer. none;
  encode_enrollment = λ token name. [];
  decode_enrollment = λ answer. none;
}

abbrev client : Client
client = record { runner_id = codes "r"; credential = codes "c"; max_archive_bytes = 20 }

abbrev restore : JobStep
restore = record {
  name = codes "cache";
  kind = codes "uses";
  value = codes "cache/restore";
  condition = codes "success";
  options = (codes "key", Json.text (codes "k")) ∷ [];
}

abbrev restored : Option Failure × Both memory one_file server
restored =
    execute_builtin memory one_file server client (λ body. some small_archive)
      (λ endpoint query. some endpoint) (codes "linux") (codes "amd64") none (codes "https://ci/b")
      workspace restore (linked [], tt)

restores : restored.0 ≡ none
unfolding begins_with safe_archive_name split cons_first join_parts is_rooted push_part clean_onto
    unstack clean drop_empty join_path replace_backslashes trim_slash contains_nul is_unsafe_part
    any_unsafe strip_source bytes_eq workspace_path absolute charge is_negative is_greater
    directory_of through_slash outside making judge walk reject_symlink_components extract_entry
    extract_entries extract_archive file_mode equal_fold to_lower lower get_request get_transfer
    option_at on_files on_http text_option execute_builtin pure ◌>>=◌
restores = refl

named_by_system :
    resolved_artifact_name
      (codes "linux")
      (codes "amd64")
      (some (Json.text (codes "app-${{ runner.os }}")))
    ≡ some (codes "app-linux")
unfolding begins_with bytes_eq contains replace_all resolved_artifact_name
named_by_system = refl

no_upload :
    bytes_eq restore.value (codes "artifacts/upload") || bytes_eq restore.value (codes "cache/save")
    ≡ false
unfolding bytes_eq
no_upload = refl

execute_builtin-Unpacked_example :
    Fine memory one_file server client
      (λ body. some small_archive)
      (λ endpoint query. some endpoint)
      (codes "linux")
      (codes "amd64")
      none
      (codes "https://ci/b")
      workspace
      tt
      (linked [])
      restored.1
unfolding is_rooted
execute_builtin-Unpacked_example =
    execute_builtin-Unpacked memory one_file server client (λ body. some small_archive)
      (λ endpoint query. some endpoint) (codes "linux") (codes "amd64") none (codes "https://ci/b")
      workspace refl workspace_deep restore (linked []) tt no_upload refl
