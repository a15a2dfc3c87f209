-- ===== src/Executor/Builtins.antt =====
-- executeBuiltin of runner-go/internal/runner/executor.go, with integerOption and resolvedArtifactName: the
-- built-in steps move archives between the workspace and the server. The state is that of the
-- unpacking (Archive/Extract) with the world of Transfer. runtime.GOOS and runtime.GOARCH are arguments, and
-- so is `with_query`, which is url.Parse with the query set; it gives nothing for a malformed URL, on
-- which the code goes on with a nil pointer.
pub mod Verified
use robine_ci.Prelude.{
  ℕ, suc, Bool, true, false, not, ◌||◌, ◌&&◌, Option, none, some, List, [], ◌∷◌, ◌++◌, ◌⊎◌, inl,
  inr, ◌==◌, ltb, leb, length, if◌then◌else◌,
}
use robine_ci.Prelude.Bytes.{Bytes, codes, bytes_eq}
use robine_ci.Prelude.Int.{ℤ, pos, negsuc}
use robine_ci.Run.{Run, pure, ◌>>=◌, ◌>>◌}
use robine_ci.Offer.{Json, JobStep, is_empty}
use robine_ci.Strings.{contains, replace_all, print_nat}
use robine_ci.Archive.{dot, workspace_path}
use robine_ci.Archive.Extract.{
  Files, State, Entries, outside, making, reject_symlink_components, extract_archive,
}
use robine_ci.Archive.Create.{Packing, create_archive}
use robine_ci.Transfer.{Http, Client, Download, get_transfer, put_transfer}
use robine_ci.Executor.Options.{option_at, string_list}

pub data Failure : Type 0 where
  bad_paths not_created bad_name bad_retention upload_failed bad_key bad_download panicked
        download_failed missing_digest escapes link_traversed directory_failed not_extracted
        unsupported :
      Failure
  http_status : ℕ → Failure

-- Absent, or null, is the fallback; a number that is no integer is refused.
unfoldable pub integer_option : Option Json → ℤ → Option ℤ
integer_option none fallback = some fallback
integer_option (some Json.null) fallback = some fallback
integer_option (some (Json.integer n)) fallback = some n
integer_option (some _) fallback = none

is_alphanumeric : ℕ → Bool
is_alphanumeric c =
    (leb b'a' c && leb c b'z') || (leb b'A' c && leb c b'Z') || (leb b'0' c && leb c b'9')

all_name_bytes : Bytes → Bool
unfolding is_alphanumeric
all_name_bytes [] = true
all_name_bytes (c ∷ s) =
    (is_alphanumeric c || c == b'.' || c == b'_' || c == b'-') && all_name_bytes s

-- artifactNamePattern
matches_name : Bytes → Bool
unfolding is_alphanumeric all_name_bytes
matches_name [] = false
matches_name (c ∷ s) = is_alphanumeric c && all_name_bytes s && leb (length s) 127

resolved_name : Bytes → Bytes → Bytes → Option Bytes
unfolding matches_name
resolved_name os architecture text =
    let name =
      replace_all (replace_all text (codes "${{ runner.os }}") os) (codes "${{ runner.arch }}")
        architecture in
    if contains name (codes "${{") || not (matches_name name) then none else some name

unfoldable pub resolved_artifact_name : Bytes → Bytes → Option Json → Option Bytes
unfolding resolved_name
resolved_artifact_name os architecture (some (Json.text text)) = resolved_name os architecture text
resolved_artifact_name os architecture _ = none

-- An option that is a text and not empty.
unfoldable pub text_option : Option Json → Option Bytes
text_option (some (Json.text (c ∷ s))) = some (c ∷ s)
text_option _ = none

retention_days : Option ℤ → Option ℕ
retention_days (some (pos n)) = if ltb n 1 || ltb 90 n then none else some n
retention_days _ = none

module _ (files : Files) (packing : Packing files.World) (http : Http) where
  abbrev pub Both : Type 0
  Both = State files × http.World

  abbrev Act : Type 0 → Type 0
  Act = Run Both

  unfoldable pub on_files : {A : Type 0} → Run (State files) A → Act A
  on_files m s = let (a, t) = m s.0 in (a, (t, s.1))

  unfoldable pub on_http : {A : Type 0} → Run http.World A → Act A
  on_http m s = let (a, w) = m s.1 in (a, (s.0, w))

  module _ (client : Client) (unpack : Bytes → Option Entries)
      (with_query : Bytes → List (Bytes × Bytes) → Option Bytes) (os architecture : Bytes)
      (cwd : Option Bytes) (builtins_url workspace : Bytes) where
    send_archive : Bytes → List (Bytes × Bytes) → Bytes → Act (Option Failure)
    send_archive endpoint query body = do
      failed ← on_http (put_transfer http client (builtins_url ++ endpoint) query body)
      pure (elim failed [ none ↦ none | some failure ↦ some upload_failed ])

    upload_artifact : Bytes → Option ℕ → Bytes → Act (Option Failure)
    upload_artifact name none body = pure (some bad_retention)
    upload_artifact name (some days) body =
        send_archive (codes "/artifacts")
          ((codes "name", name) ∷ (codes "retention_days", print_nat days) ∷ []) body

    after_name : JobStep → Bytes → Option Bytes → Act (Option Failure)
    unfolding upload_artifact
    after_name step body none = pure (some bad_name)
    after_name step body (some name) =
        upload_artifact name
          (retention_days
            (integer_option (option_at (codes "retention-days") step.options) (pos 7)))
          body

    save_cache : Bytes → Option Bytes → Act (Option Failure)
    save_cache body none = pure (some bad_key)
    save_cache body (some key) = send_archive (codes "/cache") ((codes "key", key) ∷ []) body

    after_create : {E : Type 0} → JobStep → Bytes ⊎ E → Act (Option Failure)
    unfolding after_name save_cache
    after_create step (inr failure) = pure (some not_created)
    after_create step (inl body) =
        if bytes_eq step.value (codes "artifacts/upload")
        then after_name step body
            (resolved_artifact_name os architecture (option_at (codes "name") step.options))
        else save_cache body (text_option (option_at (codes "key") step.options))

    upload : {E : Type 0} → JobStep → List Bytes ⊎ E → Act (Option Failure)
    unfolding after_create
    upload step (inr text) = pure (some bad_paths)
    upload step (inl paths) = do
      archive ← on_files (create_archive files packing client.max_archive_bytes cwd workspace paths)
      after_create step archive

    after_make : Bytes → Bytes → Bool → Act (Option Failure)
    after_make body target false = pure (some directory_failed)
    after_make body target true = do
      failed ← on_files (extract_archive files unpack cwd body target false)
      pure (elim failed [ none ↦ none | some failure ↦ some not_extracted ])

    after_reject : {E : Type 0} → Bytes → Bytes → Option E → Act (Option Failure)
    unfolding after_make
    after_reject body target (some refused) = pure (some link_traversed)
    after_reject body target none = do
      made ← on_files (making files target (files.make_dirs target))
      after_make body target made

    after_target : Bytes → Bytes → Option Bytes → Act (Option Failure)
    unfolding after_reject
    after_target body destination none = pure (some escapes)
    after_target body destination (some target) = do
      refused ← on_files (reject_symlink_components files workspace destination)
      after_reject body target refused

    after_get : {E : Type 0} → Bytes → Bytes → Download ⊎ E → Act (Option Failure)
    unfolding after_target
    after_get value destination (inr failure) = pure (some download_failed)
    after_get value destination (inl d) =
        if d.status == 204 && bytes_eq value (codes "cache/restore")
        then pure none
        else if not (d.status == 200)
        then pure (some (http_status d.status))
        else if is_empty d.content_digest
        then pure (some missing_digest)
        else after_target d.body destination (workspace_path cwd workspace destination)

    download_from : Bytes → Bytes → Option Bytes → Act (Option Failure)
    unfolding after_get
    download_from value destination none = pure (some panicked)
    download_from value destination (some url) = do
      result ← on_http (get_transfer http client url (codes "application/gzip"))
      after_get value destination result

    or_dot : Option Bytes → Bytes
    or_dot none = dot
    or_dot (some path) = path

    download_artifact : JobStep → Option Bytes → Option Bytes → Act (Option Failure)
    unfolding download_from or_dot
    download_artifact step (some name) (some from) =
        download_from step.value (or_dot (text_option (option_at (codes "path") step.options))) (
          with_query (builtins_url ++ codes "/artifacts")
            ((codes "from", from) ∷ (codes "name", name) ∷ []))
    download_artifact step _ _ = pure (some bad_download)

    restore_cache : JobStep → Option Bytes → Act (Option Failure)
    unfolding download_from
    restore_cache step none = pure (some bad_key)
    restore_cache step (some key) =
        download_from step.value dot
          (with_query (builtins_url ++ codes "/cache") ((codes "key", key) ∷ []))

    abbrev option : JobStep → Bytes → Option Bytes
    option step key = text_option (option_at key step.options)

    -- The error, or none.
    unfoldable pub execute_builtin : JobStep → Act (Option Failure)
    unfolding upload download_artifact restore_cache send_archive retention_days
    execute_builtin step =
        if bytes_eq step.value (codes "artifacts/upload")
          || bytes_eq step.value (codes "cache/save")
        then upload step (string_list (option_at (codes "paths") step.options))
        else if bytes_eq step.value (codes "artifacts/download")
        then download_artifact step (option step (codes "name")) (option step (codes "from"))
        else if bytes_eq step.value (codes "cache/restore")
        then restore_cache step (option step (codes "key"))
        else pure (some unsupported)
