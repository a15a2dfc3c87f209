-- ===== src/Docker/Reconcile.antt =====
-- docker_executor.go: reconcileDocker, which removes what attempts that are over have left in the
-- engine. The name and the attempt of each resource are read from the output of a listing.
pub mod Safe
use robine_ci.Prelude.{
  ℕ, ◌≡◌, refl, sym, ap, ◌∙◌, Bool, true, false, not, ◌||◌, ◌&&◌, Option, none, some, List, [], ◌∷◌,
  ◌++◌, append-nil, append_assoc, if◌then◌else◌, Bool-cases, ◌⊎◌, inl, inr, In, All, All-append,
}
use robine_ci.Prelude.Bytes.{Bytes, codes}
use robine_ci.Offer.{is_empty}
use robine_ci.Run.{Run, pure, ◌>>=◌, ◌>>◌}
use robine_ci.Strings.{fields, split_at, trim_space}
use robine_ci.Executor.{Env, State, Context}
use robine_ci.Docker.{Failure, message, attempt_label, instance_label}
use robine_ci.Docker.Arguments.{mem}
use robine_ci.Docker.Calls.{
  Answer, docker_run, docker_command, docker_missing, failure_of, answer_of,
}
use robine_ci.Docker.Cleanup.{is_left, remove_container, remove_volume, remove_network}

pub data Kind : Type 0 where
  containers volumes networks : Kind

abbrev pub filters : Bytes → List Bytes
filters namespace =
    codes "--filter"
    ∷ (codes "label=" ++ attempt_label)
    ∷ codes "--filter"
    ∷ (codes "label=" ++ instance_label ++ codes "=" ++ namespace)
    ∷ []

-- The format in which the engine prints a name and the attempt that the resource belongs to.
abbrev format_of : Bytes → List Bytes
format_of name =
    codes "--format"
    ∷ (codes "{{" ++ name ++ codes "}} {{.Label " ++ 34 ∷ attempt_label ++ 34 ∷ codes "}}")
    ∷ []

unfoldable pub list_command : Bytes → Kind → List Bytes
list_command namespace containers =
    codes "ps" ∷ codes "--all" ∷ filters namespace ++ format_of (codes ".Names")
list_command namespace volumes =
    codes "volume" ∷ codes "ls" ∷ filters namespace ++ format_of (codes ".Name")
list_command namespace networks =
    codes "network" ∷ codes "ls" ∷ filters namespace ++ format_of (codes ".Name")

unfoldable pub remove_command : Kind → Bytes → List Bytes
remove_command containers name = remove_container name
remove_command volumes name = remove_volume name
remove_command networks name = remove_network name

-- What a line of a listing asks for.
pub data Line : Type 0 where
  blank malformed : Line
  resource : Bytes → Bytes → Line

unfoldable pub read_fields : List Bytes → Line
read_fields (name ∷ attempt ∷ []) = resource name attempt
read_fields _ = malformed

unfoldable pub read_line : Bytes → Line
unfolding read_fields
read_line line = if is_empty (trim_space line) then blank else read_fields (fields line)

unfoldable pub lines_of : Bytes → List Bytes
lines_of output = split_at 10 (trim_space output)

abbrev malformed_failure : Failure
malformed_failure = message (codes "invalid labeled Docker resource output")

module _ {env : Env} (ctx : Context) (active : List Bytes) where
  -- What follows the removal of a resource.
  after_removal :
      Run (State env) (Option Failure) → Option Failure → Run (State env) (Option Failure)
  after_removal rest none = rest
  after_removal rest (some failure) = if is_left (some failure) then pure (some failure) else rest

  take_line : Kind → Run (State env) (Option Failure) → Line → Run (State env) (Option Failure)
  unfolding after_removal
  take_line kind rest blank = rest
  take_line kind rest malformed = pure (some malformed_failure)
  take_line kind rest (resource name attempt) =
      if mem attempt active
      then rest
      else (do failed ← docker_run ctx (remove_command kind name); after_removal rest failed)

  reconcile_lines : Kind → List Bytes → Run (State env) (Option Failure)
  unfolding take_line
  reconcile_lines kind [] = pure none
  reconcile_lines kind (line ∷ lines) = take_line kind (reconcile_lines kind lines) (read_line line)

  listed : Kind → Answer → Run (State env) (Option Failure)
  listed kind (inl output) = reconcile_lines kind (lines_of output)
  listed kind (inr failure) = pure (some failure)

  module _ (namespace : Bytes) where
    reconcile_kinds : List Kind → Run (State env) (Option Failure)
    unfolding listed
    reconcile_kinds [] = pure none
    reconcile_kinds (kind ∷ kinds) = do
      answer ← docker_command ctx (list_command namespace kind)
      failed ← listed kind answer
      elim failed [ some failure ↦ pure (some failure) | none ↦ reconcile_kinds kinds ]

    -- The error, or none.
    pub reconcile : Run (State env) (Option Failure)
    unfolding reconcile_kinds
    reconcile = reconcile_kinds (containers ∷ volumes ∷ networks ∷ [])
