-- ===== src/Docker/Calls.antt =====
-- docker_executor.go: one command of the Docker engine, and what is asked of the engine with one or
-- two: dockerCommand, dockerReady, acquireDockerImage, dockerContainerRunning, dockerServicesRunning,
-- dockerMissing, dockerServiceDiagnostic and safeDockerError.
use robine_ci.Prelude.{
  ℕ, ◌-◌, ◌≤◌, Bool, true, false, ◌||◌, Option, none, some, List, [], ◌∷◌, ◌++◌, ltb, length, take,
  drop, if◌then◌else◌, ◌⊎◌, inl, inr, arith, length-take, length-drop,
}
use robine_ci.Prelude.Bytes.{Bytes, codes, bytes_eq}
use robine_ci.Offer.{is_empty}
use robine_ci.Run.{Run, pure, ◌>>=◌}
use robine_ci.Strings.{contains, replace_all, to_lower, trim_space}
use robine_ci.Executor.{Env, State, WaitError, Context, limited}
use robine_ci.Executor.Commands.{exit_code}
use robine_ci.Executor.Environment.{Variables}
use robine_ci.Docker.{
  Service, Resources, Failure, command_error, message, diagnostic_limit, safe_id,
}

-- The output of a command that ends well.
abbrev pub Answer : Type 0
Answer = Bytes ⊎ Failure

abbrev pub answer_of : Option WaitError → Bytes → Answer
answer_of none output = inl output
answer_of (some error) output = inr (command_error (exit_code (some error)) output)

abbrev pub failure_of : Answer → Option Failure
failure_of (inl output) = none
failure_of (inr failure) = some failure

-- errors.As of a dockerCommandError, and then its output.
abbrev pub output_of : Failure → Option Bytes
output_of (command_error code output) = some output
output_of (message text) = none

is_missing : Bytes → Bool
is_missing output = contains output (codes "no such") || contains output (codes "not found")

unfoldable pub docker_missing : Failure → Bool
unfolding is_missing
docker_missing (command_error code output) = is_missing (to_lower output)
docker_missing (message text) = false

-- strings.ReplaceAll of each value that is not empty, in the order of the list; the code takes
-- the order of a map.
unfoldable pub redact_all : Variables → Bytes → Bytes
redact_all [] text = text
redact_all ((name, secret) ∷ secrets) text =
    redact_all secrets
      (if is_empty secret then text else replace_all text secret (codes "[REDACTED]"))

-- The last bytes of a text.
unfoldable pub last_bytes : ℕ → Bytes → Bytes
last_bytes limit text = if ltb limit (length text) then drop (length text - limit) text else text

unfoldable pub first_bytes : ℕ → Bytes → Bytes
first_bytes limit text = if ltb limit (length text) then take limit text else text

-- safeDockerError of an error that there is.
unfoldable pub safe_docker_error : Failure → Variables → Bytes
unfolding redact_all first_bytes
safe_docker_error (command_error code output) secrets = first_bytes 4096 (redact_all secrets output)
safe_docker_error (message text) secrets = first_bytes 4096 (redact_all secrets text)

-- dockerServiceDiagnostic, of the answer to `docker logs`.
unfoldable pub diagnostic : Variables → Answer → Bytes
unfolding redact_all last_bytes
diagnostic secrets (inl output) = last_bytes diagnostic_limit (redact_all secrets output)
diagnostic secrets (inr (command_error code output)) =
    last_bytes diagnostic_limit (redact_all secrets output)
diagnostic secrets (inr (message text)) = last_bytes diagnostic_limit (redact_all secrets [])

length-last_bytes : (limit : ℕ) (text : Bytes) → length (last_bytes limit text) ≤ limit
unfolding last_bytes
length-last_bytes limit text = ground (arith, length-drop (length text - limit) text)

length-first_bytes : (limit : ℕ) (text : Bytes) → length (first_bytes limit text) ≤ limit
unfolding first_bytes
length-first_bytes limit text = ground (arith, length-take limit text)

-- What a failed service is reported with has at most 64 KiB, and what a failed preparation is
-- reported with at most 4096 bytes, however much the engine wrote and whatever the secrets are.
pub length-diagnostic :
    (secrets : Variables) (answer : Answer) (failure : Failure)
    → (length (diagnostic secrets answer) ≤ 65_536)
      × (length (safe_docker_error failure secrets) ≤ 4096)
unfolding diagnostic safe_docker_error
length-diagnostic secrets answer failure =
    elim answer
      as (λ a.
        (length (diagnostic secrets a) ≤ 65_536)
        × (length (safe_docker_error failure secrets) ≤ 4096)) [
          | inl output ↦ (length-last_bytes 65_536 (redact_all secrets output), texts failure)
          | inr (command_error code output) ↦
              (length-last_bytes 65_536 (redact_all secrets output), texts failure)
          | inr (message text) ↦ (length-last_bytes 65_536 (redact_all secrets []), texts failure)
        ]
  where
    texts : (f : Failure) → length (safe_docker_error f secrets) ≤ 4096
    texts (command_error code output) = length-first_bytes 4096 (redact_all secrets output)
    texts (message text) = length-first_bytes 4096 (redact_all secrets text)

with_text : Bytes → Option Failure → Option Failure
with_text text none = none
with_text text (some failure) = some (message text)

is_running : Answer → Bool
is_running (inl output) = bytes_eq (trim_space output) (codes "true")
is_running (inr failure) = false

module _ {env : Env} where
  unfoldable pub docker_command : Context → List Bytes → Run (State env) Answer
  docker_command ctx arguments s =
      let ((waited, output), world) = env.combined_output ctx arguments s.world in
      (answer_of waited output, record s { world = world; commands = s.commands ++ arguments ∷ [] })

  -- A command whose output is dropped.
  unfoldable pub docker_run : Context → List Bytes → Run (State env) (Option Failure)
  unfolding docker_command
  docker_run ctx arguments = do answer ← docker_command ctx arguments; pure (failure_of answer)

  -- What follows a call that may fail; the first failure is the result.
  abbrev pub then_run :
      Run (State env) (Option Failure)
      → Run (State env) (Option Failure)
      → Run (State env) (Option Failure)
  then_run first rest = do
    failed ← first
    elim failed [ some failure ↦ pure (some failure) | none ↦ rest ]

  -- A command whose error is replaced by a text.
  unfoldable pub docker_run_or : Bytes → Context → List Bytes → Run (State env) (Option Failure)
  unfolding docker_run with_text
  docker_run_or text ctx arguments = do
    failed ← docker_run ctx arguments
    pure (with_text text failed)

  unfoldable pub docker_ready : Context → Run (State env) (Option Failure)
  unfolding docker_run_or
  docker_ready ctx =
      docker_run_or (codes "Docker Engine is unavailable") (limited 10_000 ctx)
        (codes "version" ∷ codes "--format" ∷ codes "{{.Server.Version}}" ∷ [])

  unfoldable pub pull : Context → Bytes → Option Failure → Run (State env) (Option Failure)
  unfolding docker_run_or
  pull ctx image none = pure none
  pull ctx image (some failure) =
      docker_run_or (codes "Docker image acquisition failed") (limited 300_000 ctx)
        (codes "pull" ∷ image ∷ [])

  unfoldable pub acquire_image : Context → Bytes → Run (State env) (Option Failure)
  unfolding docker_run pull
  acquire_image ctx image =
      if is_empty (trim_space image)
      then pure (some (message (codes "Docker image is empty")))
      else (do
        failed ← docker_run (limited 5_000 ctx) (codes "image" ∷ codes "inspect" ∷ image ∷ [])
        pull ctx image failed)

  -- Whether the container runs; an error counts as no, as it does for both callers.
  unfoldable pub container_running : Context → Bytes → Run (State env) Bool
  unfolding docker_command is_running
  container_running ctx name = do
    answer ←
        docker_command ctx
          (codes "inspect" ∷ codes "--format" ∷ codes "{{.State.Running}}" ∷ name ∷ [])
    pure (is_running answer)

  unfoldable pub services_running : Context → Resources → List Service → Run (State env) Bool
  unfolding container_running
  services_running ctx resources [] = pure true
  services_running ctx resources (service ∷ services) = do
    running ← container_running ctx (resources.container ++ codes "-service-" ++ safe_id service.id)
    elim running [ true ↦ services_running ctx resources services | false ↦ pure false ]
