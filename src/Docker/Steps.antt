-- ===== src/Docker/Steps.antt =====
-- docker_executor.go: runDockerSteps, runDockerCommand and runDockerBuiltin. What a built-in does in a
-- directory of the runner (executeBuiltin) is the argument `builtin`, which returns the text of its
-- error; `cwd` is the runner's working
-- directory, which os.Getwd gives without an error.
pub mod Outcomes
pub mod Records
use robine_ci.Prelude.{
  ℕ, ◌+◌, Bool, true, false, not, ◌||◌, ◌&&◌, Option, none, some, List, [], ◌∷◌, ◌++◌,
  if◌then◌else◌, inl, inr,
}
use robine_ci.Prelude.Bytes.{Bytes, codes, bytes_eq}
use robine_ci.Prelude.Int.{ℤ, pos}
use robine_ci.Offer.{Offer, JobStep, is_empty}
use robine_ci.Run.{Run, pure, ◌>>=◌, ◌>>◌}
use robine_ci.Strings.{print_nat}
use robine_ci.Archive.{join_path, workspace_path}
use robine_ci.Config.Files.{directory_of}
use robine_ci.Executor.{
  Env, State, StepLog, ContextError, Context, WaitError, other_error, execution, detached,
  background, limited, outside, send_log, Outcome, context_outcome, condition_matches,
}
use robine_ci.Executor.Environment.{Variables, insert_environ, job_environment}
use robine_ci.Executor.LogWriter.{new_log_writer, write_all, finish}
use robine_ci.Executor.Commands.{step_log, exit_code, safe_log_error}
use robine_ci.Executor.Options.{option_at, Paths, string_list}
use robine_ci.Executor.Steps.{after_step, skip_step}
use robine_ci.Docker.{Service, Resources, Failure, command_error, message}
use robine_ci.Docker.Arguments.{environment_args}
use robine_ci.Docker.Calls.{docker_run, services_running}
use robine_ci.Docker.Prepare.{copy_tree}

abbrev exec_args : Offer → Bytes → Variables → JobStep → List Bytes
exec_args offer container secrets step =
    (codes "exec" ∷ codes "--workdir" ∷ codes "/workspace" ∷ [])
    ++ environment_args (job_environment offer.execution secrets)
    ++ (container ∷ offer.execution.shell ∷ codes "-e" ∷ codes "-c" ∷ step.value ∷ [])

-- The text of an error: a dockerCommandError prints its exit code only.
unfoldable pub failure_text : Failure → Bytes
unfolding robine_ci.Strings.print_int
failure_text (command_error code output) =
    codes "Docker command failed with exit code " ++ robine_ci.Strings.print_int code
failure_text (message text) = text

text_of : Option Failure → Option Bytes
unfolding failure_text
text_of none = none
text_of (some failure) = some (failure_text failure)

-- What `commandErr` is when the process has not ended within two seconds: `ctx.Err()`.
error_of_context : Option ContextError → Option WaitError
error_of_context none = none
error_of_context (some error) = some other_error

module _ {env : Env} where
  timed_log : Context → StepLog → Bytes → Option ℤ → Bytes → Run (State env) (Option Bytes)
  timed_log ctx log status exit content = do
    duration ← outside env.elapsed_ms
    send_log ctx log status (codes "system") exit duration content

  interrupted : StepLog → Run (State env) Bytes
  unfolding timed_log
  interrupted log = do
    cause ← outside (env.context_error execution)
    let outcome = context_outcome cause
    timed_log detached log (codes "cancelled") none []
    pure outcome.reason

  ended : StepLog → Option WaitError → Run (State env) Bytes
  unfolding timed_log
  ended log none = do
    timed_log execution log (codes "succeeded") (some (exit_code none)) []
    pure []
  ended log (some error) = do
    timed_log execution log (codes "failed") (some (exit_code (some error))) []
    pure (codes "command_failed")

  conclude : StepLog → Option WaitError → Run (State env) Bytes
  unfolding interrupted ended
  conclude log waited = do
    error ← outside (env.context_error execution)
    elim error [ some e ↦ interrupted log | none ↦ ended log waited ]

  after_output : StepLog → Option WaitError → Option Bytes → Run (State env) Bytes
  unfolding conclude
  after_output log waited none = conclude log waited
  after_output log waited (some undelivered) = do
    error ← outside (env.context_error execution)
    elim error [ some e ↦ conclude log waited | none ↦ pure (codes "system_failure") ]

  after_kill : Option (Option WaitError) → Run (State env) (Option WaitError)
  unfolding error_of_context
  after_kill (some waited) = pure waited
  after_kill none = do error ← outside (env.context_error execution); pure (error_of_context error)

  -- The wait for the process, or for the end of the context, on which the container is stopped.
  await_process : Bytes → Option (Option WaitError) → Run (State env) (Option WaitError)
  unfolding after_kill
  await_process container (some waited) = pure waited
  await_process container none = do
    docker_run (limited 10_000 background)
        (codes "stop" ∷ codes "--time" ∷ codes "5" ∷ container ∷ [])
    outside env.kill
    killed ← outside env.wait_killed
    after_kill killed

  run_process : StepLog → Variables → Bytes → Bool → Run (State env) Bytes
  unfolding after_output timed_log await_process
  run_process log secrets container false = do
    timed_log execution log (codes "failed") none (codes "Docker exec failed to start")
    pure (codes "system_failure")
  run_process log secrets container true = do
    pieces ← outside env.output
    w ← write_all (new_log_writer log secrets) pieces
    done ← outside env.wait_or_done
    waited ← await_process container done
    w' ← finish w
    after_output log waited w'.delivery_error

  unfoldable pub run_command :
      Offer → Bytes → Variables → ℕ → JobStep → Bytes → Run (State env) Bytes
  unfolding run_process
  run_command offer container secrets position step condition = do
    let log = step_log offer position step condition
    send_log execution log (codes "running") (codes "system") none 0 []
    started ← outside (
        env.start (record {
          path = codes "docker";
          arguments = exec_args offer container secrets step;
          directory = [];
          environment = insert_environ env.environ [];
        }))
    run_process log secrets container started

  module _ (builtin : Bytes → JobStep → Run (State env) (Option Bytes)) (cwd : Bytes)
      (container : Bytes) where
    -- `rest` is the loop over the later paths.
    after_copied : Run (State env) (Option Bytes) → Option Failure → Run (State env) (Option Bytes)
    unfolding failure_text
    after_copied rest (some failure) = pure (some (failure_text failure))
    after_copied rest none = rest

    after_made :
        Bytes
        → Bytes
        → Run (State env) (Option Bytes)
        → Option Bytes
        → Run (State env) (Option Bytes)
    unfolding after_copied
    after_made path destination rest (some text) = pure (some text)
    after_made path destination rest none = do
      failed ←
          docker_run execution
            (codes "cp" ∷ (container ++ codes ":/workspace/" ++ path) ∷ destination ∷ [])
      after_copied rest failed

    after_path :
        Bytes
        → Bytes
        → Run (State env) (Option Bytes)
        → Option Bytes
        → Run (State env) (Option Bytes)
    unfolding after_made
    after_path workspace path rest none = pure (some (codes "workspace path escapes root"))
    after_path workspace path rest (some target) = do
      let destination = join_path (workspace ∷ directory_of path ∷ [])
      error ← outside (env.make_dirs destination)
      after_made path destination rest error

    -- The paths are copied from the container, up to the first error.
    unfoldable pub copy_paths : Bytes → List Bytes → Run (State env) (Option Bytes)
    unfolding after_path
    copy_paths workspace [] = pure none
    copy_paths workspace (path ∷ paths) =
        after_path workspace path (copy_paths workspace paths)
          (workspace_path (some cwd) workspace path)

    unless_failed : Option Bytes → Run (State env) (Option Bytes) → Run (State env) (Option Bytes)
    unless_failed (some text) rest = pure (some text)
    unless_failed none rest = rest

    upload : Bytes → JobStep → Paths → Run (State env) (Option Bytes)
    unfolding unless_failed
    upload workspace step (inr text) = pure (some text)
    upload workspace step (inl paths) = do
      failed ← copy_paths workspace paths
      unless_failed failed (builtin workspace step)

    after_download : Bytes → Option Bytes → Run (State env) (Option Bytes)
    unfolding text_of
    after_download workspace (some text) = pure (some text)
    after_download workspace none = do failed ← copy_tree workspace container; pure (text_of failed)

    download : Bytes → JobStep → Run (State env) (Option Bytes)
    unfolding after_download
    download workspace step = do failed ← builtin workspace step; after_download workspace failed

    perform : Bytes → JobStep → Run (State env) (Option Bytes)
    unfolding upload download
    perform workspace step =
        if bytes_eq step.value (codes "artifacts/upload")
          || bytes_eq step.value (codes "cache/save")
        then upload workspace step (string_list (option_at (codes "paths") step.options))
        else if bytes_eq step.value (codes "artifacts/download")
            || bytes_eq step.value (codes "cache/restore")
        then download workspace step
        else pure (some (codes "unsupported builtin"))

    report_builtin : StepLog → Option Bytes → Run (State env) Bytes
    unfolding timed_log
    report_builtin log (some error) = do
      timed_log execution log (codes "failed") (some (pos 1)) (safe_log_error error)
      pure (codes "command_failed")
    report_builtin log none = do
      timed_log execution log (codes "succeeded") (some (pos 0)) []
      pure []

    -- Behind the removal of the directory that an earlier step has left.
    in_workspace : Bytes → JobStep → StepLog → Option Bytes → Run (State env) Bytes
    unfolding perform report_builtin
    in_workspace workspace step log (some text) = pure (codes "system_failure")
    in_workspace workspace step log none = do
      error ← perform workspace step
      reason ← report_builtin log error
      outside (env.remove_all workspace)
      pure reason

    unfoldable pub run_builtin : Offer → Bytes → ℕ → JobStep → Bytes → Run (State env) Bytes
    unfolding in_workspace
    run_builtin offer root position step condition = do
      let log = step_log offer position step condition
      let workspace = join_path (root ∷ (codes "builtin-" ++ print_nat position) ∷ [])
      send_log execution log (codes "running") (codes "system") none 0 []
      outside (env.remove_all workspace)
      error ← outside (env.make_dir workspace)
      in_workspace workspace step log error

    module _ (offer : Offer) (resources : Resources) (services : List Service) (secrets : Variables)
        (root : Bytes) where
      run_step : ℕ → JobStep → Bytes → Run (State env) Bytes
      run_step position step condition =
          if bytes_eq step.kind (codes "run")
          then run_command offer resources.container secrets position step condition
          else if bytes_eq step.kind (codes "builtin")
          then run_builtin offer root position step condition
          else pure (codes "command_failed")

      -- `next` is the loop over the later steps, from `failed` and `reason` on.
      with_services :
          (Bool → Bytes → Run (State env) Outcome)
          → JobStep
          → Bytes
          → ℕ
          → Bool
          → Bytes
          → Bool
          → Run (State env) Outcome
      unfolding run_step
      with_services next step condition position failed reason false =
          pure (record { status = codes "failed"; reason = codes "service_unavailable" })
      with_services next step condition position failed reason true = do
        step_reason ← run_step position step condition
        after_step next failed reason step_reason

      start_step :
          (Bool → Bytes → Run (State env) Outcome)
          → JobStep
          → Bytes
          → ℕ
          → Bool
          → Bytes
          → Option ContextError
          → Run (State env) Outcome
      unfolding with_services
      start_step next step condition position failed reason (some e) = do
        error ← outside (env.context_error execution)
        pure (context_outcome error)
      start_step next step condition position failed reason none = do
        running ← services_running execution resources services
        with_services next step condition position failed reason running

      enter_step :
          (Bool → Bytes → Run (State env) Outcome)
          → JobStep
          → Bytes
          → ℕ
          → Bool
          → Bytes
          → Run (State env) Outcome
      unfolding start_step
      enter_step next step condition position failed reason = do
        error ← outside (env.context_error execution)
        start_step next step condition position failed reason error

      -- One round of the loop.
      one_step :
          (Bool → Bytes → ℕ → Run (State env) Outcome)
          → JobStep
          → Bool
          → Bytes
          → ℕ
          → Run (State env) Outcome
      unfolding enter_step
      one_step next step failed reason previous =
          let position = previous + 1 in
          let condition = if is_empty step.condition then codes "success" else step.condition in
          if bytes_eq step.kind (codes "builtin") && bytes_eq step.value (codes "checkout")
          then next failed reason previous
          else if not (condition_matches condition failed)
          then skip_step offer (λ f r. next f r position) step condition position failed reason
          else enter_step (λ f r. next f r position) step condition position failed reason

      steps_loop : List JobStep → Bool → Bytes → ℕ → Run (State env) Outcome
      unfolding one_step
      steps_loop [] failed reason position = pure (
          if failed
          then record { status = codes "failed"; reason = reason }
          else record { status = codes "succeeded"; reason = [] })
      steps_loop (step ∷ steps) failed reason position =
          one_step (steps_loop steps) step failed reason position

      unfoldable pub run_steps : Run (State env) Outcome
      unfolding steps_loop
      run_steps = steps_loop offer.execution.steps false [] 0
