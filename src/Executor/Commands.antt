-- ===== src/Executor/Commands.antt =====
-- runCommand and runBuiltin of executor.go. The result is the reason of a failure, or `""`. The
-- process's pieces of output are copied to the log writer until it ends or, after the context is done,
-- is terminated; both happen in `Env.output` and `Env.wait`. What a built-in does (executeBuiltin) is
-- the argument `builtin`, which returns the text of its error.
pub mod Records
use robine_ci.Prelude.{
  ℕ, ◌+◌, Bool, true, false, not, ◌||◌, Option, none, some, List, [], ◌∷◌, take, if◌then◌else◌,
}
use robine_ci.Prelude.Bytes.{Bytes, codes, bytes_eq}
use robine_ci.Prelude.Int.{ℤ, pos, negsuc}
use robine_ci.Offer.{Offer, JobStep, is_empty}
use robine_ci.Run.{Run, pure, ◌>>=◌, ◌>>◌}
use robine_ci.Executor.{
  Env, State, Command, StepLog, ContextError, Context, execution, detached, WaitError, exit_error,
  other_error, outside, send_log, Outcome, context_outcome,
}
use robine_ci.Executor.Environment.{Variables, merged_environment}
use robine_ci.Executor.LogWriter.{LogWriter, new_log_writer, write_all, finish}

-- exitCode of process_unix.go
unfoldable pub exit_code : Option WaitError → ℤ
exit_code none = pos 0
exit_code (some (exit_error code)) = code
exit_code (some other_error) = negsuc 0

abbrev pub step_log : Offer → ℕ → JobStep → Bytes → StepLog
step_log offer position step condition = record {
  attempt_id = offer.attempt_id;
  position = position;
  step_name = step.name;
  condition = condition;
}

abbrev is_supported_shell : Bytes → Bool
is_supported_shell shell = bytes_eq shell (codes "/bin/sh") || bytes_eq shell (codes "/bin/bash")

unfoldable pub safe_log_error : Bytes → Bytes
safe_log_error text = take 4096 text

module _ {env : Env} where
  -- A log event of the stream "system", after the time that it took to get there.
  timed_log : Context → StepLog → Bytes → Option ℤ → Bytes → Run (State env) (Option Bytes)
  timed_log ctx log status exit content = do
    duration ← outside env.elapsed_ms
    send_log ctx log status (codes "system") exit duration content

  -- The context is done.
  interrupted : StepLog → Run (State env) Bytes
  interrupted log = do
    cause ← outside (env.context_error execution)
    let outcome = context_outcome cause
    let status =
        if bytes_eq outcome.reason (codes "timeout") then codes "timed_out" else codes "cancelled"
    timed_log detached log status none []
    pure outcome.reason

  ended : StepLog → Option WaitError → Run (State env) Bytes
  ended log none = do
    timed_log execution log (codes "succeeded") (some (exit_code none)) []
    pure []
  ended log (some error) = do
    timed_log execution log (codes "failed") (some (exit_code (some error))) []
    pure (codes "command_failed")

  conclude : StepLog → Option WaitError → Run (State env) Bytes
  conclude log waited = do
    error ← outside (env.context_error execution)
    elim error [ some e ↦ interrupted log | none ↦ ended log waited ]

  -- `if writer.err() != nil && ctx.Err() == nil`
  after_output : StepLog → Option WaitError → Option Bytes → Run (State env) Bytes
  after_output log waited none = conclude log waited
  after_output log waited (some undelivered) = do
    error ← outside (env.context_error execution)
    elim error [ some e ↦ conclude log waited | none ↦ pure (codes "system_failure") ]

  run_process : StepLog → Variables → Bool → Run (State env) Bytes
  run_process log secrets false = do
    timed_log execution log (codes "failed") none (codes "process start failed")
    pure (codes "command_failed")
  run_process log secrets true = do
    pieces ← outside env.output
    w ← write_all (new_log_writer log secrets) pieces
    waited ← outside env.wait
    w' ← finish w
    after_output log waited w'.delivery_error

  run_shell : Offer → Bytes → Variables → Bytes → JobStep → StepLog → Run (State env) Bytes
  run_shell offer workspace secrets shell step log = do
    started ← outside (
        env.start (record {
          path = shell;
          arguments = codes "-e" ∷ codes "-c" ∷ step.value ∷ [];
          directory = workspace;
          environment = merged_environment env.environ offer.execution secrets;
        }))
    run_process log secrets started

  unsupported_shell : StepLog → Run (State env) Bytes
  unsupported_shell log = do
    timed_log execution log (codes "failed") none (codes "unsupported shell")
    pure (codes "command_failed")

  choose_shell :
      Bool → Offer → Bytes → Variables → Bytes → JobStep → StepLog → Run (State env) Bytes
  choose_shell true offer workspace secrets shell step log =
      run_shell offer workspace secrets shell step log
  choose_shell false offer workspace secrets shell step log = unsupported_shell log

  unfoldable pub run_command :
      Offer → Bytes → Variables → ℕ → JobStep → Bytes → Run (State env) Bytes
  unfolding choose_shell run_shell unsupported_shell run_process after_output conclude ended
      interrupted timed_log
  run_command offer workspace secrets position step condition = do
    let log = step_log offer position step condition
    let shell = if is_empty offer.execution.shell then codes "/bin/sh" else offer.execution.shell
    send_log execution log (codes "running") (codes "system") none 0 []
    choose_shell (is_supported_shell shell) offer workspace secrets shell step log

  after_builtin : StepLog → Option Bytes → Run (State env) Bytes
  after_builtin log (some error) = do
    timed_log execution log (codes "failed") (some (pos 1)) (safe_log_error error)
    pure (codes "command_failed")
  after_builtin log none = do timed_log execution log (codes "succeeded") (some (pos 0)) []; pure []

  unfoldable pub run_builtin :
      (JobStep → Run (State env) (Option Bytes))
      → Offer
      → ℕ
      → JobStep
      → Bytes
      → Run (State env) Bytes
  unfolding after_builtin timed_log
  run_builtin builtin offer position step condition = do
    let log = step_log offer position step condition
    send_log execution log (codes "running") (codes "system") none 0 []
    error ← builtin step
    after_builtin log error
