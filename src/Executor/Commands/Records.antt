-- ===== src/Executor/Commands/Records.antt =====
-- What running one step keeps: any property of the executor's state that calls of the
-- environment and log events keep.
use robine_ci.Prelude.{ℕ, Bool, true, false, Option, none, some, []}
use robine_ci.Prelude.Bytes.{Bytes, codes}
use robine_ci.Prelude.Int.{ℤ}
use robine_ci.Offer.{Offer, JobStep}
use robine_ci.Run.{Run, pure, ◌>>◌, Preserves, Preserves-pure, Preserves-bind}
use robine_ci.Executor.{Env, State, Context, StepLog, WaitError, send_log, execution}
use robine_ci.Executor.Keeping.{Admits, Preserves-option}
use robine_ci.Executor.LogWriter.Records.{write_all-Preserves, finish-Preserves}
use robine_ci.Executor.Environment.{Variables}
use robine_ci.Executor.Commands.{
  run_command, run_builtin, run_process, after_output, conclude, ended, interrupted, timed_log,
  unsupported_shell, run_shell, choose_shell, after_builtin, step_log,
}

module _ {env : Env} {P : State env → Type 0} (admits : Admits P) where
  open admits use {calls, logs}

  timed_log-Preserves :
      (ctx : Context) (log : StepLog) (status : Bytes) (exit : Option ℤ) (content : Bytes)
      → Preserves P (timed_log {env = env} ctx log status exit content)
  unfolding timed_log
  timed_log-Preserves ctx log status exit content =
      Preserves-bind _ _ (calls _) (λ d. logs _ _ _ _ _ _ _)

  -- A log event, and then a result.
  logged-Preserves :
      {A : Type 0} (ctx : Context) (log : StepLog) (status : Bytes) (exit : Option ℤ)
      (content : Bytes) (a : A)
      → Preserves P (timed_log {env = env} ctx log status exit content >> pure a)
  logged-Preserves ctx log status exit content a =
      Preserves-bind _ _ (timed_log-Preserves ctx log status exit content) (λ r. Preserves-pure a)

  interrupted-Preserves : (log : StepLog) → Preserves P (interrupted {env = env} log)
  unfolding interrupted
  interrupted-Preserves log = Preserves-bind _ _ (calls _) (λ cause. logged-Preserves _ log _ _ _ _)

  ended-Preserves :
      (log : StepLog) (waited : Option WaitError) → Preserves P (ended {env = env} log waited)
  unfolding ended
  ended-Preserves log none = logged-Preserves _ log _ _ _ _
  ended-Preserves log (some e) = logged-Preserves _ log _ _ _ _

  conclude-Preserves :
      (log : StepLog) (waited : Option WaitError) → Preserves P (conclude {env = env} log waited)
  unfolding conclude
  conclude-Preserves log waited = Preserves-bind _ _ (calls _) (λ error.
      Preserves-option error _ _ (λ e. interrupted-Preserves log) (ended-Preserves log waited))

  after_output-Preserves :
      (log : StepLog) (waited : Option WaitError) (e : Option Bytes)
      → Preserves P (after_output {env = env} log waited e)
  unfolding after_output
  after_output-Preserves log waited none = conclude-Preserves log waited
  after_output-Preserves log waited (some e) =
      Preserves-bind _ _ (calls _) (λ error.
        Preserves-option error _ _ (λ e. conclude-Preserves log waited) (Preserves-pure _))

  run_process-Preserves :
      (log : StepLog) (secrets : Variables) (started : Bool)
      → Preserves P (run_process {env = env} log secrets started)
  unfolding run_process
  run_process-Preserves log secrets false = logged-Preserves _ log _ _ _ _
  run_process-Preserves log secrets true = Preserves-bind _ _ (calls _) (λ pieces.
      Preserves-bind _ _ (write_all-Preserves admits pieces _) (λ w.
        Preserves-bind _ _ (calls _) (λ waited.
          Preserves-bind _ _ (finish-Preserves admits w)
            (λ w'. after_output-Preserves log waited _))))

  choose_shell-Preserves :
      (b : Bool) (offer : Offer) (workspace : Bytes) (secrets : Variables) (shell : Bytes)
      (step : JobStep) (log : StepLog)
      → Preserves P (choose_shell {env = env} b offer workspace secrets shell step log)
  unfolding choose_shell run_shell unsupported_shell
  choose_shell-Preserves true offer workspace secrets shell step log =
      Preserves-bind _ _ (calls _) (λ started. run_process-Preserves log secrets started)
  choose_shell-Preserves false offer workspace secrets shell step log =
      logged-Preserves _ log _ _ _ _

  pub run_command-Preserves :
      (offer : Offer) (workspace : Bytes) (secrets : Variables) (position : ℕ) (step : JobStep)
      (condition : Bytes)
      → Preserves P (run_command {env = env} offer workspace secrets position step condition)
  unfolding run_command
  run_command-Preserves offer workspace secrets position step condition = opened (
      choose_shell-Preserves _ offer workspace secrets _ step
        (step_log offer position step condition))
    where
      opened :
          {m : Run (State env) Bytes}
          → Preserves P m
          → Preserves P (
              send_log {env = env} execution
                (step_log offer position step condition)
                (codes "running")
                (codes "system")
                none
                0
                []
              >> m)
      opened km = Preserves-bind _ _ (logs _ _ _ _ _ _ _) (λ r. km)

  after_builtin-Preserves :
      (log : StepLog) (e : Option Bytes) → Preserves P (after_builtin {env = env} log e)
  unfolding after_builtin
  after_builtin-Preserves log (some e) = logged-Preserves _ log _ _ _ _
  after_builtin-Preserves log none = logged-Preserves _ log _ _ _ _

  pub run_builtin-Preserves :
      (builtin : JobStep → Run (State env) (Option Bytes)) (offer : Offer) (position : ℕ)
      (step : JobStep) (condition : Bytes)
      → Preserves P (builtin step)
      → Preserves P (run_builtin builtin offer position step condition)
  unfolding run_builtin
  run_builtin-Preserves builtin offer position step condition kept =
      Preserves-bind _ _ (logs _ _ _ _ _ _ _) (λ r.
        Preserves-bind _ _ kept
          (λ e. after_builtin-Preserves (step_log offer position step condition) e))
