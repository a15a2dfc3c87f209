-- ===== src/Docker/Steps/Records.antt =====
-- What the steps of a job in containers keep.
use robine_ci.Prelude.{
  ℕ, ◌+◌, Bool, true, false, not, ◌||◌, ◌&&◌, Option, none, some, List, [], ◌∷◌, ◌⊎◌, inl, inr,
}
use robine_ci.Prelude.Bytes.{Bytes, codes, bytes_eq}
use robine_ci.Prelude.Int.{ℤ}
use robine_ci.Offer.{Offer, JobStep, is_empty}
use robine_ci.Archive.{workspace_path}
use robine_ci.Run.{Run, pure, ◌>>◌, Preserves, Preserves-pure, Preserves-if, Preserves-bind}
use robine_ci.Executor.{
  Env, State, StepLog, ContextError, Context, WaitError, Outcome, condition_matches,
}
use robine_ci.Executor.Environment.{Variables}
use robine_ci.Executor.Options.{Paths}
use robine_ci.Executor.Keeping.{Preserves-option}
use robine_ci.Executor.LogWriter.Records.{write_all-Preserves, finish-Preserves}
use robine_ci.Executor.Steps.Records.{after_step-Preserves, skip_step-Preserves}
use robine_ci.Docker.{Service, Resources, Failure}
use robine_ci.Docker.Keeping.{DockerAdmits, docker_run-Preserves, services_running-Preserves}
use robine_ci.Docker.Steps.{
  timed_log, interrupted, ended, conclude, after_output, after_kill, await_process, run_process,
  run_command, after_copied, after_made, after_path, copy_paths, unless_failed, upload,
  after_download, download, perform, report_builtin, in_workspace, run_builtin, run_step,
  with_services, start_step, enter_step, one_step, steps_loop, run_steps,
}

module _ {env : Env} {P : State env → Type 0} (docker : DockerAdmits P) where
  open docker use {admits, commands, copies}
  open admits use {calls, logs}

  -- A log event, and then a result.
  logged-Preserves :
      {A : Type 0} (ctx : Context) (log : StepLog) (status : Bytes) (exit : Option ℤ)
      (content : Bytes) (a : A)
      → Preserves P (timed_log {env = env} ctx log status exit content >> pure a)
  unfolding timed_log
  logged-Preserves ctx log status exit content a =
      Preserves-bind _ _ (Preserves-bind _ _ (calls _) (λ d. logs _ _ _ _ _ _ _))
        (λ r. Preserves-pure a)

  interrupted-Preserves : (log : StepLog) → Preserves P (interrupted {env = env} log)
  unfolding interrupted
  interrupted-Preserves log = Preserves-bind _ _ (calls _) (λ cause. logged-Preserves _ log _ _ _ _)

  ended-Preserves :
      (log : StepLog) (waited : Option WaitError) → Preserves P (ended {env = env} log waited)
  unfolding ended
  ended-Preserves log none = logged-Preserves _ log _ _ _ _
  ended-Preserves log (some e) = logged-Preserves _ log _ _ _ _

  conclude-Preserves :
      (log : StepLog) (waited : Option WaitError) → Preserves P (conclude {env = env} log waited)
  unfolding conclude
  conclude-Preserves log waited = Preserves-bind _ _ (calls _) (λ error.
      Preserves-option error _ _ (λ e. interrupted-Preserves log) (ended-Preserves log waited))

  after_output-Preserves :
      (log : StepLog) (waited : Option WaitError) (e : Option Bytes)
      → Preserves P (after_output {env = env} log waited e)
  unfolding after_output
  after_output-Preserves log waited none = conclude-Preserves log waited
  after_output-Preserves log waited (some e) =
      Preserves-bind _ _ (calls _) (λ error.
        Preserves-option error _ _ (λ e. conclude-Preserves log waited) (Preserves-pure _))

  await_process-Preserves :
      (container : Bytes) (done : Option (Option WaitError))
      → Preserves P (await_process {env = env} container done)
  unfolding await_process
  await_process-Preserves container (some waited) = Preserves-pure _
  await_process-Preserves container none =
      Preserves-bind _ _ (docker_run-Preserves docker _ _)
        (λ r. Preserves-bind _ _ (calls _) (λ k. Preserves-bind _ _ (calls _) killed))
    where
      killed : (k : Option (Option WaitError)) → Preserves P (after_kill {env = env} k)
      killed (some waited) = unfold after_kill in Preserves-pure _
      killed none = unfold after_kill in Preserves-bind _ _ (calls _) (λ e. Preserves-pure _)

  run_process-Preserves :
      (log : StepLog) (secrets : Variables) (container : Bytes) (started : Bool)
      → Preserves P (run_process {env = env} log secrets container started)
  unfolding run_process
  run_process-Preserves log secrets container false = logged-Preserves _ log _ _ _ _
  run_process-Preserves log secrets container true = Preserves-bind _ _ (calls _) (λ pieces.
      Preserves-bind _ _ (write_all-Preserves admits pieces _) (λ w.
        Preserves-bind _ _ (calls _) (λ done.
          Preserves-bind _ _ (await_process-Preserves container done) (λ waited.
            Preserves-bind _ _ (finish-Preserves admits w)
              (λ w'. after_output-Preserves log waited _)))))

  run_command-Preserves :
      (offer : Offer) (container : Bytes) (secrets : Variables) (position : ℕ) (step : JobStep)
      (condition : Bytes)
      → Preserves P (run_command {env = env} offer container secrets position step condition)
  unfolding run_command
  run_command-Preserves offer container secrets position step condition =
      Preserves-bind _ _ (logs _ _ _ _ _ _ _) (λ r.
        Preserves-bind _ _ (calls _) (λ started. run_process-Preserves _ secrets container started))

  module _ (builtin : Bytes → JobStep → Run (State env) (Option Bytes)) (cwd container : Bytes)
      (kept : (workspace : Bytes) (step : JobStep) → Preserves P (builtin workspace step)) where
    report_builtin-Preserves :
        (log : StepLog) (e : Option Bytes)
        → Preserves P (report_builtin builtin cwd container log e)
    unfolding report_builtin
    report_builtin-Preserves log (some e) = logged-Preserves _ log _ _ _ _
    report_builtin-Preserves log none = logged-Preserves _ log _ _ _ _

    after_path-Preserves :
        (workspace path : Bytes) (rest : Run (State env) (Option Bytes)) (target : Option Bytes)
        → Preserves P rest
        → Preserves P (after_path builtin cwd container workspace path rest target)
    unfolding after_path
    after_path-Preserves workspace path rest none later = Preserves-pure _
    after_path-Preserves workspace path rest (some target) later =
        Preserves-bind _ _ (calls _) (made _ _)
      where
        copied :
            (failed : Option Failure) → Preserves P (after_copied builtin cwd container rest failed)
        copied (some failure) = unfold after_copied in Preserves-pure _
        copied none = unfold after_copied in later

        made :
            (path destination : Bytes) (e : Option Bytes)
            → Preserves P (after_made builtin cwd container path destination rest e)
        made path destination (some text) = unfold after_made in Preserves-pure _
        made path destination none =
            unfold after_made in Preserves-bind _ _ (docker_run-Preserves docker _ _) copied

    copy_paths-Preserves :
        (workspace : Bytes) (paths : List Bytes)
        → Preserves P (copy_paths builtin cwd container workspace paths)
    unfolding copy_paths
    copy_paths-Preserves workspace [] = Preserves-pure _
    copy_paths-Preserves workspace (path ∷ paths) =
        after_path-Preserves workspace path _ (workspace_path (some cwd) workspace path)
          (copy_paths-Preserves workspace paths)

    upload-Preserves :
        (workspace : Bytes) (step : JobStep) (paths : Paths)
        → Preserves P (upload builtin cwd container workspace step paths)
    unfolding upload
    upload-Preserves workspace step (inr text) = Preserves-pure _
    upload-Preserves workspace step (inl paths) =
        Preserves-bind _ _ (copy_paths-Preserves workspace paths) copied
      where
        copied :
            (e : Option Bytes)
            → Preserves P (unless_failed builtin cwd container e (builtin workspace step))
        copied (some text) = unfold unless_failed in Preserves-pure _
        copied none = unfold unless_failed in kept workspace step

    download-Preserves :
        (workspace : Bytes) (step : JobStep)
        → Preserves P (download builtin cwd container workspace step)
    unfolding download
    download-Preserves workspace step = Preserves-bind _ _ (kept workspace step) done
      where
        done : (e : Option Bytes) → Preserves P (after_download builtin cwd container workspace e)
        done (some text) = unfold after_download in Preserves-pure _
        done none = unfold after_download in Preserves-bind _ _ (copies _ _) (λ f. Preserves-pure _)

    perform-Preserves :
        (workspace : Bytes) (step : JobStep)
        → Preserves P (perform builtin cwd container workspace step)
    unfolding perform
    perform-Preserves workspace step =
        Preserves-if
          (bytes_eq step.value (codes "artifacts/upload")
            || bytes_eq step.value (codes "cache/save"))
          _ _ (upload-Preserves workspace step _)
          (Preserves-if
            (bytes_eq step.value (codes "artifacts/download")
              || bytes_eq step.value (codes "cache/restore"))
            _ _ (download-Preserves workspace step) (Preserves-pure _))

    run_builtin-Preserves :
        (offer : Offer) (root : Bytes) (position : ℕ) (step : JobStep) (condition : Bytes)
        → Preserves P (run_builtin builtin cwd container offer root position step condition)
    unfolding run_builtin
    run_builtin-Preserves offer root position step condition =
        Preserves-bind _ _ (logs _ _ _ _ _ _ _)
          (λ r. Preserves-bind _ _ (calls _) (λ r'. Preserves-bind _ _ (calls _) (made _ _)))
      where
        made :
            (workspace : Bytes) (log : StepLog) (e : Option Bytes)
            → Preserves P (in_workspace builtin cwd container workspace step log e)
        made workspace log (some text) = unfold in_workspace in Preserves-pure _
        made workspace log none =
            unfold in_workspace in
            Preserves-bind _ _ (perform-Preserves _ step) (λ e.
              Preserves-bind _ _ (report_builtin-Preserves _ e)
                (λ r. Preserves-bind _ _ (calls _) (λ x. Preserves-pure _)))

    module _ (offer : Offer) (resources : Resources) (services : List Service) (secrets : Variables)
        (root : Bytes) where
      run_step-Preserves :
          (position : ℕ) (step : JobStep) (condition : Bytes)
          → Preserves P (
              run_step builtin cwd container offer resources services secrets root position step
                condition)
      unfolding run_step
      run_step-Preserves position step condition =
          Preserves-if (bytes_eq step.kind (codes "run")) _ _
            (run_command-Preserves offer resources.container secrets position step condition)
            (Preserves-if (bytes_eq step.kind (codes "builtin")) _ _
              (run_builtin-Preserves offer root position step condition) (Preserves-pure _))

      enter_step-Preserves :
          (next : Bool → Bytes → Run (State env) Outcome) (step : JobStep) (condition : Bytes)
          (position : ℕ) (failed : Bool) (reason : Bytes)
          → ((f : Bool) (r : Bytes) → Preserves P (next f r))
          → Preserves P (
              enter_step builtin cwd container offer resources services secrets root next step
                condition position failed reason)
      unfolding enter_step start_step
      enter_step-Preserves next step condition position failed reason later =
          Preserves-bind _ _ (calls _) started
        where
          running :
              (b : Bool)
              → Preserves P (
                  with_services builtin cwd container offer resources services secrets root next
                    step condition position failed reason b)
          running false = unfold with_services in Preserves-pure _
          running true =
              unfold with_services in
              Preserves-bind _ _ (run_step-Preserves position step condition)
                (λ r. after_step-Preserves admits next failed reason r later)

          started :
              (e : Option ContextError)
              → Preserves P (
                  start_step builtin cwd container offer resources services secrets root next step
                    condition position failed reason e)
          started (some e) = Preserves-bind _ _ (calls _) (λ e'. Preserves-pure _)
          started none =
              Preserves-bind _ _ (services_running-Preserves docker _ resources services) running

      steps_loop-Preserves :
          (steps : List JobStep) (failed : Bool) (reason : Bytes) (position : ℕ)
          → Preserves P (
              steps_loop builtin cwd container offer resources services secrets root steps failed
                reason position)
      unfolding steps_loop one_step
      steps_loop-Preserves [] failed reason position = Preserves-pure _
      steps_loop-Preserves (step ∷ steps) failed reason position =
          let condition =
            robine_ci.Prelude.if◌then◌else◌ (is_empty step.condition) (codes "success")
              step.condition in
          Preserves-if
            (bytes_eq step.kind (codes "builtin") && bytes_eq step.value (codes "checkout")) _ _
            (steps_loop-Preserves steps failed reason position)
            (Preserves-if (not (condition_matches condition failed)) _ _
              (skip_step-Preserves admits offer _ step condition (position + 1) failed reason
                (λ f r. steps_loop-Preserves steps f r (position + 1)))
              (enter_step-Preserves _ step condition (position + 1) failed reason
                (λ f r. steps_loop-Preserves steps f r (position + 1))))

      pub run_steps-Preserves :
          Preserves P (run_steps builtin cwd container offer resources services secrets root)
      unfolding run_steps
      run_steps-Preserves = steps_loop-Preserves offer.execution.steps false [] 0
