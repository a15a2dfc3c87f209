-- ===== src/Docker/Attempt.antt =====
-- docker_executor.go: runDocker, failDockerPreparation and failDockerPreparationOutcome. The arguments
-- are those of the parts: `unmarshal` of a service, `extract` of an archive, `builtin` of a step.
pub mod Reports
pub mod Removed
use robine_ci.Prelude.{
  ℕ, Bool, true, false, not, ◌&&◌, Option, none, some, List, [], ◌∷◌, ◌++◌, if◌then◌else◌, inl, inr,
}
use robine_ci.Prelude.Bytes.{Bytes, codes, bytes_eq}
use robine_ci.Prelude.Int.{pos}
use robine_ci.Offer.{Json, Offer, JobStep}
use robine_ci.Run.{Run, pure, ◌>>=◌, ◌>>◌}
use robine_ci.Config.{Config, namespace_of}
use robine_ci.Executor.{
  Env, State, StepLog, ContextError, outer, execution, delivery, outside, send_log, Outcome,
  context_outcome, send_attempt_event, terminal_delivery_allowed,
}
use robine_ci.Executor.Environment.{Variables}
use robine_ci.Executor.Attempt.{Ending, returned, failed, steps_timeout, secrets_of}
use robine_ci.Docker.{Service, Resources, Failure, resource_names, safe_id}
use robine_ci.Docker.Services.{Decoded, decode_services}
use robine_ci.Docker.Calls.{docker_ready, safe_docker_error}
use robine_ci.Docker.Cleanup.{cleanup}
use robine_ci.Docker.Prepare.{prepare}
use robine_ci.Docker.Steps.{run_steps}

preparation_log : Offer → StepLog
preparation_log offer = record {
  attempt_id = offer.attempt_id;
  position = 0;
  step_name = codes "Runner preparation";
  condition = codes "success";
}

abbrev pub system_failure : Outcome
system_failure = record { status = codes "failed"; reason = codes "system_failure" }

-- An attempt whose resources are not all removed has not succeeded.
unfoldable pub after_cleanup : Option Failure → Outcome → Outcome
after_cleanup none outcome = outcome
after_cleanup (some failure) outcome =
    if bytes_eq outcome.status (codes "succeeded") then system_failure else outcome

module _ {env : Env} (offer : Offer) where
  report_failure : Bytes → Outcome → Bool → Run (State env) (Unit {0})
  unfolding preparation_log
  report_failure text outcome false = pure tt
  report_failure text outcome true = do
    send_log delivery (preparation_log offer) outcome.status (codes "system") (some (pos 1)) 0 text
    send_attempt_event delivery offer 2 outcome.status outcome.reason
    pure tt

  -- failDockerPreparationOutcome; failDockerPreparation is the same with `system_failure`.
  fail_preparation : Bytes → Outcome → Run (State env) (Unit {0})
  unfolding report_failure
  fail_preparation text outcome = do
    allowed ← terminal_delivery_allowed
    report_failure text outcome allowed

  after_error : Bytes → Bytes → Option ContextError → Run (State env) Ending
  unfolding fail_preparation
  after_error late text (some e) = do
    error ← outside (env.context_error execution)
    fail_preparation late (context_outcome error)
    pure returned
  after_error late text none = do fail_preparation text system_failure; pure failed

  -- The preparation failed: with the first text if the context is done, and else with the second.
  give_up : Bytes → Bytes → Run (State env) Ending
  unfolding after_error
  give_up late text = do error ← outside (env.context_error execution); after_error late text error

  refuse : Bytes → Run (State env) Ending
  unfolding fail_preparation
  refuse text = do fail_preparation text system_failure; pure failed

  report_outcome : Outcome → Bool → Run (State env) Ending
  report_outcome outcome false = pure returned
  report_outcome outcome true = do
    error ← send_attempt_event delivery offer 3 outcome.status outcome.reason
    elim error [ some e ↦ pure failed | none ↦ pure returned ]

  -- The steps are over and the resources are removed.
  conclude : Outcome → Option Failure → Run (State env) Ending
  unfolding report_outcome
  conclude outcome left = do
    allowed ← terminal_delivery_allowed
    report_outcome (after_cleanup left outcome) allowed

  module _ (cfg : Config) (unmarshal : Json → Option Service)
      (extract : Bytes → Bytes → Run (State env) (Option Bytes))
      (builtin : Bytes → JobStep → Run (State env) (Option Bytes)) (cwd root : Bytes) where
    -- From the delivery of the running event on; the last argument is its error.
    perform : List Service → Resources → Variables → Option Bytes → Run (State env) Ending
    unfolding conclude
    perform services resources secrets (some error) = do cleanup delivery resources; pure failed
    perform services resources secrets none = do
      outcome ← run_steps builtin cwd resources.container offer resources services secrets root
      left ← cleanup delivery resources
      conclude outcome left

    after_prepare : List Service → Resources → Variables → Option Failure → Run (State env) Ending
    unfolding perform give_up
    after_prepare services resources secrets (some failure) = do
      ending ← give_up (codes "Runner preparation timed out") (safe_docker_error failure secrets)
      cleanup delivery resources
      pure ending
    after_prepare services resources secrets none = do
      error ← send_attempt_event outer offer 2 (codes "running") []
      perform services resources secrets error

    with_services : Variables → Decoded → Run (State env) Ending
    unfolding after_prepare refuse
    with_services secrets (inr error) = refuse (codes "Service configuration is invalid")
    with_services secrets (inl services) = do
      let resources = resource_names (namespace_of cfg) offer.attempt_id services
      failure ← prepare cfg offer secrets extract root services resources
      after_prepare services resources secrets failure

    with_secrets : Option Variables → Run (State env) Ending
    unfolding with_services give_up
    with_secrets none = give_up (codes "Secret transfer timed out") (codes "Secret transfer failed")
    with_secrets (some secrets) =
        with_services secrets (decode_services unmarshal offer.execution.services secrets)

    after_secure : Bool → Run (State env) Ending
    unfolding with_secrets refuse
    after_secure false = refuse (codes "Workspace security failed")
    after_secure true = do
      response ← outside (env.get execution offer.secrets_url (codes "application/json"))
      with_secrets (secrets_of env response)

    -- With the deferred removal of the directory.
    in_root : Run (State env) Ending
    unfolding after_secure
    in_root = do
      secured ← outside (env.secure root)
      ending ← after_secure secured
      outside (env.remove_all root)
      pure ending

  module _ (cfg : Config) (unmarshal : Json → Option Service)
      (extract : Bytes → Bytes → Run (State env) (Option Bytes))
      (builtin : Bytes → JobStep → Run (State env) (Option Bytes)) (cwd : Bytes) where
    after_temp : Option Bytes → Run (State env) Ending
    unfolding in_root refuse
    after_temp none = refuse (codes "Workspace preparation failed")
    after_temp (some root) = in_root cfg unmarshal extract builtin cwd root

    after_ready : Option Failure → Run (State env) Ending
    unfolding after_temp give_up
    after_ready (some failure) =
        give_up (codes "Docker readiness timed out") (codes "Docker is unavailable")
    after_ready none = do
      root ←
          outside (env.make_temp (codes "robine-docker-" ++ safe_id offer.attempt_id ++ codes "-"))
      after_temp root

    pub run_docker : Run (State env) Ending
    unfolding after_ready
    run_docker = do
      outside (env.start_timeout (steps_timeout offer.execution.timeout_ms))
      failure ← docker_ready execution
      after_ready failure
