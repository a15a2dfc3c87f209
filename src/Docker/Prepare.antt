-- ===== src/Docker/Prepare.antt =====
-- docker_executor.go: what is made in the engine before the steps of a job run: startDockerService with
-- awaitDockerService, createDockerJob, copyDockerSource with dockerCopyTree, and prepareDocker.
-- Unpacking the source is the argument `extract`, which returns the text of its error.
pub mod Waiting
pub mod Records
use robine_ci.Prelude.{
  ℕ, zero, suc, ◌+◌, ◌*◌, Bool, true, false, not, ◌||◌, ◌&&◌, Option, none, some, List, [], ◌∷◌,
  ◌++◌, ltb, length, if◌then◌else◌, ◌==◌, inl, inr,
}
use robine_ci.Prelude.Bytes.{Bytes, codes}
use robine_ci.Prelude.Int.{ℤ, pos, negsuc}
use robine_ci.Offer.{Offer, is_empty}
use robine_ci.Run.{Run, pure, ◌>>=◌, ◌>>◌}
use robine_ci.Strings.{print_int}
use robine_ci.Archive.{join_path}
use robine_ci.Config.{Config, namespace_of, cpu_millis_of, memory_bytes_of, pids_limit_of}
use robine_ci.Executor.{
  Env, State, StepLog, ContextError, deadline_exceeded, context_canceled, WaitError, execution,
  detached, limited, outside, send_log,
}
use robine_ci.Executor.Environment.{Variables, insert_all, job_environment}
use robine_ci.Docker.{
  Service, Readiness, Resources, Failure, message, readiness_image, service_label, safe_id, labels,
  network_of,
}
use robine_ci.Docker.Arguments.{environment_args, unique_strings, cpu_limit, value_at}
use robine_ci.Docker.Calls.{
  Answer, answer_of, failure_of, docker_command, docker_run, docker_run_or, then_run, acquire_image,
  container_running, diagnostic,
}

-- The variables of a service, with the secrets that it names.
named_secrets : Variables → Variables → Variables
named_secrets secrets [] = []
named_secrets secrets ((name, secret) ∷ m) =
    (name, value_at secrets secret) ∷ named_secrets secrets m

unfoldable pub service_environment : Variables → Service → Variables
unfolding named_secrets
service_environment secrets service =
    insert_all (named_secrets secrets service.secret_env) (insert_all service.env [])

abbrev hardened : List Bytes
hardened =
    codes "--cap-drop" ∷ codes "ALL" ∷ codes "--security-opt" ∷ codes "no-new-privileges" ∷ []

-- The limits of a container.
unfoldable pub limits : Config → List Bytes
limits cfg =
    codes "--cpus"
    ∷ cpu_limit (cpu_millis_of cfg)
    ∷ codes "--memory"
    ∷ print_int (memory_bytes_of cfg)
    ∷ codes "--memory-swap"
    ∷ print_int (memory_bytes_of cfg)
    ∷ codes "--pids-limit"
    ∷ print_int (pids_limit_of cfg)
    ∷ []

unfoldable pub service_args : Config → Offer → Variables → Service → Bytes → Bytes → List Bytes
service_args cfg offer secrets service name network =
    (codes "create" ∷ codes "--name" ∷ name ∷ [])
    ++ labels (namespace_of cfg) offer.attempt_id
    ++ (codes "--label" ∷ (service_label ++ codes "=" ++ service.id) ∷ [])
    ++ (if service.privileged then codes "--privileged" ∷ [] else hardened)
    ++ limits cfg
    ++ (codes "--tmpfs"
        ∷ codes "/tmp:rw,noexec,nosuid,size=1g"
        ∷ codes "--network"
        ∷ network
        ∷ codes "--network-alias"
        ∷ service.id
        ∷ [])
    ++ (if is_empty service.user then [] else codes "--user" ∷ service.user ∷ [])
    ++ environment_args (service_environment secrets service)
    ++ (service.image ∷ service.command)

unfoldable pub job_args : Config → Offer → Resources → Variables → List Bytes
job_args cfg offer resources secrets =
    (codes "create" ∷ codes "--name" ∷ resources.container ∷ [])
    ++ hardened
    ++ limits cfg
    ++ (codes "--tmpfs"
        ∷ codes "/tmp:rw,exec,nosuid,size=1g"
        ∷ codes "--network"
        ∷ network_of resources.network
        ∷ codes "--mount"
        ∷ (codes "type=volume,source=" ++ resources.volume ++ codes ",target=/workspace")
        ∷ codes "--workdir"
        ∷ codes "/workspace"
        ∷ [])
    ++ labels (namespace_of cfg) offer.attempt_id
    ++ environment_args (job_environment offer.execution secrets)
    ++ (offer.execution.image
        ∷ offer.execution.shell
        ∷ codes "-c"
        ∷ codes "trap 'exit 0' TERM INT; while :; do sleep 3600; done"
        ∷ [])

unfoldable pub probe_args : Service → Readiness → Bytes → List Bytes
probe_args service readiness network =
    (codes "run" ∷ codes "--rm" ∷ codes "--pull" ∷ codes "never" ∷ [])
    ++ hardened
    ++ (codes "--network"
        ∷ network
        ∷ readiness_image
        ∷ codes "nc"
        ∷ codes "-z"
        ∷ codes "-w"
        ∷ codes "1"
        ∷ service.id
        ∷ print_int readiness.tcp
        ∷ [])

-- The time that a service has to become ready, in milliseconds; a negative one is over at once.
unfoldable pub readiness_timeout : Option Readiness → ℕ
readiness_timeout none = 5_000
readiness_timeout (some r) = elim r.timeout_ms [ pos n ↦ n | negsuc n ↦ 0 ]

-- The text of `ctx.Err()`.
context_text : ContextError → Bytes
context_text deadline_exceeded = codes "context deadline exceeded"
context_text context_canceled = codes "context canceled"

context_failure : Option ContextError → Option Failure
unfolding context_text
context_failure none = none
context_failure (some error) = some (message (context_text error))

log_failure : Option Bytes → Option Failure
log_failure none = none
log_failure (some text) = some (message text)

service_log : Offer → Service → StepLog
service_log offer service = record {
  attempt_id = offer.attempt_id;
  position = 0;
  step_name = codes "Service " ++ service.id;
  condition = codes "success";
}

all_images : Offer → List Service → List Bytes
all_images offer services =
    offer.execution.image ∷ (if is_empty services then [] else readiness_image ∷ [])
    ++ images services
  where
    images : List Service → List Bytes
    images [] = []
    images (service ∷ more) = service.image ∷ images more

copy_failure : Option Bytes → Answer → Option Failure
copy_failure (some text) answer = some (message text)
copy_failure none answer = failure_of answer

module _ {env : Env} where
  -- The error of the archive comes before that of the command.
  unfoldable pub copy_tree : Bytes → Bytes → Run (State env) (Option Failure)
  unfolding copy_failure
  copy_tree source container s =
      let arguments = codes "cp" ∷ codes "-" ∷ (container ++ codes ":/workspace") ∷ [] in
      let ((archive_error, (waited, output)), world) =
        env.combined_output_with execution source arguments s.world in
      (
        copy_failure archive_error (answer_of waited output),
        record s { world = world; commands = s.commands ++ arguments ∷ [] },
      )

  module _ (service : Service) (name network : Bytes) (deadline : ℕ) where
    -- `rounds` is the loop from the next round on.
    after_timer : Run (State env) (Option Failure) → Bool → Run (State env) (Option Failure)
    unfolding context_failure
    after_timer rounds true = do
      error ← outside (env.context_error execution)
      pure (context_failure error)
    after_timer rounds false = rounds

    after_probe :
        Run (State env) (Option Failure) → Option Failure → Run (State env) (Option Failure)
    unfolding after_timer
    after_probe rounds none = pure none
    after_probe rounds (some failure) = do
      cancelled ← outside (env.wait_timer execution 100)
      after_timer rounds cancelled

    probe : Run (State env) (Option Failure) → Option Readiness → Run (State env) (Option Failure)
    unfolding after_probe
    probe rounds none = pure none
    probe rounds (some readiness) = do
      failed ← docker_run (limited 2_000 execution) (probe_args service readiness network)
      after_probe rounds failed

    after_running : Run (State env) (Option Failure) → Bool → Run (State env) (Option Failure)
    unfolding probe
    after_running rounds true = probe rounds service.readiness
    after_running rounds false =
        pure (some (message (codes "service container exited before readiness")))

    after_context :
        Run (State env) (Option Failure) → Option ContextError → Run (State env) (Option Failure)
    unfolding context_failure after_running
    after_context rounds (some e) = do
      error ← outside (env.context_error execution)
      pure (context_failure error)
    after_context rounds none = do
      running ← container_running execution name
      after_running rounds running

    before_deadline : Run (State env) (Option Failure) → ℕ → Run (State env) (Option Failure)
    unfolding after_context
    before_deadline rounds now =
        if ltb now deadline
        then (do error ← outside (env.context_error execution); after_context rounds error)
        else pure (some (message (codes "service readiness timed out")))

    -- The loop, with the number of rounds that it may take.
    unfoldable pub await_rounds : ℕ → Run (State env) (Option Failure)
    unfolding before_deadline
    await_rounds zero = pure (some (message (codes "service readiness timed out")))
    await_rounds (suc fuel) = do now ← outside env.now_ms; before_deadline (await_rounds fuel) now

  -- A round takes 100 ms, so the timeout in milliseconds and one more are enough rounds.
  unfoldable pub await_service : Service → Bytes → Bytes → Run (State env) (Option Failure)
  unfolding await_rounds
  await_service service name network = do
    let timeout = readiness_timeout service.readiness
    now ← outside env.now_ms
    await_rounds service name network (now + timeout) (suc timeout)

  module _ (cfg : Config) (offer : Offer) (secrets : Variables) where
    report_service : Service → Bytes → Option Failure → Run (State env) (Option Failure)
    unfolding service_log log_failure
    report_service service name (some failure) = do
      answer ← docker_command execution (codes "logs" ∷ codes "--tail" ∷ codes "200" ∷ name ∷ [])
      duration ← outside env.elapsed_ms
      send_log detached (service_log offer service) (codes "failed") (codes "system") (some (pos 1))
          duration (diagnostic secrets answer)
      pure (some failure)
    report_service service name none = do
      duration ← outside env.elapsed_ms
      error ←
          send_log execution (service_log offer service) (codes "succeeded") (codes "system")
            (some (pos 0)) duration (codes "Service ready")
      pure (log_failure error)

    ready_service : Service → Bytes → Bytes → Run (State env) (Option Failure)
    unfolding report_service
    ready_service service name network = do
      failed ← await_service service name network
      report_service service name failed

    unfoldable pub start_service : Service → Bytes → Bytes → Run (State env) (Option Failure)
    unfolding ready_service service_log
    start_service service name network = do
      send_log execution (service_log offer service) (codes "running") (codes "system") none 0
          (codes "Starting service")
      then_run (docker_run execution (service_args cfg offer secrets service name network)) (
          then_run (docker_run execution (codes "start" ∷ name ∷ []))
            (ready_service service name network))

    start_services : Resources → List Service → Run (State env) (Option Failure)
    start_services resources [] = pure none
    start_services resources (service ∷ services) =
        then_run
          (start_service service (resources.container ++ codes "-service-" ++ safe_id service.id)
            resources.network)
          (start_services resources services)

    acquire_images : List Bytes → Run (State env) (Option Failure)
    acquire_images [] = pure none
    acquire_images (image ∷ images) =
        then_run (acquire_image execution image) (acquire_images images)

    unfoldable pub create_job : Resources → Run (State env) (Option Failure)
    create_job resources = docker_run execution (job_args cfg offer resources secrets)

    module _ (extract : Bytes → Bytes → Run (State env) (Option Bytes)) (root : Bytes) where
      after_extract : Bytes → Option Bytes → Run (State env) (Option Failure)
      after_extract container (some text) = pure (some (message text))
      after_extract container none = copy_tree (join_path (root ∷ codes "source" ∷ [])) container

      after_source_dir : Bytes → Bytes → Option Bytes → Run (State env) (Option Failure)
      unfolding after_extract
      after_source_dir container body (some text) = pure (some (message text))
      after_source_dir container body none = do
        error ← extract body (join_path (root ∷ codes "source" ∷ []))
        after_extract container error

      after_download : Bytes → Option (Bytes × ℕ) → Run (State env) (Option Failure)
      unfolding after_source_dir
      after_download container none = pure (some (message (codes "source transfer failed")))
      after_download container (some (body, status)) =
          if not (status == 200)
          then pure (some (message (codes "source transfer failed")))
          else (do
            error ← outside (env.make_dir (join_path (root ∷ codes "source" ∷ [])))
            after_source_dir container body error)

      copy_from : Bytes → Option Bytes → Run (State env) (Option Failure)
      unfolding after_download
      copy_from container none = pure none
      copy_from container (some url) = do
        response ← outside (env.get execution url (codes "application/gzip"))
        after_download container response

      unfoldable pub copy_source : Bytes → Run (State env) (Option Failure)
      unfolding copy_from
      copy_source container = copy_from container offer.source_url

      create_network : Bytes → Run (State env) (Option Failure)
      create_network network =
          if is_empty network
          then pure none
          else docker_run execution (
              (codes "network" ∷ codes "create" ∷ [])
              ++ labels (namespace_of cfg) offer.attempt_id
              ++ (network ∷ []))

      create_volume : Bytes → Run (State env) (Option Failure)
      create_volume volume = docker_run execution (
          (codes "volume" ∷ codes "create" ∷ [])
          ++ labels (namespace_of cfg) offer.attempt_id
          ++ (volume ∷ []))

      -- The first failure, or none.
      unfoldable pub prepare : List Service → Resources → Run (State env) (Option Failure)
      unfolding create_network create_volume start_services acquire_images all_images
      prepare services resources =
          then_run (acquire_images (unique_strings (all_images offer services))) (
            then_run (create_network resources.network) (
              then_run (create_volume resources.volume) (
                then_run (start_services resources services) (
                  then_run (create_job resources) (
                    then_run (docker_run execution (codes "start" ∷ resources.container ∷ [])) (
                      then_run (copy_source resources.container) (
                        docker_run_or (codes "configured shell is unavailable") execution (
                          codes "exec"
                          ∷ resources.container
                          ∷ offer.execution.shell
                          ∷ codes "-c"
                          ∷ codes "true"
                          ∷ []))))))))
