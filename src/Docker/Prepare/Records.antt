-- ===== src/Docker/Prepare/Records.antt =====
-- What the preparation of a job in containers keeps.
use robine_ci.Prelude.{
  ℕ, zero, suc, ◌+◌, Bool, true, false, not, Option, none, some, List, [], ◌∷◌, ltb, ◌==◌,
}
use robine_ci.Prelude.Bytes.{Bytes}
use robine_ci.Offer.{Offer, is_empty}
use robine_ci.Config.{Config}
use robine_ci.Run.{Run, Preserves, Preserves-pure, Preserves-if, Preserves-bind}
use robine_ci.Executor.{Env, State, ContextError, execution}
use robine_ci.Executor.Environment.{Variables}
use robine_ci.Docker.{Service, Readiness, Resources, Failure}
use robine_ci.Docker.Keeping.{
  DockerAdmits, Preserves-then, docker_run-Preserves, docker_run_or-Preserves,
  acquire_image-Preserves, container_running-Preserves,
}
use robine_ci.Docker.Prepare.{
  after_timer, after_probe, after_running, probe, after_context, before_deadline, await_rounds,
  await_service, report_service, ready_service, start_service, start_services, acquire_images,
  create_job, after_extract, after_source_dir, after_download, copy_from, copy_source,
  create_network, create_volume, prepare, readiness_timeout,
}

module _ {env : Env} {P : State env → Type 0} (docker : DockerAdmits P) where
  open docker use {admits, commands, copies}
  open admits use {calls, logs}

  module _ (service : Service) (name network : Bytes) (deadline : ℕ) where
    after_probe-Preserves :
        (rounds : Run (State env) (Option Failure)) (failed : Option Failure)
        → Preserves P rounds
        → Preserves P (after_probe service name network deadline rounds failed)
    unfolding after_probe
    after_probe-Preserves rounds none kept = Preserves-pure _
    after_probe-Preserves rounds (some failure) kept =
        Preserves-bind _ _ (calls (env.wait_timer execution 100)) waited
      where
        waited : (b : Bool) → Preserves P (after_timer service name network deadline rounds b)
        waited true = unfold after_timer in Preserves-bind _ _ (calls _) (λ error. Preserves-pure _)
        waited false = unfold after_timer in kept

    probe-Preserves :
        (rounds : Run (State env) (Option Failure)) (r : Option Readiness)
        → Preserves P rounds
        → Preserves P (probe service name network deadline rounds r)
    unfolding probe
    probe-Preserves rounds none kept = Preserves-pure _
    probe-Preserves rounds (some r) kept =
        Preserves-bind _ _ (docker_run-Preserves docker _ _)
          (λ failed. after_probe-Preserves rounds failed kept)

    after_context-Preserves :
        (rounds : Run (State env) (Option Failure)) (e : Option ContextError)
        → Preserves P rounds
        → Preserves P (after_context service name network deadline rounds e)
    unfolding after_context
    after_context-Preserves rounds (some e) kept =
        Preserves-bind _ _ (calls _) (λ error. Preserves-pure _)
    after_context-Preserves rounds none kept =
        Preserves-bind _ _ (container_running-Preserves docker _ _) going
      where
        going : (b : Bool) → Preserves P (after_running service name network deadline rounds b)
        going true = unfold after_running in probe-Preserves rounds service.readiness kept
        going false = unfold after_running in Preserves-pure _

    await_rounds-Preserves :
        (fuel : ℕ) → Preserves P (await_rounds {env = env} service name network deadline fuel)
    unfolding await_rounds before_deadline
    await_rounds-Preserves zero = Preserves-pure _
    await_rounds-Preserves (suc fuel) = Preserves-bind _ _ (calls env.now_ms) (λ now.
        Preserves-if (ltb now deadline) _ _
          (Preserves-bind _ _ (calls _)
            (λ e. after_context-Preserves _ e (await_rounds-Preserves fuel)))
          (Preserves-pure _))

  await_service-Preserves :
      (service : Service) (name network : Bytes)
      → Preserves P (await_service {env = env} service name network)
  unfolding await_service
  await_service-Preserves service name network = Preserves-bind _ _ (calls env.now_ms) (λ now.
      await_rounds-Preserves service name network (now + readiness_timeout service.readiness)
        (suc (readiness_timeout service.readiness)))

  module _ (cfg : Config) (offer : Offer) (secrets : Variables) where
    report_service-Preserves :
        (service : Service) (name : Bytes) (failed : Option Failure)
        → Preserves P (report_service cfg offer secrets service name failed)
    unfolding report_service
    report_service-Preserves service name (some failure) =
        Preserves-bind _ _ (commands _ _) (λ answer.
          Preserves-bind _ _ (calls _)
            (λ d. Preserves-bind _ _ (logs _ _ _ _ _ _ _) (λ r. Preserves-pure _)))
    report_service-Preserves service name none =
        Preserves-bind _ _ (calls _)
          (λ d. Preserves-bind _ _ (logs _ _ _ _ _ _ _) (λ r. Preserves-pure _))

    start_service-Preserves :
        (service : Service) (name network : Bytes)
        → Preserves P (start_service {env = env} cfg offer secrets service name network)
    unfolding start_service ready_service
    start_service-Preserves service name network = Preserves-bind _ _ (logs _ _ _ _ _ _ _) (λ r.
        Preserves-then _ _ (docker_run-Preserves docker _ _) (
          Preserves-then _ _ (docker_run-Preserves docker _ _) (
            Preserves-bind _ _ (await_service-Preserves service name network)
              (λ failed. report_service-Preserves service name failed))))

    start_services-Preserves :
        (resources : Resources) (services : List Service)
        → Preserves P (start_services {env = env} cfg offer secrets resources services)
    unfolding start_services
    start_services-Preserves resources [] = Preserves-pure _
    start_services-Preserves resources (service ∷ services) =
        Preserves-then _ _ (start_service-Preserves service _ _)
          (start_services-Preserves resources services)

    acquire_images-Preserves :
        (images : List Bytes) → Preserves P (acquire_images {env = env} cfg offer secrets images)
    unfolding acquire_images
    acquire_images-Preserves [] = Preserves-pure _
    acquire_images-Preserves (image ∷ images) =
        Preserves-then _ _ (acquire_image-Preserves docker _ image)
          (acquire_images-Preserves images)

    module _ (extract : Bytes → Bytes → Run (State env) (Option Bytes)) (root : Bytes)
        (extract_kept : (body target : Bytes) → Preserves P (extract body target)) where
      after_extract-Preserves :
          (container : Bytes) (e : Option Bytes)
          → Preserves P (after_extract cfg offer secrets extract root container e)
      unfolding after_extract
      after_extract-Preserves container (some text) = Preserves-pure _
      after_extract-Preserves container none = copies _ container

      after_source_dir-Preserves :
          (container body : Bytes) (e : Option Bytes)
          → Preserves P (after_source_dir cfg offer secrets extract root container body e)
      unfolding after_source_dir
      after_source_dir-Preserves container body (some text) = Preserves-pure _
      after_source_dir-Preserves container body none =
          Preserves-bind _ _ (extract_kept body _) (λ e. after_extract-Preserves container e)

      after_download-Preserves :
          (container : Bytes) (r : Option (Bytes × ℕ))
          → Preserves P (after_download cfg offer secrets extract root container r)
      unfolding after_download
      after_download-Preserves container none = Preserves-pure _
      after_download-Preserves container (some (body, status)) =
          Preserves-if (not (status == 200)) _ _ (Preserves-pure _)
            (Preserves-bind _ _ (calls _) (λ e. after_source_dir-Preserves container body e))

      copy_from-Preserves :
          (container : Bytes) (url : Option Bytes)
          → Preserves P (copy_from cfg offer secrets extract root container url)
      unfolding copy_from
      copy_from-Preserves container none = Preserves-pure _
      copy_from-Preserves container (some url) =
          Preserves-bind _ _ (calls _) (λ r. after_download-Preserves container r)

      create_network-Preserves :
          (network : Bytes) → Preserves P (create_network cfg offer secrets extract root network)
      unfolding create_network
      create_network-Preserves network =
          Preserves-if (is_empty network) _ _ (Preserves-pure _) (docker_run-Preserves docker _ _)

      pub prepare-Preserves :
          (services : List Service) (resources : Resources)
          → Preserves P (prepare cfg offer secrets extract root services resources)
      unfolding prepare create_volume create_job copy_source
      prepare-Preserves services resources = Preserves-then _ _ (acquire_images-Preserves _) (
          Preserves-then _ _ (create_network-Preserves resources.network) (
            Preserves-then _ _ (docker_run-Preserves docker _ _) (
              Preserves-then _ _ (start_services-Preserves resources services) (
                Preserves-then _ _ (docker_run-Preserves docker _ _) (
                  Preserves-then _ _ (docker_run-Preserves docker _ _) (
                    Preserves-then _ _ (copy_from-Preserves resources.container offer.source_url)
                      (docker_run_or-Preserves docker _ _ _)))))))
