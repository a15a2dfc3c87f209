-- ===== src/Docker/Attempt/Reports.antt =====
-- runDocker of docker_executor.go: what it tells the server of the attempt.
use robine_ci.Prelude.{
  ◌≡◌, refl, Bool, true, false, Option, none, some, List, [], ◌∷◌, ◌++◌, Bool-cases, inl, inr,
}
use robine_ci.Prelude.Bytes.{Bytes, codes, bytes_eq}
use robine_ci.Prelude.Int.{pos}
use robine_ci.Offer.{Json, Offer, JobStep}
use robine_ci.Run.{Run, pure, ◌>>=◌, ◌>>◌, Preserves-pure, Preserves-bind}
use robine_ci.Config.{Config, namespace_of}
use robine_ci.Executor.{
  Env, State, AttemptEvent, ContextError, Outcome, outside, outer, execution, delivery,
  terminal_delivery_allowed, context_outcome,
}
use robine_ci.Executor.Environment.{Variables}
use robine_ci.Executor.Keeping.{attempt_events, Reported-Admits, Preserves-option}
use robine_ci.Executor.Steps.Outcomes.{IsFinal, FailedBy, context_outcome-IsInterrupted}
use robine_ci.Executor.Attempt.{steps_timeout, secrets_of}
use robine_ci.Executor.Attempt.Lifecycle.{allowed-IsQuiet, outside-IsQuiet}
use robine_ci.Executor.Attempt.Reports.{
  IsOf, reason_of, Sends, failed-IsFinal, IsQuiet, Sends-quiet, Sends-knowing, Sends-after,
  Sends-then, Sends-event,
}
use robine_ci.Docker.{Service, Resources, Failure, resource_names}
use robine_ci.Docker.Services.{Decoded, decode_services}
use robine_ci.Docker.Calls.{docker_ready, safe_docker_error}
use robine_ci.Docker.Cleanup.{cleanup}
use robine_ci.Docker.Keeping.{Reported-DockerAdmits, cleanup-Preserves, docker_run_or-Preserves}
use robine_ci.Docker.Prepare.{prepare}
use robine_ci.Docker.Prepare.Records.{prepare-Preserves}
use robine_ci.Docker.Steps.{run_steps}
use robine_ci.Docker.Steps.Records.{run_steps-Preserves}
use robine_ci.Docker.Steps.Outcomes.{run_steps-Final}
use robine_ci.Docker.Attempt.{
  system_failure, after_cleanup, report_failure, fail_preparation, after_error, give_up, refuse,
  report_outcome, conclude, perform, after_prepare, with_services, with_secrets, after_secure,
  in_root, after_temp, after_ready, run_docker,
}

-- The ways in which an attempt may be reported: not at all; as over before it ran, because the
-- preparation failed or was interrupted; as running; as running and then with a final status.
pub data Report (offer : Offer) : List AttemptEvent → Type 0 where
  silent : Report offer []
  unprepared :
      {e : AttemptEvent} (o : Outcome)
      → IsOf offer 2 e
      → FailedBy (codes "system_failure") o
      → e.status ≡ o.status
      → e.reason ≡ reason_of o.reason
      → Report offer (e ∷ [])
  running : {e : AttemptEvent} → IsOf offer 2 e → e.status ≡ codes "running" → Report offer (e ∷ [])
  done :
      {e f : AttemptEvent} (o : Outcome)
      → IsOf offer 2 e
      → e.status ≡ codes "running"
      → IsOf offer 3 f
      → IsFinal o
      → f.status ≡ o.status
      → f.reason ≡ reason_of o.reason
      → Report offer (e ∷ f ∷ [])

after_cleanup-IsFinal :
    (left : Option Failure) (o : Outcome) → IsFinal o → IsFinal (after_cleanup left o)
unfolding after_cleanup
after_cleanup-IsFinal none o final = final
after_cleanup-IsFinal (some failure) o final =
    elim (Bool-cases (bytes_eq o.status (codes "succeeded"))) [
      | inl e ↦ rw e failed-IsFinal
      | inr e ↦ rw e final
    ]

module _ {env : Env} where
  pure-IsQuiet : {A : Type 0} (a : A) → IsQuiet {env = env} (pure a)
  pure-IsQuiet a es = Preserves-pure a

  cleanup-IsQuiet : (resources : Resources) → IsQuiet (cleanup {env = env} delivery resources)
  cleanup-IsQuiet resources es = cleanup-Preserves (Reported-DockerAdmits es) delivery resources

  -- An action, and then one without events, before the first one's result.
  Sends-finally :
      {A B : Type 0} {Q : List AttemptEvent → Type 0} (m : Run (State env) A)
      (last : Run (State env) B)
      → Sends Q m
      → IsQuiet last
      → Sends Q (m >>= λ a. last >> pure a)
  Sends-finally m last sent quiet =
      Sends-then m _ sent (λ a es. Preserves-bind _ _ (quiet es) (λ b. Preserves-pure a))

  module _ (offer : Offer) where
    fail_preparation-Sends :
        (text : Bytes) (o : Outcome)
        → FailedBy (codes "system_failure") o
        → Sends (Report offer) (fail_preparation {env = env} offer text o)
    unfolding fail_preparation report_failure
    fail_preparation-Sends text o why =
        Sends-after terminal_delivery_allowed _ allowed-IsQuiet (λ allowed.
          elim allowed as (λ b. Sends (Report offer) (report_failure {env = env} offer text o b)) [
            | false ↦ Sends-quiet _ (pure-IsQuiet tt) silent
            | true ↦
                Sends-after _ _
                  (λ es.
                    (Reported-Admits es).logs delivery _ o.status (codes "system") (some (pos 1)) 0
                      text)
                  (λ r.
                    Sends-event delivery offer 2 o.status o.reason _
                      (λ error. Sends-quiet _ (pure-IsQuiet tt) silent)
                      (λ e ours status reason error.
                        Sends-quiet _ (pure-IsQuiet tt) (unprepared o ours why status reason)))
          ])

    refuse-Sends : (text : Bytes) → Sends (Report offer) (refuse {env = env} offer text)
    unfolding refuse
    refuse-Sends text =
        Sends-then _ _ (fail_preparation-Sends text system_failure (inl (refl, refl)))
          (λ u. pure-IsQuiet _)

    give_up-Sends : (late text : Bytes) → Sends (Report offer) (give_up {env = env} offer late text)
    unfolding give_up
    give_up-Sends late text =
        Sends-after (outside (env.context_error execution)) _ (outside-IsQuiet _) gone
      where
        gone :
            (e : Option ContextError)
            → Sends (Report offer) (after_error {env = env} offer late text e)
        gone (some e) =
            unfold after_error in
            Sends-after (outside (env.context_error execution)) _ (outside-IsQuiet _) (λ e'.
              Sends-then _ _
                (fail_preparation-Sends late (context_outcome e')
                  (inr (context_outcome-IsInterrupted e')))
                (λ u. pure-IsQuiet _))
        gone none = unfold after_error refuse in refuse-Sends text

    conclude-Sends :
        (e : AttemptEvent) (o : Outcome) (left : Option Failure)
        → IsOf offer 2 e
        → e.status ≡ codes "running"
        → IsFinal o
        → Sends (λ es. Report offer (e ∷ es)) (conclude {env = env} offer o left)
    unfolding conclude report_outcome
    conclude-Sends e o left ours on final =
        Sends-after terminal_delivery_allowed _ allowed-IsQuiet told
      where
        told :
            (b : Bool)
            → Sends
                (λ es. Report offer (e ∷ es))
                (report_outcome {env = env} offer (after_cleanup left o) b)
        told false = Sends-quiet _ (pure-IsQuiet _) (running ours on)
        told true =
            Sends-event delivery offer 3 (after_cleanup left o).status (after_cleanup left o).reason
              _ (λ error. Sends-quiet _ (pure-IsQuiet _) (running ours on))
              (λ f mine status reason error.
                Sends-quiet _
                  (λ es. Preserves-option error _ _ (λ x. Preserves-pure _) (Preserves-pure _))
                  (done (after_cleanup left o) ours on mine (after_cleanup-IsFinal left o final)
                    status reason))

    module _ (cfg : Config) (unmarshal : Json → Option Service)
        (extract : Bytes → Bytes → Run (State env) (Option Bytes))
        (builtin : Bytes → JobStep → Run (State env) (Option Bytes)) (cwd : Bytes)
        (extract_quiet : (body target : Bytes) → IsQuiet (extract body target))
        (builtin_quiet : (workspace : Bytes) (step : JobStep)
          → IsQuiet (builtin workspace step)) where
      module _ (root : Bytes) where
        perform-Sends :
            (e : AttemptEvent) (services : List Service) (resources : Resources)
            (secrets : Variables) (error : Option Bytes)
            → IsOf offer 2 e
            → e.status ≡ codes "running"
            → Sends
                (λ es. Report offer (e ∷ es))
                (perform offer cfg unmarshal extract builtin cwd root services resources secrets
                  error)
        unfolding perform
        perform-Sends e services resources secrets (some x) ours on =
            Sends-after (cleanup delivery resources) _ (cleanup-IsQuiet resources)
              (λ left. Sends-quiet _ (pure-IsQuiet _) (running ours on))
        perform-Sends e services resources secrets none ours on =
            Sends-knowing {Post = IsFinal}
              (run_steps builtin cwd resources.container offer resources services secrets root) _
              (λ es.
                run_steps-Preserves (Reported-DockerAdmits es) builtin cwd resources.container
                  (λ workspace step. builtin_quiet workspace step es) offer resources services
                  secrets root)
              (run_steps-Final builtin cwd resources.container offer resources services secrets
                root)
              (λ o final.
                Sends-after (cleanup delivery resources) _ (cleanup-IsQuiet resources)
                  (λ left. conclude-Sends e o left ours on final))

        after_prepare-Sends :
            (services : List Service) (resources : Resources) (secrets : Variables)
            (failure : Option Failure)
            → Sends (Report offer) (
                after_prepare offer cfg unmarshal extract builtin cwd root services resources
                  secrets failure)
        unfolding after_prepare
        after_prepare-Sends services resources secrets (some failure) =
            Sends-finally _ _ (give_up-Sends _ (safe_docker_error failure secrets))
              (cleanup-IsQuiet resources)
        after_prepare-Sends services resources secrets none =
            Sends-event outer offer 2 (codes "running") [] _
              (λ error.
                unfold perform in
                Sends-after (cleanup delivery resources) _ (cleanup-IsQuiet resources)
                  (λ left. Sends-quiet _ (pure-IsQuiet _) silent))
              (λ e ours status reason error.
                perform-Sends e services resources secrets error ours status)

        with_secrets-Sends :
            (secrets : Option Variables)
            → Sends
                (Report offer)
                (with_secrets offer cfg unmarshal extract builtin cwd root secrets)
        unfolding with_secrets
        with_secrets-Sends none = give_up-Sends _ _
        with_secrets-Sends (some secrets) =
            decoded (decode_services unmarshal offer.execution.services secrets)
          where
            decoded :
                (d : Decoded)
                → Sends
                    (Report offer)
                    (with_services offer cfg unmarshal extract builtin cwd root secrets d)
            decoded (inr error) = unfold with_services in refuse-Sends _
            decoded (inl services) =
                unfold with_services in
                Sends-after
                  (prepare cfg offer secrets extract root services
                    (resource_names (namespace_of cfg) offer.attempt_id services))
                  _
                  (λ es.
                    prepare-Preserves (Reported-DockerAdmits es) cfg offer secrets extract root
                      (λ body target. extract_quiet body target es) services _)
                  (after_prepare-Sends services _ secrets)

        in_root-Sends : Sends (Report offer) (in_root offer cfg unmarshal extract builtin cwd root)
        unfolding in_root
        in_root-Sends =
            Sends-after (outside (env.secure root)) _ (outside-IsQuiet _) (λ secured.
              Sends-finally _ _ (checked secured) (outside-IsQuiet (env.remove_all root)))
          where
            checked :
                (b : Bool)
                → Sends (Report offer) (after_secure offer cfg unmarshal extract builtin cwd root b)
            checked false = unfold after_secure in refuse-Sends _
            checked true =
                unfold after_secure in
                Sends-after
                  (outside (env.get execution offer.secrets_url (codes "application/json"))) _
                  (outside-IsQuiet _) (λ response. with_secrets-Sends (secrets_of env response))

      run_docker-Sends : Sends (Report offer) (run_docker offer cfg unmarshal extract builtin cwd)
      unfolding run_docker docker_ready
      run_docker-Sends =
          Sends-after (outside (env.start_timeout (steps_timeout offer.execution.timeout_ms))) _
            (outside-IsQuiet _)
            (λ u.
              Sends-after (docker_ready execution) _
                (λ es. docker_run_or-Preserves (Reported-DockerAdmits es) _ _ _) ready)
        where
          made :
              (root : Option Bytes)
              → Sends (Report offer) (after_temp offer cfg unmarshal extract builtin cwd root)
          made none = unfold after_temp in refuse-Sends _
          made (some root) = unfold after_temp in in_root-Sends root

          ready :
              (failure : Option Failure)
              → Sends (Report offer) (after_ready offer cfg unmarshal extract builtin cwd failure)
          ready (some failure) = unfold after_ready in give_up-Sends _ _
          ready none = unfold after_ready in Sends-after (outside _) _ (outside-IsQuiet _) made

      -- If neither the built-in steps nor the unpacking of the source sends attempt events, an attempt in
      -- containers is reported in one of four ways, whatever fails, is cancelled or is lost: no event; one
      -- event with the sequence 2, that it failed with "system_failure" or "timeout" or was cancelled
      -- before it ran; one event with the sequence 2, that it is running; or that, and then one with the
      -- sequence 3, with a status and a reason that go together. Each event names the attempt and the
      -- token of the offer.
      pub run_docker-Report :
          (s : State env)
          → (es : List AttemptEvent) × (attempt_events
                (run_docker offer cfg unmarshal extract builtin cwd s).1.sent
              ≡ attempt_events s.sent ++ es)
            × Report offer es
      run_docker-Report s = run_docker-Sends.at s
