-- ===== src/Docker/Attempt/Removed.antt =====
-- runDocker of docker_executor.go: what it leaves in the engine. Its commands end with the removal of
-- every resource that it may have made.
use robine_ci.Prelude.{
  ℕ, ◌≡◌, refl, sym, ap, ◌∙◌, Bool, true, false, Option, none, some, List, [], ◌∷◌, ◌++◌,
  append-nil, append_assoc, inl, inr,
}
use robine_ci.Prelude.Bytes.{Bytes, codes}
use robine_ci.Offer.{Json, Offer, JobStep}
use robine_ci.Run.{Run, pure, ◌>>=◌, Preserves, Preserves-pure, Preserves-bind}
use robine_ci.Config.{Config, namespace_of}
use robine_ci.Executor.{
  Env, State, Context, ContextError, Outcome, outside, limited, execution, delivery, send,
  next_sequence, send_log, terminal_delivery_allowed, send_attempt_event,
}
use robine_ci.Executor.Environment.{Variables}
use robine_ci.Executor.Keeping.{
  Admits, Preserves-option, terminal_delivery_allowed-Preserves, send_attempt_event-Preserves,
}
use robine_ci.Executor.Attempt.{Ending, steps_timeout, secrets_of}
use robine_ci.Docker.{Service, Resources, Failure, resource_names}
use robine_ci.Docker.Services.{Decoded, decode_services}
use robine_ci.Docker.Calls.{
  docker_ready, docker_run_or, docker_run, docker_command, safe_docker_error,
}
use robine_ci.Docker.Cleanup.{
  cleanup, cleanup-commands, removals, removal, remove_volume, remove_network,
}
use robine_ci.Docker.Keeping.{Sent, Sent-DockerAdmits}
use robine_ci.Docker.Prepare.{prepare}
use robine_ci.Docker.Prepare.Records.{prepare-Preserves}
use robine_ci.Docker.Steps.{run_steps}
use robine_ci.Docker.Steps.Records.{run_steps-Preserves}
use robine_ci.Docker.Attempt.{
  after_cleanup, report_failure, fail_preparation, after_error, give_up, refuse, report_outcome,
  conclude, perform, after_prepare, with_services, with_secrets, after_secure, in_root, after_temp,
  after_ready, run_docker,
}

-- The commands sent so far are `cs`.
record Held {env : Env} (cs : List (List Bytes)) (s : State env) : Type 0 where
  are : s.commands ≡ cs

-- The commands that an action sends, behind those sent before.
record Leaves {env : Env} {A : Type 0} (Q : List (List Bytes) → Type 0) (m : Run (State env) A)
    : Type 0 where
  at : (s : State env) → (cs : List (List Bytes)) × ((m s).1.commands ≡ s.commands ++ cs) × Q cs

abbrev IsStill : {env : Env} {A : Type 0} → Run (State env) A → Type 0
IsStill {env} m = (cs : List (List Bytes)) → Preserves (Held {env = env} cs) m

abbrev IsGrowing : {env : Env} {A : Type 0} → Run (State env) A → Type 0
IsGrowing {env} m = (cs : List (List Bytes)) → Preserves (Sent {env = env} cs) m

-- The commands that remove resources.
abbrev pub removed : Resources → List (List Bytes)
removed resources =
    removals (resources.container ∷ resources.services)
    ++ (removal remove_volume resources.volume ++ removal remove_network resources.network)

-- Commands that end with the removal of the resources.
abbrev pub EndsRemoved : Resources → List (List Bytes) → Type 0
EndsRemoved resources cs = (before : List (List Bytes)) × (cs ≡ before ++ removed resources)

-- What is sent behind the check of the engine: nothing where the services are not known, and else what
-- ends with the removal of the job's resources.
pub data Tidy (offer : Offer) (cfg : Config) (unmarshal : Json → Option Service)
    (cs : List (List Bytes)) : Type 0 where
  untouched : cs ≡ [] → Tidy offer cfg unmarshal cs
  tidied :
      (secrets : Variables) (services : List Service)
      → decode_services unmarshal offer.execution.services secrets ≡ inl services
      → EndsRemoved (resource_names (namespace_of cfg) offer.attempt_id services) cs
      → Tidy offer cfg unmarshal cs

abbrev pub version_command : List Bytes
version_command = codes "version" ∷ codes "--format" ∷ codes "{{.Server.Version}}" ∷ []

-- `docker version` and then what is tidy.
abbrev pub IsTidy : Offer → Config → (Json → Option Service) → List (List Bytes) → Type 0
IsTidy offer cfg unmarshal cs =
    (rest : List (List Bytes)) × (cs ≡ version_command ∷ rest) × Tidy offer cfg unmarshal rest

module _ {env : Env} where
  Held-Admits : (cs : List (List Bytes)) → Admits {env = env} (Held cs)
  unfolding outside send_log send next_sequence ◌>>=◌
  Held-Admits cs = record {
    calls = λ call. record { at = λ s h. record { are = h.are } };
    logs = λ ctx step status stream exit duration content. record {
      at = λ s h. record { are = h.are };
    };
  }

  event-IsStill :
      (ctx : Context) (offer : Offer) (n : ℕ) (status reason : Bytes)
      → IsStill (send_attempt_event {env = env} ctx offer n status reason)
  unfolding send
  event-IsStill ctx offer n status reason cs =
      send_attempt_event-Preserves (Held-Admits cs)
        (λ ctx r. record { at = λ s h. record { are = h.are } }) ctx offer n status reason

  allowed-IsStill : IsStill (terminal_delivery_allowed {env = env})
  allowed-IsStill cs = terminal_delivery_allowed-Preserves (Held-Admits cs)

  outside-IsStill :
      {A : Type 0} (call : env.World → A × env.World) → IsStill (outside {env = env} call)
  outside-IsStill call cs = (Held-Admits cs).calls call

  bind-IsStill :
      {A B : Type 0} (m : Run (State env) A) (f : A → Run (State env) B)
      → IsStill m
      → ((a : A) → IsStill (f a))
      → IsStill (m >>= f)
  bind-IsStill m f still later cs = Preserves-bind m f (still cs) (λ a. later a cs)

  pure-IsStill : {A : Type 0} (a : A) → IsStill {env = env} (pure a)
  pure-IsStill a cs = Preserves-pure a

  Leaves-still :
      {A : Type 0} {Q : List (List Bytes) → Type 0} (m : Run (State env) A)
      → IsStill m
      → Q []
      → Leaves Q m
  Leaves-still m still q = record {
    at = λ s. ([], ((still s.commands).at s (record { are = refl })).are ∙ sym (append-nil _), q);
  }

  Leaves-after :
      {A B : Type 0} {Q : List (List Bytes) → Type 0} (m : Run (State env) A)
      (f : A → Run (State env) B)
      → IsStill m
      → ((a : A) → Leaves Q (f a))
      → Leaves Q (m >>= f)
  unfolding ◌>>=◌
  Leaves-after m f still later = record {
    at = λ s.
        let kept = ((still s.commands).at s (record { are = refl })).are in
        let (cs, e, q) = (later (m s).0).at (m s).1 in (cs, e ∙ ap (λ l. l ++ cs) kept, q);
  }

  Leaves-then :
      {A B : Type 0} {Q : List (List Bytes) → Type 0} (m : Run (State env) A)
      (f : A → Run (State env) B)
      → Leaves Q m
      → ((a : A) → IsStill (f a))
      → Leaves Q (m >>= f)
  unfolding ◌>>=◌
  Leaves-then m f left still = record {
    at = λ s.
        let (cs, e, q) = left.at s in
        let kept = ((still (m s).0 (m s).1.commands).at (m s).1 (record { are = refl })).are in
        (cs, kept ∙ e, q);
  }

  -- Whatever is sent before, the commands end as those of the rest.
  EndsRemoved-behind :
      {A B : Type 0} (resources : Resources) (m : Run (State env) A) (f : A → Run (State env) B)
      → IsGrowing m
      → ((a : A) → Leaves (EndsRemoved resources) (f a))
      → Leaves (EndsRemoved resources) (m >>= f)
  unfolding ◌>>=◌
  EndsRemoved-behind resources m f growing later = record {
    at = λ s.
        let sent = (growing s.commands).at s (record { more = []; are = sym (append-nil _) }) in
        let (cs, e, (before, same)) = (later (m s).0).at (m s).1 in
        (
          sent.more ++ cs,
          e ∙ ap (λ l. l ++ cs) sent.are ∙ append_assoc s.commands sent.more cs,
          (
            sent.more ++ before,
            ap (λ l. sent.more ++ l) same ∙ sym (append_assoc sent.more before _),
          ),
        );
  }

  cleanup-EndsRemoved :
      (resources : Resources)
      → Leaves (EndsRemoved resources) (cleanup {env = env} delivery resources)
  cleanup-EndsRemoved resources = record {
    at = λ s. (
      removed resources,
      cleanup-commands delivery resources s
          ∙ append_assoc (s.commands ++ removals (resources.container ∷ resources.services)) _ _
          ∙ append_assoc s.commands _ _,
      ([], refl),
    );
  }

  module _ (offer : Offer) where
    fail_preparation-IsStill :
        (text : Bytes) (o : Outcome) → IsStill (fail_preparation {env = env} offer text o)
    unfolding fail_preparation
    fail_preparation-IsStill text o = bind-IsStill _ _ allowed-IsStill told
      where
        told : (b : Bool) → IsStill (report_failure {env = env} offer text o b)
        told false = unfold report_failure in pure-IsStill _
        told true =
            unfold report_failure in
            bind-IsStill _ _ (λ cs. (Held-Admits cs).logs _ _ _ _ _ _ _)
              (λ r.
                bind-IsStill _ _ (event-IsStill delivery offer 2 o.status o.reason)
                  (λ e. pure-IsStill _))

    refuse-IsStill : (text : Bytes) → IsStill (refuse {env = env} offer text)
    unfolding refuse
    refuse-IsStill text = bind-IsStill _ _ (fail_preparation-IsStill text _) (λ u. pure-IsStill _)

    give_up-IsStill : (late text : Bytes) → IsStill (give_up {env = env} offer late text)
    unfolding give_up
    give_up-IsStill late text = bind-IsStill _ _ (outside-IsStill _) gone
      where
        gone : (e : Option ContextError) → IsStill (after_error {env = env} offer late text e)
        gone (some e) =
            unfold after_error in
            bind-IsStill _ _ (outside-IsStill _)
              (λ e'. bind-IsStill _ _ (fail_preparation-IsStill late _) (λ u. pure-IsStill _))
        gone none =
            unfold after_error in
            bind-IsStill _ _ (fail_preparation-IsStill text _) (λ u. pure-IsStill _)

    conclude-IsStill :
        (o : Outcome) (left : Option Failure) → IsStill (conclude {env = env} offer o left)
    unfolding conclude
    conclude-IsStill o left = bind-IsStill _ _ allowed-IsStill told
      where
        told : (b : Bool) → IsStill (report_outcome {env = env} offer (after_cleanup left o) b)
        told false = unfold report_outcome in pure-IsStill _
        told true =
            unfold report_outcome in
            bind-IsStill _ _ (event-IsStill _ _ _ _ _)
              (λ error cs. Preserves-option error _ _ (λ x. Preserves-pure _) (Preserves-pure _))

    module _ (cfg : Config) (unmarshal : Json → Option Service)
        (extract : Bytes → Bytes → Run (State env) (Option Bytes))
        (builtin : Bytes → JobStep → Run (State env) (Option Bytes)) (cwd : Bytes)
        (extract_growing : (body target : Bytes) → IsGrowing (extract body target))
        (builtin_growing : (workspace : Bytes) (step : JobStep)
          → IsGrowing (builtin workspace step)) where
      module _ (root : Bytes) where
        perform-EndsRemoved :
            (services : List Service) (resources : Resources) (secrets : Variables)
            (error : Option Bytes)
            → Leaves (EndsRemoved resources) (
                perform offer cfg unmarshal extract builtin cwd root services resources secrets
                  error)
        unfolding perform
        perform-EndsRemoved services resources secrets (some x) =
            Leaves-then _ _ (cleanup-EndsRemoved resources) (λ left. pure-IsStill _)
        perform-EndsRemoved services resources secrets none =
            EndsRemoved-behind resources
              (run_steps builtin cwd resources.container offer resources services secrets root) _
              (λ cs.
                run_steps-Preserves (Sent-DockerAdmits cs) builtin cwd resources.container
                  (λ workspace step. builtin_growing workspace step cs) offer resources services
                  secrets root)
              (λ o.
                Leaves-then _ _ (cleanup-EndsRemoved resources) (λ left. conclude-IsStill o left))

        after_prepare-EndsRemoved :
            (services : List Service) (resources : Resources) (secrets : Variables)
            (failure : Option Failure)
            → Leaves (EndsRemoved resources) (
                after_prepare offer cfg unmarshal extract builtin cwd root services resources
                  secrets failure)
        unfolding after_prepare
        after_prepare-EndsRemoved services resources secrets (some failure) =
            Leaves-after _ _ (give_up-IsStill _ (safe_docker_error failure secrets))
              (λ ending. Leaves-then _ _ (cleanup-EndsRemoved resources) (λ left. pure-IsStill _))
        after_prepare-EndsRemoved services resources secrets none =
            Leaves-after _ _ (event-IsStill _ _ _ _ _)
              (perform-EndsRemoved services resources secrets)

        Leaves-tidied :
            (secrets : Variables) (services : List Service) (m : Run (State env) Ending)
            → decode_services unmarshal offer.execution.services secrets ≡ inl services
            → Leaves (EndsRemoved (resource_names (namespace_of cfg) offer.attempt_id services)) m
            → Leaves (Tidy offer cfg unmarshal) m
        Leaves-tidied secrets services m known left = record {
          at = λ s. let (cs, e, ends) = left.at s in (cs, e, tidied secrets services known ends);
        }

        with_secrets-Tidy :
            (secrets : Option Variables)
            → Leaves
                (Tidy offer cfg unmarshal)
                (with_secrets offer cfg unmarshal extract builtin cwd root secrets)
        unfolding with_secrets
        with_secrets-Tidy none = Leaves-still _ (give_up-IsStill _ _) (untouched refl)
        with_secrets-Tidy (some secrets) =
            decoded (decode_services unmarshal offer.execution.services secrets) refl
          where
            decoded :
                (d : Decoded)
                → decode_services unmarshal offer.execution.services secrets ≡ d
                → Leaves
                    (Tidy offer cfg unmarshal)
                    (with_services offer cfg unmarshal extract builtin cwd root secrets d)
            decoded (inr error) known =
                unfold with_services in Leaves-still _ (refuse-IsStill _) (untouched refl)
            decoded (inl services) known =
                unfold with_services in
                Leaves-tidied secrets services _ known (
                  EndsRemoved-behind (resource_names (namespace_of cfg) offer.attempt_id services)
                    (prepare cfg offer secrets extract root services
                      (resource_names (namespace_of cfg) offer.attempt_id services))
                    _
                    (λ cs.
                      prepare-Preserves (Sent-DockerAdmits cs) cfg offer secrets extract root
                        (λ body target. extract_growing body target cs) services _)
                    (after_prepare-EndsRemoved services _ secrets))

        in_root-Tidy :
            Leaves (Tidy offer cfg unmarshal) (in_root offer cfg unmarshal extract builtin cwd root)
        unfolding in_root
        in_root-Tidy = Leaves-after _ _ (outside-IsStill (env.secure root)) (λ secured.
            Leaves-then _ _ (checked secured) (λ ending.
              bind-IsStill _ _ (outside-IsStill (env.remove_all root)) (λ r. pure-IsStill _)))
          where
            checked :
                (b : Bool)
                → Leaves
                    (Tidy offer cfg unmarshal)
                    (after_secure offer cfg unmarshal extract builtin cwd root b)
            checked false =
                unfold after_secure in Leaves-still _ (refuse-IsStill _) (untouched refl)
            checked true =
                unfold after_secure in
                Leaves-after _ _ (outside-IsStill _)
                  (λ response. with_secrets-Tidy (secrets_of env response))

      ready-Tidy :
          (failure : Option Failure)
          → Leaves
              (Tidy offer cfg unmarshal)
              (after_ready offer cfg unmarshal extract builtin cwd failure)
      unfolding after_ready
      ready-Tidy (some failure) = Leaves-still _ (give_up-IsStill _ _) (untouched refl)
      ready-Tidy none = Leaves-after _ _ (outside-IsStill _) made
        where
          made :
              (root : Option Bytes)
              → Leaves
                  (Tidy offer cfg unmarshal)
                  (after_temp offer cfg unmarshal extract builtin cwd root)
          made none = unfold after_temp in Leaves-still _ (refuse-IsStill _) (untouched refl)
          made (some root) = unfold after_temp in in_root-Tidy root

      -- Where the unpacking and the built-in steps take back no command, an attempt asks the engine for its
      -- version, and then, whatever fails or is cancelled later: for nothing more, or for commands of
      -- which the last remove the job's container, the containers of its services, its volume and its
      -- network, with the names that belong to the services decoded from the offer.
      pub run_docker-IsTidy :
          (s : State env)
          → (cs : List (List Bytes)) × ((run_docker offer cfg unmarshal extract builtin cwd
                s).1.commands
              ≡ s.commands ++ cs)
            × IsTidy offer cfg unmarshal cs
      unfolding run_docker docker_ready docker_run_or docker_run docker_command outside ◌>>=◌ pure
      run_docker-IsTidy s =
          let (u, w) = env.start_timeout (steps_timeout offer.execution.timeout_ms) s.world in
          let w' = (env.combined_output (limited 10_000 execution) version_command w).1 in
          let (cs, e, tidy) =
            (ready-Tidy _).at
              (record s { world = w'; commands = s.commands ++ version_command ∷ [] }) in
          (
            version_command ∷ cs,
            e ∙ append_assoc s.commands (version_command ∷ []) cs,
            (cs, refl, tidy),
          )
