-- ===== src/Docker/Keeping.antt =====
-- What the actions that are built from Docker commands keep: the attempt events, the numbering of the
-- log events, and the commands sent before.
use robine_ci.Prelude.{
  ◌≡◌, refl, ap, ◌∙◌, Bool, true, false, Option, none, some, List, [], ◌∷◌, ◌++◌, append_assoc,
}
use robine_ci.Prelude.Bytes.{Bytes}
use robine_ci.Run.{Run, pure, ◌>>=◌, Preserves, Preserves-pure, Preserves-if, Preserves-bind}
use robine_ci.Strings.{trim_space}
use robine_ci.Offer.{is_empty}
use robine_ci.Executor.{Env, State, Context, AttemptEvent, outside, send, next_sequence, send_log}
use robine_ci.Executor.Keeping.{Admits, Reported, Numbered, Reported-Admits, Numbered-Admits}
use robine_ci.Docker.{Service, Resources, Failure}
use robine_ci.Docker.Calls.{
  docker_command, docker_run, docker_run_or, then_run, acquire_image, pull, container_running,
  services_running,
}
use robine_ci.Docker.Cleanup.{
  cleanup, remove, remove_container, remove_volume, remove_network, remove_containers,
}
use robine_ci.Docker.Prepare.{copy_tree}

-- The properties of the state that calls, log events and Docker commands keep.
pub record DockerAdmits {env : Env} (P : State env → Type 0) : Type 1 where
  pub admits : Admits P
  pub commands :
      (ctx : Context) (arguments : List Bytes)
      → Preserves P (docker_command {env = env} ctx arguments)
  pub copies : (source container : Bytes) → Preserves P (copy_tree {env = env} source container)

module _ {env : Env} where
  pub Reported-DockerAdmits : (es : List AttemptEvent) → DockerAdmits {env = env} (Reported es)
  unfolding docker_command copy_tree
  Reported-DockerAdmits es = record {
    admits = Reported-Admits es;
    commands = λ ctx arguments. record { at = λ s h. record { are = h.are } };
    copies = λ source container. record { at = λ s h. record { are = h.are } };
  }

  pub Numbered-DockerAdmits : DockerAdmits {env = env} Numbered
  unfolding docker_command copy_tree
  Numbered-DockerAdmits = record {
    admits = Numbered-Admits;
    commands = λ ctx arguments. record { at = λ s h. record { are = h.are } };
    copies = λ source container. record { at = λ s h. record { are = h.are } };
  }

  -- The commands sent so far begin with `cs`.
  pub record Sent (cs : List (List Bytes)) (s : State env) : Type 0 where
    pub more : List (List Bytes)
    pub are : s.commands ≡ cs ++ more

  Sent-append :
      (cs : List (List Bytes)) (command : List Bytes) (s t : State env)
      → t.commands ≡ s.commands ++ command ∷ []
      → Sent cs s
      → Sent cs t
  Sent-append cs command s t e h = record {
    more = h.more ++ command ∷ [];
    are = e ∙ ap (λ l. l ++ command ∷ []) h.are ∙ append_assoc cs h.more _;
  }

  pub Sent-DockerAdmits : (cs : List (List Bytes)) → DockerAdmits {env = env} (Sent cs)
  unfolding docker_command copy_tree outside send_log send next_sequence ◌>>=◌
  Sent-DockerAdmits cs = record {
    admits = record {
      calls = λ call. record { at = λ s h. record { more = h.more; are = h.are } };
      logs = λ ctx step status stream exit duration content. record {
        at = λ s h. record { more = h.more; are = h.are };
      };
    };
    commands = λ ctx arguments. record { at = λ s h. Sent-append cs arguments s _ refl h };
    copies = λ source container. record { at = λ s h. Sent-append cs _ s _ refl h };
  }

module _ {env : Env} {P : State env → Type 0} where
  pub Preserves-then :
      (first rest : Run (State env) (Option Failure))
      → Preserves P first
      → Preserves P rest
      → Preserves P (then_run first rest)
  Preserves-then first rest kept later = Preserves-bind _ _ kept (λ failed.
      elim failed
        as (λ r.
          Preserves {R = Option Failure} P
            (elim r [ some failure ↦ pure (some failure) | none ↦ rest ])) [
              | some failure ↦ Preserves-pure _
              | none ↦ later
            ])

module _ {env : Env} {P : State env → Type 0} (docker : DockerAdmits P) where
  open docker use {admits, commands}

  pub docker_run-Preserves :
      (ctx : Context) (arguments : List Bytes) → Preserves P (docker_run {env = env} ctx arguments)
  unfolding docker_run
  docker_run-Preserves ctx arguments =
      Preserves-bind _ _ (commands ctx arguments) (λ a. Preserves-pure _)

  pub docker_run_or-Preserves :
      (text : Bytes) (ctx : Context) (arguments : List Bytes)
      → Preserves P (docker_run_or {env = env} text ctx arguments)
  unfolding docker_run_or
  docker_run_or-Preserves text ctx arguments =
      Preserves-bind _ _ (docker_run-Preserves ctx arguments) (λ a. Preserves-pure _)

  pub acquire_image-Preserves :
      (ctx : Context) (image : Bytes) → Preserves P (acquire_image {env = env} ctx image)
  unfolding acquire_image pull
  acquire_image-Preserves ctx image =
      Preserves-if (is_empty (trim_space image)) _ _ (Preserves-pure _)
        (Preserves-bind _ _ (docker_run-Preserves _ _) pulled)
    where
      pulled : (failed : Option Failure) → Preserves P (pull {env = env} ctx image failed)
      pulled none = Preserves-pure _
      pulled (some failure) = docker_run_or-Preserves _ _ _

  pub container_running-Preserves :
      (ctx : Context) (name : Bytes) → Preserves P (container_running {env = env} ctx name)
  unfolding container_running
  container_running-Preserves ctx name = Preserves-bind _ _ (commands ctx _) (λ a. Preserves-pure _)

  pub services_running-Preserves :
      (ctx : Context) (resources : Resources) (services : List Service)
      → Preserves P (services_running {env = env} ctx resources services)
  unfolding services_running
  services_running-Preserves ctx resources [] = Preserves-pure _
  services_running-Preserves ctx resources (service ∷ services) =
      Preserves-bind _ _ (container_running-Preserves ctx _) (λ running.
        elim running
          as (λ b.
            Preserves {R = Bool} P
              (elim b [ true ↦ services_running ctx resources services | false ↦ pure false ])) [
                | true ↦ services_running-Preserves ctx resources services
                | false ↦ Preserves-pure _
              ])

  remove-Preserves :
      (ctx : Context) (command : Bytes → List Bytes) (name : Bytes)
      → Preserves P (remove {env = env} ctx command name)
  unfolding remove
  remove-Preserves ctx command name =
      Preserves-if (is_empty name) _ _ (Preserves-pure _)
        (Preserves-bind _ _ (docker_run-Preserves ctx (command name)) (λ failed. Preserves-pure _))

  remove_containers-Preserves :
      (ctx : Context) (names : List Bytes) → Preserves P (remove_containers {env = env} ctx names)
  unfolding remove_containers
  remove_containers-Preserves ctx [] = Preserves-pure _
  remove_containers-Preserves ctx (name ∷ names) =
      Preserves-bind _ _ (remove-Preserves ctx remove_container name) (λ failed.
        Preserves-bind _ _ (remove_containers-Preserves ctx names) (λ later. Preserves-pure _))

  pub cleanup-Preserves :
      (ctx : Context) (resources : Resources) → Preserves P (cleanup {env = env} ctx resources)
  unfolding cleanup
  cleanup-Preserves ctx resources =
      Preserves-bind _ _
        (remove_containers-Preserves ctx (resources.container ∷ resources.services))
        (λ c.
          Preserves-bind _ _ (remove-Preserves ctx remove_volume _) (λ v.
            Preserves-bind _ _ (remove-Preserves ctx remove_network _) (λ n. Preserves-pure _)))
